-- ===== src/Cri/Spdy/Codec/Prefix.antt =====
-- How `parse_frame` (crates/cri/src/spdy.rs) treats a buffer that holds part of a frame, a whole
-- frame with more behind it, or a control frame that is too short for its type.
use containerd_rs.Base.{
  ℕ, ◌+◌, ◌*◌, ◌^◌, ◌<◌, ◌≤◌, ◌≡◌, ◌≢◌, refl, sym, ◌∙◌, ◌⊎◌, inl, inr, [], ◌∷◌, ◌++◌, Bytes, length,
  ok, err, none, some, arith, true, ltb, Bool-cases, append-nil, length-append, take-append_le,
  take-length_append,
}
use containerd_rs.Cri.Spdy.Words.{panic, rd_u32_short}
use containerd_rs.Cri.Spdy.Frame.{Frame}
use containerd_rs.Cri.Spdy.Codec.{
  NvCodec, is_control, parse_control, parse_header, parse_frame, frame_bytes,
}
use containerd_rs.Cri.Spdy.Codec.RoundTrip.{IsFrame, parse_frame-frame_bytes}

module _ (codec : NvCodec) where
  open codec use {Deflate, Inflate, IsSendable, Synced}

  parse_header_bounds :
      (d d' : Inflate) (b0 b1 b2 b3 b4 len n : ℕ) (rest : Bytes) (f : Frame)
      → parse_header codec d b0 b1 b2 b3 b4 len rest ≡ ok (some (f, n, d'))
      → (8 ≤ n) × (n ≤ 8 + length rest)
  unfolding parse_header
  parse_header_bounds d d' b0 b1 b2 b3 b4 len n rest f h = ground arith

  -- A frame that is returned took eight bytes at least, and no more than the buffer has.
  pub parse_frame_bounds :
      (d d' : Inflate) (b : Bytes) (f : Frame) (n : ℕ)
      → parse_frame codec d b ≡ ok (some (f, n, d'))
      → (8 ≤ n) × (n ≤ length b)
  unfolding parse_frame
  parse_frame_bounds d d' (b0 ∷ b1 ∷ b2 ∷ b3 ∷ b4 ∷ l0 ∷ l1 ∷ l2 ∷ rest) f n h =
      omega
        (arith, parse_header_bounds d d' b0 b1 b2 b3 b4 (l0 * 2 ^ 16 + l1 * 2 ^ 8 + l2) n rest f h)
  parse_frame_bounds d d' _ f n h = cc

  parse_header-append :
      (d : Inflate) (b0 b1 b2 b3 b4 len : ℕ) (rest more : Bytes)
      → (parse_header codec d b0 b1 b2 b3 b4 len rest ≡ ok none)
        ⊎ (parse_header codec d b0 b1 b2 b3 b4 len (rest ++ more)
            ≡ parse_header codec d b0 b1 b2 b3 b4 len rest)
  unfolding parse_header
  parse_header-append d b0 b1 b2 b3 b4 len rest more = elim (Bool-cases (ltb (length rest) len)) [
    | inl short ↦ inl (rw short)
    | inr whole ↦
        inr (
          rw (take-append_le len rest more (ground arith))
            (ground (arith, length-append rest more)))
  ]

  -- Bytes behind a complete frame are not looked at: the same frame is returned with them.
  pub parse_frame-append :
      (d : Inflate) (b more : Bytes)
      → (parse_frame codec d b ≡ ok none)
        ⊎ (parse_frame codec d (b ++ more) ≡ parse_frame codec d b)
  unfolding parse_frame
  parse_frame-append d (b0 ∷ b1 ∷ b2 ∷ b3 ∷ b4 ∷ l0 ∷ l1 ∷ l2 ∷ rest) more =
      parse_header-append d b0 b1 b2 b3 b4 (l0 * 2 ^ 16 + l1 * 2 ^ 8 + l2) rest more
  parse_frame-append d _ more = inl refl

  -- A proper prefix of a written frame asks for more bytes and decodes nothing.
  pub parse_frame_partial :
      (e e' : Deflate) (d : Inflate) (f : Frame) (front back : Bytes)
      → Synced e d
      → IsFrame codec f
      → frame_bytes codec e f ≡ ok (front ++ back, e')
      → length (front ++ back) < 8 + 2 ^ 24
      → back ≢ []
      → parse_frame codec d front ≡ ok none
  parse_frame_partial e e' d f front [] s v w n ne = absurd (ne refl)
  parse_frame_partial e e' d f front (x ∷ back) s v w n ne =
      elim (parse_frame-append d front (x ∷ back)) [
        | inl short ↦ short
        | inr same ↦
            let (d', r, _) =
              parse_frame-frame_bytes codec e e' d f (front ++ x ∷ back) [] s v w n in
            let whole : parse_frame codec d (front ++ x ∷ back)
                ≡ ok (some (f, length (front ++ x ∷ back), d')) =
              rw append-nil at r in
            absurd (
              omega (
                arith,
                parse_frame_bounds d d' front f (length (front ++ x ∷ back)) (sym same ∙ whole),
                length-append front (x ∷ back),
              ))
      ]

  -- The types whose bodies begin with a word that is read without a test of the length.
  abbrev ReadsWord : ℕ → Type 0
  ReadsWord t = (t ≡ 1) ⊎ (t ≡ 2) ⊎ (t ≡ 3) ⊎ (t ≡ 4) ⊎ (t ≡ 6) ⊎ (t ≡ 7) ⊎ (t ≡ 8) ⊎ (t ≡ 9)

  parse_control_short :
      (d : Inflate) (ftype flags : ℕ) (body : Bytes)
      → ReadsWord ftype
      → length body < 4
      → parse_control codec d ftype flags body ≡ err panic
  unfolding parse_control
  parse_control_short d ftype flags body t n = ground (arith, rd_u32_short body n)

  -- A complete control frame of a known type whose body has fewer than four bytes makes the parser
  -- index past the end of the body: it panics, where every other malformed frame is an error.
  pub parse_frame_short_panics :
      (d : Inflate) (b0 b1 b2 b3 b4 : ℕ) (body rest : Bytes)
      → is_control b0 ≡ true
      → ReadsWord (b2 * 256 + b3)
      → length body < 4
      → parse_frame codec d (b0 ∷ b1 ∷ b2 ∷ b3 ∷ b4 ∷ 0 ∷ 0 ∷ length body ∷ (body ++ rest))
        ≡ err panic
  unfolding parse_frame parse_header
  parse_frame_short_panics d b0 b1 b2 b3 b4 body rest c t n = ground (
    arith,
    take-length_append body rest,
    length-append body rest,
    parse_control_short d (b2 * 256 + b3) b4 body t n,
  )
