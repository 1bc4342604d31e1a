-- ===== src/Cri/Spdy/Codec/RoundTrip.antt =====
-- What `write_frame` writes `parse_frame` reads back (crates/cri/src/spdy.rs).
use containerd_rs.Base.{
  ℕ, suc, ◌+◌, ◌*◌, ◌%◌, ◌^◌, ◌<◌, ◌≡◌, refl, ap, subst, List, [], ◌∷◌, ◌++◌, Bytes, length, Result,
  ok, ◌>>=◌, some, arith, All, take-length_append, drop-length_append, length-append, bind-eq-ok,
}
use containerd_rs.Cri.Spdy.Words.{Fault, rd_u32, wr_u32, wr_u24, slice_from, low_31, rd_u32-wr_u32}
use containerd_rs.Cri.Spdy.Frame.{
  Headers, Frame, syn_stream, syn_reply, rst_stream, settings, ping, go_away, headers,
  window_update, data_frame,
}
use containerd_rs.Cri.Spdy.Codec.{
  NvCodec, read_entries, write_entries, control_header, parse_control, parse_header, parse_frame,
  write_headers, with_headers, frame_bytes,
}

-- The sizes that the fields of an entry and of a frame have in the program.
abbrev pub IsEntry : ℕ × ℕ → Type 0
IsEntry e = (e.0 < 2 ^ 24) × (e.1 < 2 ^ 32)

read_entries-write_entries :
    (es : List (ℕ × ℕ)) → All IsEntry es → read_entries (length es) (write_entries es) ≡ es
unfolding read_entries write_entries wr_u24 wr_u32
read_entries-write_entries [] h = refl
read_entries-write_entries ((id, value) ∷ es) (h, t) =
    ground (arith, read_entries-write_entries es t)

length-write_entries : (es : List (ℕ × ℕ)) → length (write_entries es) ≡ length es * 8
unfolding write_entries wr_u24 wr_u32
length-write_entries [] = refl
length-write_entries ((id, value) ∷ es) = omega (arith, length-write_entries es)

module _ (codec : NvCodec) where
  open codec use {
    Deflate, Inflate, compress_nv, decompress_nv, IsSendable, Synced, decompress-compress,
  }

  -- Stream ids and window deltas have 31 bits, other words 32, and headers can be compressed.
  abbrev pub IsFrame : Frame → Type 0
  IsFrame (syn_stream id flags hs) = (id < 2 ^ 31) × IsSendable hs
  IsFrame (syn_reply id flags hs) = (id < 2 ^ 31) × IsSendable hs
  IsFrame (rst_stream id status) = (id < 2 ^ 31) × (status < 2 ^ 32)
  IsFrame (settings es) = All IsEntry es
  IsFrame (ping id) = id < 2 ^ 32
  IsFrame (go_away id status) = (id < 2 ^ 31) × (status < 2 ^ 32)
  IsFrame (headers id flags hs) = (id < 2 ^ 31) × IsSendable hs
  IsFrame (window_update id delta) = (id < 2 ^ 31) × (delta < 2 ^ 31)
  IsFrame (data_frame id flags payload) = id < 2 ^ 31

  parse_frame-control :
      (d : Inflate) (ftype flags : ℕ) (body rest : Bytes)
      → ftype < 256
      → length body < 2 ^ 24
      → parse_frame codec d ((control_header ftype flags (length body) ++ body) ++ rest) ≡ (do
        (frame, d') ← parse_control codec d ftype flags body
        ok (some (frame, 8 + length body, d')))
  unfolding parse_frame parse_header control_header wr_u24
  parse_frame-control d ftype flags body rest h n =
      ground (arith, take-length_append body rest, length-append body rest)

  slice_from-body :
      (v : ℕ) (fixed block : Bytes)
      → slice_from (suc (suc (suc (suc (length fixed))))) (wr_u32 v ++ (fixed ++ block)) ≡ ok block
  unfolding slice_from wr_u32
  slice_from-body v fixed block =
      ground (arith, length-append fixed block, drop-length_append fixed block)

  -- The rest of a body behind its stream id.
  with_headers-body :
      (d d' : Inflate) (id skip : ℕ) (fixed block : Bytes) (hs : Headers)
      (frame : ℕ → Headers → Frame)
      → id < 2 ^ 31
      → suc (suc (suc (suc (length fixed)))) ≡ skip
      → decompress_nv d block ≡ ok (hs, d')
      → with_headers codec d skip (wr_u32 (low_31 id) ++ (fixed ++ block)) frame
        ≡ ok (frame id hs, d')
  unfolding with_headers
  with_headers-body d d' id skip fixed block hs frame h e r =
      ground
        (arith, rd_u32-wr_u32 (low_31 id) (fixed ++ block), slice_from-body (low_31 id) fixed block)

  -- What the round trip of one frame says, for the bytes `b` and the writer's state `e'` behind it.
  abbrev Reads : Inflate → Frame → Bytes → Bytes → Deflate → Type 0
  Reads d f b rest e' =
      (d' : Inflate) × (parse_frame codec d (b ++ rest) ≡ ok (some (f, length b, d')))
      × Synced e' d'

  -- A frame without headers leaves both codecs as they are.
  Reads-plain :
      (e : Deflate) (d : Inflate) (ftype flags : ℕ) (body rest : Bytes) (f : Frame)
      → Synced e d
      → ftype < 256
      → length body < 2 ^ 24
      → parse_control codec d ftype flags body ≡ ok (f, d)
      → Reads d f (control_header ftype flags (length body) ++ body) rest e
  unfolding control_header wr_u24
  Reads-plain e d ftype flags body rest f s t n p =
      (d, ground (arith, parse_frame-control d ftype flags body rest), s)

  -- A header-bearing frame: the block that was compressed is the one that is read.
  Reads-block :
      (e' : Deflate) (d d' : Inflate) (ftype id flags : ℕ) (fixed block rest : Bytes) (hs : Headers)
      (frame : ℕ → Headers → Frame)
      → ftype < 256
      → id < 2 ^ 31
      → decompress_nv d block ≡ ok (hs, d')
      → Synced e' d'
      → ((body : Bytes)
          → parse_control codec d ftype flags body
            ≡ with_headers codec d (suc (suc (suc (suc (length fixed))))) body frame)
      → length (wr_u32 (low_31 id) ++ (fixed ++ block)) < 2 ^ 24
      → Reads d
          (frame id hs)
          (control_header ftype flags (length (wr_u32 (low_31 id) ++ (fixed ++ block)))
            ++ (wr_u32 (low_31 id) ++ (fixed ++ block)))
          rest
          e'
  unfolding control_header wr_u24
  Reads-block e' d d' ftype id flags fixed block rest hs frame t i r s' p n =
      let body = wr_u32 (low_31 id) ++ (fixed ++ block) in
      (
        d',
        ground (
          arith,
          parse_frame-control d ftype flags body rest t n,
          p body,
          with_headers-body d d' id (suc (suc (suc (suc (length fixed))))) fixed block hs frame i
              refl r,
        ),
        s',
      )

  Reads-headers :
      (e e' : Deflate) (d : Inflate) (ftype id flags : ℕ) (fixed b rest : Bytes) (hs : Headers)
      (frame : ℕ → Headers → Frame)
      → Synced e d
      → ftype < 256
      → id < 2 ^ 31
      → IsSendable hs
      → ((body : Bytes)
          → parse_control codec d ftype flags body
            ≡ with_headers codec d (suc (suc (suc (suc (length fixed))))) body frame)
      → write_headers codec e ftype id flags fixed hs ≡ ok (b, e')
      → length b < 8 + 2 ^ 24
      → Reads d (frame id hs) b rest e'
  unfolding write_headers control_header wr_u24
  Reads-headers e e' d ftype id flags fixed b rest hs frame s t i v p w n =
      let ((block, e1), c, q) = bind-eq-ok (compress_nv e hs) _ w in
      let (d', r, s') = decompress-compress e d hs block e1 s v c in
      let eb : control_header ftype flags (length (wr_u32 (low_31 id) ++ (fixed ++ block)))
            ++ (wr_u32 (low_31 id) ++ (fixed ++ block))
          ≡ b =
        cc in
      let ee : e1 ≡ e' = cc in
      subst (λ x. Reads d (frame id hs) b rest x) ee
        (subst (λ x. Reads d (frame id hs) x rest e1) eb
          (Reads-block e1 d d' ftype id flags fixed block rest hs frame t i r s' p
            (omega (arith, ap length eb))))

  -- A DATA frame.
  Reads-data :
      (e : Deflate) (d : Inflate) (id flags : ℕ) (payload rest : Bytes)
      → Synced e d
      → id < 2 ^ 31
      → length payload < 2 ^ 24
      → Reads d
          (data_frame id flags payload)
          (wr_u32 (low_31 id) ++ (flags ∷ (wr_u24 (length payload) ++ payload)))
          rest
          e
  unfolding parse_frame parse_header wr_u32 wr_u24 rd_u32
  Reads-data e d id flags payload rest s i n =
      (d, ground (arith, take-length_append payload rest, length-append payload rest), s)

  parse_control-two :
      (d : Inflate) (id status : ℕ)
      → id < 2 ^ 31
      → status < 2 ^ 32
      → (parse_control codec d 3 0 (wr_u32 (low_31 id) ++ wr_u32 status)
          ≡ ok (rst_stream id status, d))
        × (parse_control codec d 7 0 (wr_u32 (low_31 id) ++ wr_u32 status)
            ≡ ok (go_away id status, d))
  unfolding parse_control wr_u32 rd_u32
  parse_control-two d id status i h = (ground arith, ground arith)

  parse_control-window :
      (d : Inflate) (id delta : ℕ)
      → id < 2 ^ 31
      → delta < 2 ^ 31
      → parse_control codec d 9 0 (wr_u32 (low_31 id) ++ wr_u32 (low_31 delta))
        ≡ ok (window_update id delta, d)
  unfolding parse_control wr_u32 rd_u32
  parse_control-window d id delta i h = ground arith

  parse_control-ping :
      (d : Inflate) (id : ℕ) → id < 2 ^ 32 → parse_control codec d 6 0 (wr_u32 id) ≡ ok (ping id, d)
  unfolding parse_control wr_u32 rd_u32
  parse_control-ping d id i = ground arith

  parse_control-settings :
      (d : Inflate) (es : List (ℕ × ℕ))
      → All IsEntry es
      → length es < 2 ^ 24
      → parse_control codec d 4 0 (wr_u32 (length es % 2 ^ 32) ++ write_entries es)
        ≡ ok (settings es, d)
  unfolding parse_control wr_u32 rd_u32
  parse_control-settings d es h n = ground (arith, read_entries-write_entries es h)

  length-settings :
      (es : List (ℕ × ℕ)) (n : ℕ) → length (wr_u32 n ++ write_entries es) ≡ 4 + length es * 8
  unfolding wr_u32
  length-settings es n = omega (arith, length-write_entries es)

  -- The same at the bytes and the state that the writer returned.
  Reads-returned :
      (e e' : Deflate) (d : Inflate) (f : Frame) (x b rest : Bytes)
      → ◌≡◌ {A = Result Fault (Bytes × Deflate)} (ok (x, e)) (ok (b, e'))
      → Reads d f x rest e
      → Reads d f b rest e'
  Reads-returned e e' d f x b rest w r =
      let eb : x ≡ b = cc in
      let ee : e ≡ e' = cc in
      subst (λ y. Reads d f b rest y) ee (subst (λ y. Reads d f y rest e) eb r)

  Reads-settings :
      (e e' : Deflate) (d : Inflate) (es : List (ℕ × ℕ)) (b rest : Bytes)
      → Synced e d
      → All IsEntry es
      → ◌≡◌ {A = Result Fault (Bytes × Deflate)}
          (ok (
            control_header 4 0 (4 + length es * 8)
                ++ (wr_u32 (length es % 2 ^ 32) ++ write_entries es),
            e,
          ))
          (ok (b, e'))
      → length b < 8 + 2 ^ 24
      → Reads d (settings es) b rest e'
  unfolding control_header wr_u24
  Reads-settings e e' d es b rest s v w n =
      let body = wr_u32 (length es % 2 ^ 32) ++ write_entries es in
      let eb : control_header 4 0 (4 + length es * 8) ++ body ≡ b = cc in
      let small : 4 + length es * 8 < 2 ^ 24 =
        omega (arith, ap length eb, length-settings es (length es % 2 ^ 32)) in
      Reads-returned e e' d (settings es) _ b rest w (
        subst (λ k. Reads d (settings es) (control_header 4 0 k ++ body) rest e)
          (length-settings es (length es % 2 ^ 32))
          (Reads-plain e d 4 0 body rest (settings es) s (omega arith)
            (omega (arith, length-settings es (length es % 2 ^ 32)))
            (parse_control-settings d es v (omega arith))))

  -- Every frame whose fields fit, written by a codec in step with the reader's and shorter than a
  -- frame can be, is parsed back with exactly its bytes taken, whatever follows it, and the two
  -- codecs are in step again.
  pub parse_frame-frame_bytes :
      (e e' : Deflate) (d : Inflate) (f : Frame) (b rest : Bytes)
      → Synced e d
      → IsFrame f
      → frame_bytes codec e f ≡ ok (b, e')
      → length b < 8 + 2 ^ 24
      → (d' : Inflate) × (parse_frame codec d (b ++ rest) ≡ ok (some (f, length b, d')))
        × Synced e' d'
  unfolding frame_bytes
  parse_frame-frame_bytes e e' d (syn_stream id flags hs) b rest s (i, v) w n =
      Reads-headers e e' d 1 id flags (wr_u32 0 ++ 0 ∷ 0 ∷ []) b rest hs
        (λ x h. syn_stream x flags h) s (omega arith) i v
        (unfold parse_control wr_u32 in λ body. refl) w n
  parse_frame-frame_bytes e e' d (syn_reply id flags hs) b rest s (i, v) w n =
      Reads-headers e e' d 2 id flags [] b rest hs (λ x h. syn_reply x flags h) s (omega arith) i v
        (unfold parse_control in λ body. refl) w n
  parse_frame-frame_bytes e e' d (headers id flags hs) b rest s (i, v) w n =
      Reads-headers e e' d 8 id flags [] b rest hs (λ x h. headers x flags h) s (omega arith) i v
        (unfold parse_control in λ body. refl) w n
  parse_frame-frame_bytes e e' d (rst_stream id status) b rest s (i, v) w n =
      Reads-returned e e' d (rst_stream id status) _ b rest w (
        unfold wr_u32 in
        Reads-plain e d 3 0 (wr_u32 (low_31 id) ++ wr_u32 status) rest (rst_stream id status) s
          (omega arith) (omega arith) (parse_control-two d id status i v).0)
  parse_frame-frame_bytes e e' d (settings es) b rest s v w n =
      Reads-settings e e' d es b rest s v w n
  parse_frame-frame_bytes e e' d (ping id) b rest s i w n =
      Reads-returned e e' d (ping id) _ b rest w (
        unfold wr_u32 in
        Reads-plain e d 6 0 (wr_u32 id) rest (ping id) s (omega arith) (omega arith)
          (parse_control-ping d id i))
  parse_frame-frame_bytes e e' d (go_away id status) b rest s (i, v) w n =
      Reads-returned e e' d (go_away id status) _ b rest w (
        unfold wr_u32 in
        Reads-plain e d 7 0 (wr_u32 (low_31 id) ++ wr_u32 status) rest (go_away id status) s
          (omega arith) (omega arith) (parse_control-two d id status i v).1)
  parse_frame-frame_bytes e e' d (window_update id delta) b rest s (i, v) w n =
      Reads-returned e e' d (window_update id delta) _ b rest w (
        unfold wr_u32 in
        Reads-plain e d 9 0 (wr_u32 (low_31 id) ++ wr_u32 (low_31 delta)) rest
          (window_update id delta) s (omega arith) (omega arith)
          (parse_control-window d id delta i v))
  parse_frame-frame_bytes e e' d (data_frame id flags payload) b rest s i w n =
      let eb : wr_u32 (low_31 id) ++ (flags ∷ (wr_u24 (length payload) ++ payload)) ≡ b = cc in
      Reads-returned e e' d (data_frame id flags payload) _ b rest w (
        Reads-data e d id flags payload rest s i
          (unfold wr_u32 wr_u24 in omega (arith, ap length eb)))
