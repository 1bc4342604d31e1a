-- ===== src/Cri/Spdy/Codec.antt =====
-- The frame codec of crates/cri/src/spdy.rs: `parse_frame` and `write_frame`.
-- The (de)compressor of header blocks is the interface `NvCodec`: zlib belongs to flate2.
pub mod RoundTrip
pub mod Prefix
use containerd_rs.Base.{
  ℕ, suc, ◌+◌, ◌*◌, ◌/◌, ◌%◌, ◌^◌, ◌≡◌, List, [], ◌∷◌, ◌++◌, Bytes, length, drop, take, Result, ok,
  ◌>>=◌, ltb, leb, ◌==◌, if◌then◌else◌, Option, none, some, Bool,
}
use containerd_rs.Cri.Spdy.Words.{Fault, rd_u32, wr_u32, wr_u24, slice_from, low_31}
use containerd_rs.Cri.Spdy.Frame.{
  Headers, Frame, syn_stream, syn_reply, rst_stream, settings, ping, go_away, headers,
  window_update, data_frame, type_syn_stream, type_syn_reply, type_rst_stream, type_settings,
  type_ping, type_goaway, type_headers, type_window_update, spdy_version,
}

-- The two directions of a header codec with their states. `Synced e d` says that `d` has read all
-- that `e` has written; then `d` reads back the next block, and the two stay in step.
pub record NvCodec : Type 1 where
  pub Deflate : Type 0
  pub Inflate : Type 0
  pub compress_nv : Deflate → Headers → Result Fault (Bytes × Deflate)
  pub decompress_nv : Inflate → Bytes → Result Fault (Headers × Inflate)
  pub IsSendable : Headers → Type 0
  pub Synced : Deflate → Inflate → Type 0
  pub decompress-compress :
      (e : Deflate) (d : Inflate) (hs : Headers) (b : Bytes) (e' : Deflate)
      → Synced e d
      → IsSendable hs
      → compress_nv e hs ≡ ok (b, e')
      → (d' : Inflate) × (decompress_nv d b ≡ ok (hs, d')) × Synced e' d'

-- The loop over SETTINGS entries, on the bytes from `off` on: it stops where 8 are not left.
unfoldable pub read_entries : ℕ → Bytes → List (ℕ × ℕ)
read_entries (suc n) (_ ∷ i0 ∷ i1 ∷ i2 ∷ v0 ∷ v1 ∷ v2 ∷ v3 ∷ rest) =
    (i0 * 2 ^ 16 + i1 * 2 ^ 8 + i2, ((v0 * 256 + v1) * 256 + v2) * 256 + v3) ∷ read_entries n rest
read_entries _ _ = []

unfoldable pub write_entries : List (ℕ × ℕ) → Bytes
write_entries [] = []
write_entries ((id, value) ∷ es) = 0 ∷ (wr_u24 id ++ (wr_u32 value ++ write_entries es))

-- The status of a GOAWAY, 0 where the body has none.
goaway_status : Bytes → Result Fault ℕ
goaway_status body = if leb 8 (length body) then rd_u32 (drop 4 body) else ok 0

-- `buf[0] & 0x80 != 0`
abbrev pub is_control : ℕ → Bool
is_control b0 = b0 / 128 % 2 == 1

unfoldable pub control_header : ℕ → ℕ → ℕ → Bytes
control_header ftype flags len =
    128 ∷ spdy_version ∷ (ftype / 256 % 256) ∷ (ftype % 256) ∷ flags ∷ wr_u24 len

module _ (codec : NvCodec) where
  open codec use {Deflate, Inflate, compress_nv, decompress_nv}

  -- The three frames that carry headers, behind `skip` bytes of the body.
  with_headers : Inflate → ℕ → Bytes → (ℕ → Headers → Frame) → Result Fault (Frame × Inflate)
  with_headers nv skip body frame = do
    id ← rd_u32 body
    block ← slice_from skip body
    (hs, nv') ← decompress_nv nv block
    ok (frame (low_31 id) hs, nv')

  -- The `match ftype` on a complete body.
  unfoldable pub parse_control : Inflate → ℕ → ℕ → Bytes → Result Fault (Frame × Inflate)
  unfolding with_headers goaway_status
  parse_control nv ftype flags body =
      if ftype == type_syn_stream
      then with_headers nv 10 body (λ id hs. syn_stream id flags hs)
      else if ftype == type_syn_reply
      then with_headers nv 4 body (λ id hs. syn_reply id flags hs)
      else if ftype == type_headers
      then with_headers nv 4 body (λ id hs. headers id flags hs)
      else if ftype == type_rst_stream
      then (do
        id ← rd_u32 body
        status ← rd_u32 (drop 4 body)
        ok (rst_stream (low_31 id) status, nv))
      else if ftype == type_settings
      then (do n ← rd_u32 body; ok (settings (read_entries n (drop 4 body)), nv))
      else if ftype == type_ping
      then (do id ← rd_u32 body; ok (ping id, nv))
      else if ftype == type_goaway
      then (do id ← rd_u32 body; status ← goaway_status body; ok (go_away (low_31 id) status, nv))
      else if ftype == type_window_update
      then (do
        id ← rd_u32 body
        delta ← rd_u32 (drop 4 body)
        ok (window_update (low_31 id) (low_31 delta), nv))
      else ok (settings [], nv)

  -- A frame, the number of bytes that it took, and the codec behind it; `none` asks for more bytes.
  abbrev pub Parsed : Type 0
  Parsed = Result Fault (Option (Frame × ℕ × Inflate))

  -- `parse_frame` on the eight header bytes and what is behind them.
  parse_header : Inflate → (b0 b1 b2 b3 b4 length : ℕ) → Bytes → Parsed
  parse_header nv b0 b1 b2 b3 b4 len rest =
      if ltb (length rest) len
      then ok none
      else if is_control b0
      then (do
        (frame, nv') ← parse_control nv (b2 * 256 + b3) b4 (take len rest)
        ok (some (frame, 8 + len, nv')))
      else (do
        id ← rd_u32 (b0 ∷ b1 ∷ b2 ∷ b3 ∷ [])
        ok (some (data_frame (low_31 id) b4 (take len rest), 8 + len, nv)))

  unfoldable pub parse_frame : Inflate → Bytes → Parsed
  unfolding parse_header
  parse_frame nv (b0 ∷ b1 ∷ b2 ∷ b3 ∷ b4 ∷ l0 ∷ l1 ∷ l2 ∷ rest) =
      parse_header nv b0 b1 b2 b3 b4 (l0 * 2 ^ 16 + l1 * 2 ^ 8 + l2) rest
  parse_frame nv _ = ok none

  -- A header-bearing frame: `fixed` stands between the stream id and the compressed block.
  write_headers : Deflate → ℕ → ℕ → ℕ → Bytes → Headers → Result Fault (Bytes × Deflate)
  write_headers nv ftype id flags fixed hs = do
    (block, nv') ← compress_nv nv hs
    let body = wr_u32 (low_31 id) ++ (fixed ++ block)
    ok (control_header ftype flags (length body) ++ body, nv')

  -- What `write_frame` appends to `out`.
  unfoldable pub frame_bytes : Deflate → Frame → Result Fault (Bytes × Deflate)
  unfolding write_headers control_header
  frame_bytes nv (syn_reply id flags hs) = write_headers nv type_syn_reply id flags [] hs
  frame_bytes nv (syn_stream id flags hs) =
      write_headers nv type_syn_stream id flags (wr_u32 0 ++ 0 ∷ 0 ∷ []) hs
  frame_bytes nv (rst_stream id status) =
      ok (control_header type_rst_stream 0 8 ++ (wr_u32 (low_31 id) ++ wr_u32 status), nv)
  frame_bytes nv (settings es) = ok (
    control_header type_settings 0 (4 + length es * 8)
        ++ (wr_u32 (length es % 2 ^ 32) ++ write_entries es),
    nv,
  )
  frame_bytes nv (ping id) = ok (control_header type_ping 0 4 ++ wr_u32 id, nv)
  frame_bytes nv (go_away id status) =
      ok (control_header type_goaway 0 8 ++ (wr_u32 (low_31 id) ++ wr_u32 status), nv)
  frame_bytes nv (headers id flags hs) = write_headers nv type_headers id flags [] hs
  frame_bytes nv (window_update id delta) =
      ok
        (control_header type_window_update 0 8 ++ (wr_u32 (low_31 id) ++ wr_u32 (low_31 delta)), nv)
  frame_bytes nv (data_frame id flags payload) =
      ok (wr_u32 (low_31 id) ++ (flags ∷ (wr_u24 (length payload) ++ payload)), nv)

  unfoldable pub write_frame : Bytes → Frame → Deflate → Result Fault (Bytes × Deflate)
  unfolding frame_bytes
  write_frame out frame nv = do (b, nv') ← frame_bytes nv frame; ok (out ++ b, nv')
