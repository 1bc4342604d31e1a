-- ===== src/Cri/Spdy/Nv.antt =====
-- The plaintext name/value block of crates/cri/src/spdy.rs: `write_nv_block`, `read_nv_block` and
-- the header lookup. `String::from_utf8_lossy` is the standard library's: the parameter `lossy`.
use containerd_rs.Base.{
  ℕ, zero, suc, ◌^◌, ◌%◌, ◌<◌, ◌≡◌, refl, [], ◌∷◌, ◌++◌, Bytes, length, drop, take, Result, ok, err,
  ◌>>=◌, arith, ltb, if◌then◌else◌, Option, none, some, Bool, true, false, ◌&&◌, ◌==◌, lower,
  append_assoc, append-nil, length-append, take-length_append, drop-length_append, All,
}
use containerd_rs.Cri.Spdy.Words.{Fault, io_error, rd_u32, wr_u32}
use containerd_rs.Cri.Spdy.Frame.{Headers}

-- `n as u32`
abbrev as_u32 : ℕ → ℕ
as_u32 n = n % 2 ^ 32

write_text : Bytes → Bytes
write_text s = wr_u32 (as_u32 (length s)) ++ s

write_pairs : Headers → Bytes
write_pairs [] = []
write_pairs ((k, v) ∷ hs) = write_text k ++ (write_text v ++ write_pairs hs)

unfoldable pub write_nv_block : Headers → Bytes
unfolding write_pairs write_text wr_u32
write_nv_block hs = wr_u32 (as_u32 (length hs)) ++ write_pairs hs

-- `k.eq_ignore_ascii_case(name)`
eq_ignore_ascii_case : Bytes → Bytes → Bool
eq_ignore_ascii_case [] [] = true
eq_ignore_ascii_case (x ∷ xs) (y ∷ ys) = lower x == lower y && eq_ignore_ascii_case xs ys
eq_ignore_ascii_case _ _ = false

unfoldable pub header : Headers → Bytes → Option Bytes
unfolding eq_ignore_ascii_case lower
header [] name = none
header ((k, v) ∷ hs) name = if eq_ignore_ascii_case k name then some v else header hs name

module _ (lossy : Bytes → Bytes) where
  -- `n` bytes of `rest` as a text, and what is behind them.
  cut_text : ℕ → Bytes → Result Fault (Bytes × Bytes)
  cut_text n rest =
      if ltb (length rest) n
      then err (io_error "spdy nv: truncated value")
      else ok (lossy (take n rest), drop n rest)

  -- The closure `take`: the bytes from `off` on are the argument, and those left are returned.
  take_text : Bytes → Result Fault (Bytes × Bytes)
  take_text b =
      if ltb (length b) 4
      then err (io_error "spdy nv: truncated length")
      else (do n ← rd_u32 b; cut_text n (drop 4 b))

  read_pairs : ℕ → Bytes → Result Fault Headers
  read_pairs zero b = ok []
  read_pairs (suc count) b = do
    (name, b') ← take_text b
    (value, b'') ← take_text b'
    pairs ← read_pairs count b''
    ok ((name, value) ∷ pairs)

  unfoldable pub read_nv_block : Bytes → Result Fault Headers
  unfolding read_pairs take_text cut_text rd_u32
  read_nv_block b =
      if ltb (length b) 4 then ok [] else (do count ← rd_u32 b; read_pairs count (drop 4 b))

module _ (lossy : Bytes → Bytes) where
  -- A text that the block can carry: `lossy` keeps it, and its length fits a u32.
  abbrev pub IsText : Bytes → Type 0
  IsText s = (lossy s ≡ s) × (length s < 2 ^ 32)

  abbrev pub IsPair : Bytes × Bytes → Type 0
  IsPair p = IsText p.0 × IsText p.1

  cut_text-append :
      (s rest : Bytes) → lossy s ≡ s → cut_text lossy (length s) (s ++ rest) ≡ ok (s, rest)
  unfolding cut_text
  cut_text-append s rest h =
      ground (arith, length-append s rest, take-length_append s rest, drop-length_append s rest)

  take_text-write_text :
      (s rest : Bytes) → IsText s → take_text lossy (write_text s ++ rest) ≡ ok (s, rest)
  unfolding take_text write_text wr_u32 rd_u32
  take_text-write_text s rest h = ground (arith, cut_text-append s rest h.0)

  read_pairs-write_pairs :
      (hs : Headers) (rest : Bytes)
      → All IsPair hs
      → read_pairs lossy (length hs) (write_pairs hs ++ rest) ≡ ok hs
  unfolding read_pairs write_pairs
  read_pairs-write_pairs [] rest h = refl
  read_pairs-write_pairs ((k, v) ∷ hs) rest (h, t) = simp (
    append_assoc,
    take_text-write_text k (write_text v ++ (write_pairs hs ++ rest)) h.0,
    take_text-write_text v (write_pairs hs ++ rest) h.1,
    read_pairs-write_pairs hs rest t,
  )

  -- `read_nv_block` returns the pairs that `write_nv_block` was given.
  pub read_nv_block-write_nv_block :
      (hs : Headers)
      → length hs < 2 ^ 32
      → All IsPair hs
      → read_nv_block lossy (write_nv_block hs) ≡ ok hs
  unfolding read_nv_block write_nv_block wr_u32 rd_u32
  read_nv_block-write_nv_block hs n h =
      ground (arith, append-nil (write_pairs hs), read_pairs-write_pairs hs [] h)
