-- ===== src/Cri/Spdy/Words.antt =====
-- Big-endian words of crates/cri/src/spdy.rs (`rd_u32`, `rd_u24`, `wr_u32`, `wr_u24`), and slices.
-- A slice out of range panics in Rust: a reader returns `panic` where too few bytes are left.
use containerd_rs.Base.{
  ℕ, ◌+◌, ◌*◌, ◌/◌, ◌%◌, ◌^◌, ◌≤◌, ◌<◌, ◌≡◌, refl, [], ◌∷◌, ◌++◌, Bytes, length, drop, Result, ok,
  err, arith, leb, if◌then◌else◌, String,
}

-- What ends a call other than by its value: an `io::Error` with its message, or a panic.
pub data Fault : Type 0 where
  io_error : String → Fault
  panic : Fault

-- `rd_u32(&b[..4])`
unfoldable pub rd_u32 : Bytes → Result Fault ℕ
rd_u32 (b0 ∷ b1 ∷ b2 ∷ b3 ∷ _) = ok (((b0 * 256 + b1) * 256 + b2) * 256 + b3)
rd_u32 _ = err panic

-- `rd_u24(&b[..3])`: the three bytes do not overlap, so `|` is a sum.
unfoldable pub rd_u24 : Bytes → Result Fault ℕ
rd_u24 (b0 ∷ b1 ∷ b2 ∷ _) = ok (b0 * 2 ^ 16 + b1 * 2 ^ 8 + b2)
rd_u24 _ = err panic

unfoldable pub wr_u32 : ℕ → Bytes
wr_u32 v = (v / 2 ^ 24 % 256) ∷ (v / 2 ^ 16 % 256) ∷ (v / 2 ^ 8 % 256) ∷ (v % 256) ∷ []

unfoldable pub wr_u24 : ℕ → Bytes
wr_u24 v = (v / 2 ^ 16 % 256) ∷ (v / 2 ^ 8 % 256) ∷ (v % 256) ∷ []

-- `&b[n..]`
unfoldable pub slice_from : ℕ → Bytes → Result Fault Bytes
slice_from n b = if leb n (length b) then ok (drop n b) else err panic

-- `v & 0x7fff_ffff` of a u32.
abbrev pub low_31 : ℕ → ℕ
low_31 v = v % 2 ^ 31

pub rd_u32-wr_u32 : (v : ℕ) (rest : Bytes) → v < 2 ^ 32 → rd_u32 (wr_u32 v ++ rest) ≡ ok v
unfolding rd_u32 wr_u32
rd_u32-wr_u32 v rest h = ground arith

pub rd_u24-wr_u24 : (v : ℕ) (rest : Bytes) → v < 2 ^ 24 → rd_u24 (wr_u24 v ++ rest) ≡ ok v
unfolding rd_u24 wr_u24
rd_u24-wr_u24 v rest h = ground arith

-- Bytes behind a complete word do not change what is read.
pub rd_u32-append : (b more : Bytes) → 4 ≤ length b → rd_u32 (b ++ more) ≡ rd_u32 b
unfolding rd_u32
rd_u32-append (b0 ∷ b1 ∷ b2 ∷ b3 ∷ b) more h = refl
rd_u32-append [] more h = absurd (omega arith)
rd_u32-append (_ ∷ []) more h = absurd (omega arith)
rd_u32-append (_ ∷ _ ∷ []) more h = absurd (omega arith)
rd_u32-append (_ ∷ _ ∷ _ ∷ []) more h = absurd (omega arith)

pub rd_u32_short : (b : Bytes) → length b < 4 → rd_u32 b ≡ err panic
unfolding rd_u32
rd_u32_short [] h = refl
rd_u32_short (_ ∷ []) h = refl
rd_u32_short (_ ∷ _ ∷ []) h = refl
rd_u32_short (_ ∷ _ ∷ _ ∷ []) h = refl
rd_u32_short (b0 ∷ b1 ∷ b2 ∷ b3 ∷ b) h = absurd (omega arith)
