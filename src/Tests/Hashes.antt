-- ===== src/Tests/Hashes.antt =====
-- A toy hash that meets the interface `Sha256`, and digests of it.
use containerd_rs.Base.{
  ℕ, zero, suc, ◌+◌, ◌%◌, ◌≡◌, ◌↔◌, refl, ap, [], ◌∷◌, ◌++◌, Bytes, length, All, ok, arith, true,
}
use containerd_rs.CoreTypes.{Sha256, Digest, is_lower_hex, IsHex, display, from_str}
use containerd_rs.CoreTypes.Parse.{from_str-display, Accepts, from_str_iff}

sum : Bytes → ℕ
sum [] = 0
sum (b ∷ bs) = b + sum bs

sum-append : (a b : Bytes) → sum (a ++ b) ≡ sum a + sum b
unfolding sum
sum-append [] b = omega arith
sum-append (x ∷ a) b = omega (arith, sum-append a b)

-- `n` times the last decimal digit of `h`.
digits : ℕ → ℕ → Bytes
digits zero h = []
digits (suc n) h = (b'0' + h % 10) ∷ digits n h

length-digits : (n h : ℕ) → length (digits n h) ≡ n
unfolding digits
length-digits zero h = refl
length-digits (suc n) h = ap suc (length-digits n h)

digits-All : (n h : ℕ) → All (λ b. is_lower_hex b ≡ true) (digits n h)
unfolding digits
digits-All zero h = tt
digits-All (suc n) h = (ground arith, digits-All n h)

unfoldable pub toy_update : ℕ → Bytes → ℕ
unfolding sum
toy_update h a = h + sum a

pub toy_update-nil : (h : ℕ) → toy_update h [] ≡ h
unfolding toy_update
toy_update-nil h = omega arith

pub toy_update-append :
    (h : ℕ) (a b : Bytes) → toy_update (toy_update h a) b ≡ toy_update h (a ++ b)
unfolding toy_update
toy_update-append h a b = omega (arith, sum-append a b)

unfoldable pub toy_finalize : ℕ → Bytes
unfolding digits
toy_finalize h = digits 64 h

pub toy_finalize-IsHex : (h : ℕ) → IsHex (toy_finalize h)
unfolding toy_finalize
toy_finalize-IsHex h = (length-digits 64 h, digits-All 64 h)

abbrev pub toy_sha : Sha256
toy_sha = record {
  Hasher = ℕ;
  new = 0;
  update = toy_update;
  finalize = toy_finalize;
  update-nil = toy_update-nil;
  update-append = toy_update-append;
  finalize-IsHex = toy_finalize-IsHex;
}

abbrev pub sevens : Digest
sevens = record { hex = toy_finalize 7 }

pub sevens_parsed : from_str (display sevens) ≡ ok sevens
sevens_parsed = from_str-display sevens (toy_finalize-IsHex 7)

from_str_iff_example : (from_str (display sevens) ≡ ok sevens) ↔ Accepts (display sevens) sevens
from_str_iff_example = from_str_iff (display sevens) sevens
