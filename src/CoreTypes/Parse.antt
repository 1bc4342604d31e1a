-- ===== src/CoreTypes/Parse.antt =====
-- Parsing and printing digests (crates/core-types/src/lib.rs).
use containerd_rs.Base.{
  ℕ, suc, inl, inr, ◌↔◌, ◌≡◌, ◌≢◌, refl, ap, ◌∙◌, [], ◌∷◌, ◌++◌, map, Bytes, text, length, ok,
  Option, none, some, true, str_eq_iff, split_once, lower, All, arith, Option-cases,
}
use containerd_rs.CoreTypes.{
  is_lower_hex, IsHex, Digest, display, is_hex_digit, all, from_parts, from_split, from_str,
}

split_once-append :
    (c : ℕ) (a b : Bytes) → All (λ x. x ≢ c) a → split_once c (a ++ c ∷ b) ≡ some (a, b)
unfolding split_once
split_once-append c [] b h = ground arith
split_once-append c (x ∷ a) b (h, hs) = ground (arith, split_once-append c a b hs)

-- Only the text before the first `c` and the one after it are put together again.
split_once_sound : (c : ℕ) (s a b : Bytes) → split_once c s ≡ some (a, b) → s ≡ a ++ c ∷ b
unfolding split_once
split_once_sound c [] a b h = cc
split_once_sound c (x ∷ s) a b h = elim (Option-cases (split_once c s)) [
  | inl none' ↦ ground arith
  | inr ((a', b'), e) ↦ ground (arith, split_once_sound c s a' b' e)
]

map-lower_hex : (h : Bytes) → All (λ b. is_lower_hex b ≡ true) h → map lower h ≡ h
unfolding lower
map-lower_hex [] p = refl
map-lower_hex (b ∷ h) (p, ps) = ground (arith, map-lower_hex h ps)

all-hex_digit : (h : Bytes) → All (λ b. is_lower_hex b ≡ true) h → all is_hex_digit h ≡ true
unfolding all
all-hex_digit [] p = refl
all-hex_digit (b ∷ h) (p, ps) = ground (arith, all-hex_digit h ps)

lower-all-hex_digit :
    (h : Bytes) → all is_hex_digit h ≡ true → All (λ b. is_lower_hex b ≡ true) (map lower h)
unfolding all lower
lower-all-hex_digit [] p = tt
lower-all-hex_digit (b ∷ h) p = (ground arith, lower-all-hex_digit h (ground arith))

length-lower : (h : Bytes) → length (map lower h) ≡ length h
length-lower [] = refl
length-lower (b ∷ h) = ap suc (length-lower h)

-- The printed text of a well-formed digest is parsed back to the digest.
pub from_str-display : (d : Digest) → IsHex d.hex → from_str (display d) ≡ ok d
unfolding from_str display
from_str-display d (n, h) = ground (arith, all-hex_digit d.hex h, map-lower_hex d.hex h)

-- What a text that is accepted is made of, and the digest that it becomes.
pub record Accepts (s : Bytes) (d : Digest) : Type 0 where
  pub hex_part : Bytes
  pub splits : s ≡ text "sha256:" ++ hex_part
  pub has_length : length hex_part ≡ 64
  pub hex_digits : all is_hex_digit hex_part ≡ true
  pub lowered : d.hex ≡ map lower hex_part

from_parts-Accepts :
    (s algo h : Bytes) (d : Digest)
    → s ≡ algo ++ b':' ∷ h
    → from_parts s algo h ≡ ok d
    → Accepts s d
unfolding from_parts
from_parts-Accepts s algo h d e p = record {
  hex_part = h;
  splits = ground (arith, str_eq_iff algo (text "sha256"));
  has_length = ground arith;
  hex_digits = ground arith;
  lowered = ground arith;
}

from_split-Accepts :
    (s : Bytes) (o : Option (Bytes × Bytes)) (d : Digest)
    → split_once b':' s ≡ o
    → from_split s o ≡ ok d
    → Accepts s d
unfolding from_split
from_split-Accepts s none d e p = cc
from_split-Accepts s (some (algo, h)) d e p =
    from_parts-Accepts s algo h d (split_once_sound b':' s algo h e) p

-- An accepted text is `sha256:` and 64 hexadecimal digits, and the digest is those in lower case.
pub from_str-Accepts : (s : Bytes) (d : Digest) → from_str s ≡ ok d → Accepts s d
unfolding from_str
from_str-Accepts s d p = from_split-Accepts s (split_once b':' s) d refl p

-- Every parsed digest is well formed.
pub from_str-IsHex : (s : Bytes) (d : Digest) → from_str s ≡ ok d → IsHex d.hex
from_str-IsHex s d p =
    let a = from_str-Accepts s d p in
    rw a.lowered
      (length-lower a.hex_part ∙ a.has_length, lower-all-hex_digit a.hex_part a.hex_digits)

-- Conversely every such text is accepted.
pub Accepts-from_str : (s : Bytes) (d : Digest) → Accepts s d → from_str s ≡ ok d
unfolding from_str
Accepts-from_str s d a = rw a.splits (ground (arith, a.has_length, a.hex_digits, a.lowered))

-- A text is accepted as the digest `d` exactly when it is `sha256:` followed by 64 hexadecimal
-- digits that are `d`'s in lower case.
pub from_str_iff : (s : Bytes) (d : Digest) → (from_str s ≡ ok d) ↔ Accepts s d
from_str_iff s d = (from_str-Accepts s d, Accepts-from_str s d)
