-- ===== src/CoreTypes.antt =====
-- crates/core-types/src/lib.rs: digests and the types that the other crates share.
-- SHA-256 and the hex encoding of its result belong to other crates: the interface `Sha256`.
pub mod Parse
use containerd_rs.Base.{
  ℕ, ◌≡◌, List, [], ◌∷◌, ◌++◌, map, Bytes, text, length, Result, ok, err, Option, none, some, Bool,
  true, ◌&&◌, ◌||◌, leb, ◌==◌, if◌then◌else◌, str_eq, split_once, lower, All, ◌≤◌,
}

-- A lower-case hexadecimal digit.
abbrev pub is_lower_hex : ℕ → Bool
is_lower_hex b = leb b'0' b && leb b b'9' || leb b'a' b && leb b b'f'

abbrev pub IsHex : Bytes → Type 0
IsHex h = (length h ≡ 64) × All (λ b. is_lower_hex b ≡ true) h

-- What the program uses of the `sha2` and `hex` crates: hashing in pieces is hashing the whole, and
-- the hex text of a hash has 64 lower-case digits. `finalize` is `hex::encode(h.finalize())`.
pub record Sha256 : Type 1 where
  pub Hasher : Type 0
  pub new : Hasher
  pub update : Hasher → Bytes → Hasher
  pub finalize : Hasher → Bytes
  pub update-nil : (h : Hasher) → update h [] ≡ h
  pub update-append : (h : Hasher) (a b : Bytes) → update (update h a) b ≡ update h (a ++ b)
  pub finalize-IsHex : (h : Hasher) → IsHex (finalize h)

pub record Digest : Type 0 where
  pub hex : Bytes

-- `enum Error`
pub data Error : Type 0 where
  invalid_digest : Bytes → Error
  unsupported_algorithm : Bytes → Error
  digest_length : ℕ → ℕ → Error
  digest_mismatch : Digest → Digest → Error
  size_mismatch : ℕ → ℕ → Error

-- `Digest::sha256`
unfoldable pub sha256 : Sha256 → Bytes → Digest
sha256 h bytes = record { hex = h.finalize (h.update h.new bytes) }

-- `Digest::algorithm`
abbrev pub algorithm : Bytes
algorithm = text "sha256"

-- `Digest::blob_path`
unfoldable pub blob_path : Digest → Bytes
blob_path d = text "sha256/" ++ d.hex

-- `impl Display`
unfoldable pub display : Digest → Bytes
display d = text "sha256:" ++ d.hex

-- `u8::is_ascii_hexdigit`
abbrev pub is_hex_digit : ℕ → Bool
is_hex_digit b = leb b'0' b && leb b b'9' || leb b'a' b && leb b b'f' || leb b'A' b && leb b b'F'

unfoldable pub all : (ℕ → Bool) → Bytes → Bool
all p [] = true
all p (b ∷ bs) = p b && all p bs

-- The tests on the part behind the colon.
from_parts : Bytes → Bytes → Bytes → Result Error Digest
from_parts s algo hex =
    if str_eq algo algorithm
    then if length hex == 64
      then if all is_hex_digit hex
        then ok (record { hex = map lower hex })
        else err (invalid_digest s)
      else err (digest_length 64 (length hex))
    else err (unsupported_algorithm algo)

from_split : Bytes → Option (Bytes × Bytes) → Result Error Digest
from_split s none = err (invalid_digest s)
from_split s (some (algo, hex)) = from_parts s algo hex

-- `impl FromStr`
unfoldable pub from_str : Bytes → Result Error Digest
unfolding from_split from_parts all str_eq split_once lower
from_str s = from_split s (split_once b':' s)

-- `struct Descriptor`
pub record Descriptor : Type 0 where
  pub media_type : Bytes
  pub digest : Digest
  pub size : ℕ

-- `struct Mount`
pub record Mount : Type 0 where
  pub mount_type : Bytes
  pub source : Bytes
  pub options : List Bytes

-- `struct Namespace`, with its constants; `cri_namespace` is `Namespace::cri`, `default_namespace`
-- `Namespace::default`.
pub record Namespace : Type 0 where
  pub as_str : Bytes

abbrev pub cri_namespace : Namespace
cri_namespace = record { as_str = text "k8s.io" }

abbrev pub default_namespace : Namespace
default_namespace = record { as_str = text "default" }
