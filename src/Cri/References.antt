-- ===== src/Cri/References.antt =====
-- crates/cri/src/server.rs: image references, their repository names and their normal form.
pub mod Normal
use containerd_rs.Base.{
  ℕ, suc, ◌+◌, [], ◌∷◌, ◌++◌, Bytes, text, drop, take, Bool, false, not, ◌||◌, Option, none, some,
  ◌==◌, if◌then◌else◌, str_eq,
}

-- `s.rfind(c)`: the place of the last `c`.
unfoldable pub rfind : ℕ → Bytes → Option ℕ
rfind c [] = none
rfind c (x ∷ xs) = elim (rfind c xs) [
  | none ↦ if x == c then some 0 else none
  | some i ↦ some (suc i)
]

abbrev pub behind : Option ℕ → ℕ
behind none = 0
behind (some i) = i + 1

abbrev pub cut_tag : Bytes → ℕ → Option ℕ → Bytes
cut_tag reference seg_start none = reference
cut_tag reference seg_start (some rel) = take (seg_start + rel) reference

-- `repo_name`
unfoldable pub repo_name : Bytes → Bytes
unfolding rfind
repo_name reference =
    let seg_start = behind (rfind b'/' reference) in
    cut_tag reference seg_start (rfind b':' (drop seg_start reference))

-- `is_digest_ref`
unfoldable pub is_digest_ref : Bytes → Bool
is_digest_ref [] = false
is_digest_ref (c ∷ cs) = c == b'@' || is_digest_ref cs

-- `normalize_image_ref`
unfoldable pub normalize_image_ref : Bytes → Bytes
unfolding is_digest_ref repo_name
normalize_image_ref reference =
    if is_digest_ref reference || not (str_eq (repo_name reference) reference)
    then reference
    else reference ++ text ":latest"
