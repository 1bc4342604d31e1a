-- ===== src/Cri/References/Normal.antt =====
-- crates/cri/src/server.rs: normalising an image reference.
use containerd_rs.Base.{
  ℕ, zero, suc, ◌+◌, ◌≤◌, ◌≡◌, ◌≢◌, refl, sym, ap, ◌∙◌, [], ◌∷◌, ◌++◌, Bytes, text, length, drop,
  Bool, true, false, not, ◌||◌, Option, none, some, ◌==◌, if◌then◌else◌, str_eq, str_eq_ne,
  str_eq_iff, arith, Bool-cases, inl, inr, length-append, take-length_append,
}
use containerd_rs.Cri.References.{rfind, behind, repo_name, is_digest_ref, normalize_image_ref}

rfind-tag : (s : Bytes) → rfind b':' (s ++ text ":latest") ≡ some (length s)
unfolding rfind
rfind-tag [] = refl
rfind-tag (x ∷ s) = rw (rfind-tag s) refl

rfind-slash : (s : Bytes) → rfind b'/' (s ++ text ":latest") ≡ rfind b'/' s
unfolding rfind
rfind-slash [] = refl
rfind-slash (x ∷ s) = rw (rfind-slash s) refl

behind_le : (s : Bytes) → behind (rfind b'/' s) ≤ length s
unfolding rfind
behind_le [] = omega arith
behind_le (x ∷ s) = bound (rfind b'/' s) (behind_le s)
  where
    bound :
        (o : Option ℕ)
        → behind o ≤ length s
        → behind (elim o [ none ↦ if x == b'/' then some 0 else none | some i ↦ some (suc i) ])
          ≤ suc (length s)
    bound none h = ground arith
    bound (some i) h = omega (arith, h)

drop-append : (n : ℕ) (s t : Bytes) → n ≤ length s → drop n (s ++ t) ≡ drop n s ++ t
drop-append zero s t h = refl
drop-append (suc n) [] t h = absurd (omega arith)
drop-append (suc n) (x ∷ s) t h = drop-append n s t (omega arith)

length-drop_add : (n : ℕ) (s : Bytes) → n ≤ length s → n + length (drop n s) ≡ length s
length-drop_add zero s h = omega arith
length-drop_add (suc n) [] h = absurd (omega arith)
length-drop_add (suc n) (x ∷ s) h =
    let rest = length-drop_add n s (omega arith) in omega (arith, rest)

-- A reference with the tag behind it has the reference itself as its repository name.
repo_name-tag : (s : Bytes) → repo_name (s ++ text ":latest") ≡ s
unfolding repo_name
repo_name-tag s =
    let n = behind (rfind b'/' s) in
    rw
      (
        rfind-slash s,
        drop-append n s (text ":latest") (behind_le s),
        rfind-tag (drop n s),
        length-drop_add n s (behind_le s),
      )
      (take-length_append s (text ":latest"))

tag_ne : (s : Bytes) → s ≢ s ++ text ":latest"
tag_ne s e =
    absurd (let same = ap length e ∙ length-append s (text ":latest") in omega (arith, same))

abbrev has_tag : Bytes → Bool
has_tag s = is_digest_ref s || not (str_eq (repo_name s) s)

normalize_tagged : (s : Bytes) → has_tag s ≡ true → normalize_image_ref s ≡ s
unfolding normalize_image_ref
normalize_tagged s h = ground (arith, h)

normalize_bare : (s : Bytes) → has_tag s ≡ false → normalize_image_ref s ≡ s ++ text ":latest"
unfolding normalize_image_ref
normalize_bare s h = ground (arith, h)

bare-repo_name : (s : Bytes) → has_tag s ≡ false → repo_name s ≡ s
bare-repo_name s h = ground (arith, h, str_eq_iff (repo_name s) s)

has_tag-append : (s : Bytes) → has_tag (s ++ text ":latest") ≡ true
has_tag-append s =
    let t = s ++ text ":latest" in
    ground (
      arith,
      repo_name-tag s,
      str_eq_ne (repo_name t) t (λ e. tag_ne s (sym (repo_name-tag s) ∙ e)),
    )

-- Normalising a reference again changes nothing, and the normal form, where a bare name has got the
-- tag `latest`, has the repository name that the reference has.
pub normalize_image_ref_lem :
    (s : Bytes)
    → (normalize_image_ref (normalize_image_ref s) ≡ normalize_image_ref s)
      × (repo_name (normalize_image_ref s) ≡ repo_name s)
normalize_image_ref_lem s = elim (Bool-cases (has_tag s)) [
  | inl e ↦ rw (normalize_tagged s e, normalize_tagged s e) (refl, refl)
  | inr e ↦
      rw (normalize_bare s e, normalize_tagged (s ++ text ":latest") (has_tag-append s))
        (refl, repo_name-tag s ∙ sym (bare-repo_name s e))
]
