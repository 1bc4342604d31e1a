-- ===== src/Images/Identity/Platforms.antt =====
-- crates/images/src/identity.rs: which manifest a node accepts.
use containerd_rs.Base.{
  ◌≡◌, refl, List, [], ◌∷◌, Bytes, true, false, Option, none, some, str_eq_iff, str_eq_refl, arith,
  ◌↔◌, subst, Bool-cases, inl, inr, ap, sym, ◌∙◌, text, str_eq, if_true, if_false,
}
use containerd_rs.Images.Identity.{
  Platform, canonical_variant, variants_match, matches, select_manifest,
}

variants_match_comm : (a b : Option Bytes) → variants_match a b ≡ variants_match b a
unfolding variants_match
variants_match_comm none none = refl
variants_match_comm none (some b) = refl
variants_match_comm (some a) none = refl
variants_match_comm (some a) (some b) = ground (arith, str_eq_iff a b, str_eq_iff b a)

variants_match_refl : (a : Option Bytes) → variants_match a a ≡ true
unfolding variants_match
variants_match_refl none = refl
variants_match_refl (some a) = str_eq_refl a

-- Accepting is reflexive and symmetric: a node accepts the images of its own platform, and the node
-- and the candidate may be exchanged.
pub matches_lem : (p q : Platform) → (matches p p ≡ true) × (matches p q ≡ matches q p)
unfolding matches
matches_lem p q = (
  ground (
    arith,
    str_eq_refl p.os,
    str_eq_refl p.architecture,
    variants_match_refl (canonical_variant p.architecture p.variant),
  ),
  ground (
    arith,
    str_eq_iff p.os q.os,
    str_eq_iff q.os p.os,
    str_eq_iff p.architecture q.architecture,
    str_eq_iff q.architecture p.architecture,
    variants_match_comm (canonical_variant p.architecture p.variant)
        (canonical_variant q.architecture q.variant),
  ),
)

some_injective {ℓ} : {T : Type ℓ} (t u : T) → some t ≡ some u → t ≡ u
some_injective t u h = cc

-- Without a variant of its own, an arm64 stands for v8.
abbrev pub IsVariant : Bytes → Option Bytes → Bytes → Type 0
IsVariant arch none x = (arch ≡ text "arm64") × (x ≡ text "v8")
IsVariant arch (some v) x = v ≡ x

-- A node accepts a platform of its own system and architecture with no other variant than its own.
abbrev pub Accepts : Platform → Platform → Type 0
Accepts p q =
    (p.os ≡ q.os)
    × (p.architecture ≡ q.architecture)
    × ((x y : Bytes)
        → IsVariant p.architecture p.variant x
        → IsVariant q.architecture q.variant y
        → x ≡ y)

canonical_variant-IsVariant :
    (arch : Bytes) (v : Option Bytes) (x : Bytes)
    → (canonical_variant arch v ≡ some x) ↔ IsVariant arch v x
unfolding canonical_variant
canonical_variant-IsVariant arch (some v) x = (some_injective v x, λ e. ap some e)
canonical_variant-IsVariant arch none x = elim (Bool-cases (str_eq arch (text "arm64"))) [
  | inl e ↦ (
    λ h. (
      (str_eq_iff arch (text "arm64")).0 e,
      sym (some_injective _ _ (sym (if_true _ _ (str_eq arch (text "arm64")) e) ∙ h)),
    ),
    λ k. if_true _ _ (str_eq arch (text "arm64")) e ∙ ap some (sym k.1),
  )
  | inr e ↦ (
    λ h. absurd (let k = sym (if_false _ _ (str_eq arch (text "arm64")) e) ∙ h in cc),
    λ k. absurd (let l = (str_eq_iff arch (text "arm64")).1 k.0 in cc),
  )
]

variants_match_iff :
    (a b : Option Bytes)
    → (variants_match a b ≡ true) ↔ ((x y : Bytes) → a ≡ some x → b ≡ some y → x ≡ y)
unfolding variants_match
variants_match_iff none b = (λ h x y e e'. cc, λ k. refl)
variants_match_iff (some a) none = (λ h x y e e'. cc, λ k. refl)
variants_match_iff (some a) (some b) =
    (λ h x y e e'. let same = (str_eq_iff a b).0 h in cc, λ k. (str_eq_iff a b).1 (k a b refl refl))

matches-split :
    (p q : Platform)
    → (matches p q ≡ true) ↔ (
        (str_eq p.os q.os ≡ true)
        × (str_eq p.architecture q.architecture ≡ true)
        × (variants_match
              (canonical_variant p.architecture p.variant)
              (canonical_variant q.architecture q.variant)
            ≡ true))
unfolding matches
matches-split p q = (λ h. (ground arith, ground arith, ground arith), λ h. ground arith)

-- `Platform::matches` is this.
pub matches-Accepts : (p q : Platform) → (matches p q ≡ true) ↔ Accepts p q
matches-Accepts p q =
    let fits =
      variants_match_iff (canonical_variant p.architecture p.variant)
        (canonical_variant q.architecture q.variant) in
    let split = matches-split p q in
    (
      λ h.
          let (os, arch, variant) = split.0 h in
          (
            (str_eq_iff p.os q.os).0 os,
            (str_eq_iff p.architecture q.architecture).0 arch,
            λ x y i j.
                fits.0 variant x y ((canonical_variant-IsVariant _ _ x).1 i)
                  ((canonical_variant-IsVariant _ _ y).1 j),
          ),
      λ (os, arch, variant). split.1 (
        (str_eq_iff p.os q.os).1 os,
        (str_eq_iff p.architecture q.architecture).1 arch,
        fits.1 (λ x y i j.
            variant x y ((canonical_variant-IsVariant _ _ x).0 i)
              ((canonical_variant-IsVariant _ _ y).0 j)),
      ),
    )

unaccepted : (p q : Platform) → ¬ Accepts p q → matches p q ≡ false
unaccepted p q others = elim (Bool-cases (matches p q)) [
  | inl e ↦ absurd (others ((matches-Accepts p q).0 e))
  | inr e ↦ e
]

-- The first accepted entry of an index.
pub data Selection {ℓ} {T : Type ℓ} (target : Platform) : List (Platform × T) → T → Type ℓ where
  here :
      {p : Platform} {t : T} {back : List (Platform × T)}
      → Accepts target p
      → Selection target ((p, t) ∷ back) t
  later :
      {p : Platform} {t u : T} {back : List (Platform × T)}
      → ¬ Accepts target p
      → Selection target back u
      → Selection target ((p, t) ∷ back) u

module _ {ℓ} {T : Type ℓ} (target : Platform) where
  select_manifest-Selection :
      (entries : List (Platform × T)) (t : T)
      → select_manifest target entries ≡ some t
      → Selection target entries t
  unfolding select_manifest
  select_manifest-Selection [] t h = cc
  select_manifest-Selection ((p, u) ∷ entries) t h = elim (Bool-cases (matches target p)) [
    | inl e ↦
        subst (λ x. Selection target ((p, u) ∷ entries) x) (some_injective u t (rw e at h))
          (here ((matches-Accepts target p).0 e))
    | inr e ↦
        later (λ a. let k = (matches-Accepts target p).1 a in cc)
          (select_manifest-Selection entries t (rw e at h))
  ]

  Selection-select_manifest :
      {entries : List (Platform × T)} {t : T}
      → Selection target entries t
      → select_manifest target entries ≡ some t
  unfolding select_manifest
  Selection-select_manifest (here {p} a) = rw ((matches-Accepts target p).1 a) refl
  Selection-select_manifest (later {p} others s) =
      rw (unaccepted target p others) (Selection-select_manifest s)

  -- `select_manifest` returns a manifest exactly when it is that of the first entry of which the
  -- system and the architecture are the node's and of which the variant is not another than the
  -- node's, where an arm64 without a variant is a v8 and other platforms without one have any.
  pub select_manifest_iff :
      (entries : List (Platform × T)) (t : T)
      → (select_manifest target entries ≡ some t) ↔ Selection target entries t
  select_manifest_iff entries t = (select_manifest-Selection entries t, Selection-select_manifest)
