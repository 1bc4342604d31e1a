-- ===== src/Images/Credentials/Hosts.antt =====
-- crates/images/src/dockercfg.rs: the normal form of a registry's name.
use containerd_rs.Base.{
  ◌≡◌, refl, sym, [], ◌∷◌, ◌++◌, Bytes, text, Bool, true, false, ◌||◌, Option, none, some,
  if◌then◌else◌, str_eq, split_once, strip_prefix, Lacks, arith, inl, inr, Bool-cases, ℕ, ◌==◌,
  if_true, if_false, subst,
}
use containerd_rs.Images.Credentials.{
  first_part, without_scheme, before_slash, hub_name, norm_host, Node, DockerConfig, run_helper,
  resolve,
}

first_cut :
    (x : ℕ) (s : Bytes) (b : Bool) (o : Option (Bytes × Bytes))
    → first_part
        (x ∷ s)
        (if b then some ([], s) else elim o [ none ↦ none | some (a, r) ↦ some (x ∷ a, r) ])
      ≡ (if b then [] else x ∷ first_part s o)
first_cut x s true o = refl
first_cut x s false none = refl
first_cut x s false (some (a, r)) = refl

Lacks-if : (x : ℕ) (s : Bytes) → Lacks b'/' s → Lacks b'/' (if x == b'/' then [] else x ∷ s)
Lacks-if x s h = elim (Bool-cases (x == b'/')) [
  | inl e ↦ subst (Lacks b'/') (sym (if_true [] (x ∷ s) (x == b'/') e)) tt
  | inr e ↦ subst (Lacks b'/') (sym (if_false [] (x ∷ s) (x == b'/') e)) (e, h)
]

-- What stands in front of the first slash has none.
before_slash-Lacks : (s : Bytes) → Lacks b'/' (before_slash s)
unfolding before_slash split_once
before_slash-Lacks [] = tt
before_slash-Lacks (x ∷ s) =
    subst (Lacks b'/') (sym (first_cut x s (x == b'/') (split_once b'/' s)))
      (Lacks-if x (before_slash s) (before_slash-Lacks s))

split_once-Lacks : (s : Bytes) → Lacks b'/' s → split_once b'/' s ≡ none
unfolding split_once
split_once-Lacks [] h = refl
split_once-Lacks (x ∷ s) (k, ks) = ground (arith, split_once-Lacks s ks)

before_slash_same : (s : Bytes) → Lacks b'/' s → before_slash s ≡ s
unfolding before_slash
before_slash_same s h = rw (split_once-Lacks s h) refl

strip_prefix-absent : (c : ℕ) (p q s : Bytes) → Lacks c s → strip_prefix (p ++ (c ∷ q)) s ≡ none
unfolding strip_prefix
strip_prefix-absent c [] q [] h = refl
strip_prefix-absent c [] q (x ∷ s) (k, ks) = ground arith
strip_prefix-absent c (x ∷ p) q [] h = refl
strip_prefix-absent c (x ∷ p) q (y ∷ s) (k, ks) = ground (arith, strip_prefix-absent c p q s ks)

without_scheme_same : (s : Bytes) → Lacks b'/' s → without_scheme s ≡ s
unfolding without_scheme
without_scheme_same s h =
    rw
      (
        strip_prefix-absent b'/' (text "https:") (text "/") s h,
        strip_prefix-absent b'/' (text "http:") (text "/") s h,
      )
      refl

abbrev is_hub : Bytes → Bool
is_hub h =
    str_eq h (text "index.docker.io")
    || str_eq h (text "registry-1.docker.io")
    || str_eq h (text "docker.io")

-- The alias is a name without a slash, and its own normal form.
hub_name-Lacks : (s : Bytes) → Lacks b'/' s → Lacks b'/' (hub_name s)
unfolding hub_name
hub_name-Lacks s h = chosen (is_hub s)
  where
    chosen : (b : Bool) → Lacks b'/' (if b then text "docker.io" else s)
    chosen true = (refl, (refl, (refl, (refl, (refl, (refl, (refl, (refl, (refl, tt)))))))))
    chosen false = h

hub_name_idem : (s : Bytes) → hub_name (hub_name s) ≡ hub_name s
unfolding hub_name str_eq
hub_name_idem s = elim (Bool-cases (is_hub s)) [ inl e ↦ rw e refl | inr e ↦ rw e (rw e refl) ]

-- The normal form of a registry's name has no slash, and normalising it again changes nothing.
pub norm_host_lem : (s : Bytes) → Lacks b'/' (norm_host s) × (norm_host (norm_host s) ≡ norm_host s)
unfolding norm_host
norm_host_lem s =
    let h = hub_name-Lacks _ (before_slash-Lacks (without_scheme s)) in
    (
      h,
      rw (without_scheme_same (norm_host s) h, before_slash_same (norm_host s) h)
          (hub_name_idem (before_slash (without_scheme s))),
    )

-- Credentials are looked up for the registry, not for the way it is written: two names with the same
-- normal form get the same answer.
pub resolve-norm_host :
    (node : Node) (c : DockerConfig) (r r' : Bytes)
    → norm_host r ≡ norm_host r'
    → resolve node c r ≡ resolve node c r'
unfolding resolve run_helper
resolve-norm_host node c r r' h = rw h refl
