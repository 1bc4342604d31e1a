-- ===== src/Runtime/Bundle/ProcessArgs/Env.antt =====
-- crates/runtime/src/bundle.rs: what the merged environment says of a variable.
use containerd_rs.Base.{
  ◌≡◌, or_else_assoc, or_else-none, refl, ap, sym, ◌∙◌, List, [], ◌∷◌, ◌++◌, Bytes, Bool, true,
  false, Option, none, some, if◌then◌else◌, str_eq, str_eq_iff, strip_prefix, Lacks,
  strip_prefix-Lacks, strip_prefix_same, All, arith, or_else, Option-cases, inl, inr, Bool-cases,
  subst,
}
use containerd_rs.Runtime.Bundle.Request.{ImageConfig, ContainerRequest}
use containerd_rs.Runtime.Bundle.ProcessArgs.{retain_others, set_envs, merge_env}

-- The first entry `<k>=<value>` of an environment.
unfoldable pub getenv : Bytes → List Bytes → Option Bytes
getenv k [] = none
getenv k (e ∷ es) = or_else (strip_prefix (k ++ b'=' ∷ []) e) (getenv k es)

-- The last value that is requested for a variable.
unfoldable pub last_value : Bytes → List (Bytes × Bytes) → Option Bytes
last_value k [] = none
last_value k ((j, v) ∷ envs) = or_else (last_value k envs) (if str_eq j k then some v else none)

abbrev pub IsKey : Bytes × Bytes → Type 0
IsKey kv = Lacks b'=' kv.0

getenv-append :
    (k : Bytes) (es fs : List Bytes) → getenv k (es ++ fs) ≡ or_else (getenv k es) (getenv k fs)
unfolding getenv
getenv-append k [] fs = refl
getenv-append k (e ∷ es) fs =
    rw (getenv-append k es fs)
      (sym (or_else_assoc (strip_prefix (k ++ b'=' ∷ []) e) (getenv k es) (getenv k fs)))

getenv-retain_others :
    (k j : Bytes) (es : List Bytes)
    → Lacks b'=' k
    → Lacks b'=' j
    → getenv k (retain_others (j ++ b'=' ∷ []) es) ≡ (if str_eq j k then none else getenv k es)
unfolding getenv retain_others
getenv-retain_others k j [] h h' = ground arith
getenv-retain_others k j (e ∷ es) h h' = elim (Option-cases (strip_prefix (j ++ b'=' ∷ []) e)) [
  | inl x ↦ elim (Bool-cases (str_eq j k)) [
    | inl same ↦
        let here : strip_prefix (k ++ b'=' ∷ []) e ≡ none =
          subst (λ n. strip_prefix (n ++ b'=' ∷ []) e ≡ none) ((str_eq_iff j k).0 same) x in
        ground (arith, getenv-retain_others k j es h h')
    | inr other ↦ ground (arith, getenv-retain_others k j es h h')
  ]
  | inr (rest, x) ↦ elim (Bool-cases (str_eq j k)) [
    | inl same ↦ ground (arith, getenv-retain_others k j es h h')
    | inr other ↦
        ground
          (arith, strip_prefix_same b'=' j k e rest h' h x other, getenv-retain_others k j es h h')
  ]
]

-- The variable's own entry is taken away before the new one is appended.
set_value {ℓ} :
    {A : Type ℓ} (later : Option A) (same : Bool) (v : A) (older : Option A)
    → or_else later (or_else (if same then none else older) (if same then some v else none))
      ≡ or_else (or_else later (if same then some v else none)) older
set_value none true v older = refl
set_value none false v older = or_else-none older
set_value (some a) same v older = refl

str_eq_comm : (a b : Bytes) → str_eq a b ≡ str_eq b a
unfolding str_eq
str_eq_comm [] [] = refl
str_eq_comm [] (y ∷ b) = refl
str_eq_comm (x ∷ a) [] = refl
str_eq_comm (x ∷ a) (y ∷ b) = ground (arith, str_eq_comm a b)

-- The entry that one requested variable leaves behind the others.
getenv_entry :
    (k j v : Bytes)
    → Lacks b'=' k
    → Lacks b'=' j
    → getenv k ((j ++ (b'=' ∷ v)) ∷ []) ≡ (if str_eq j k then some v else none)
unfolding getenv
getenv_entry k j v h h' =
    rw (strip_prefix-Lacks b'=' k j v h h', str_eq_comm k j)
      (or_else-none (if str_eq j k then some v else none))

pub getenv-set_envs :
    (k : Bytes) (envs : List (Bytes × Bytes)) (out : List Bytes)
    → Lacks b'=' k
    → All IsKey envs
    → getenv k (set_envs envs out) ≡ or_else (last_value k envs) (getenv k out)
unfolding set_envs last_value
getenv-set_envs k [] out h hs = refl
getenv-set_envs k ((j, v) ∷ envs) out h (h', hs) =
    getenv-set_envs k envs (retain_others (j ++ b'=' ∷ []) out ++ (j ++ (b'=' ∷ v)) ∷ []) h hs
    ∙ ap (or_else (last_value k envs)) (
        getenv-append k (retain_others (j ++ b'=' ∷ []) out) ((j ++ (b'=' ∷ v)) ∷ [])
        ∙ rw (getenv-retain_others k j out h h', getenv_entry k j v h h') refl)
    ∙ set_value (last_value k envs) (str_eq j k) v (getenv k out)

-- In the merged environment a variable has the value that is requested for it last, and the
-- image's where none is requested. Conditions: no key holds an equals sign.
pub getenv-merge_env :
    (k : Bytes) (image : ImageConfig) (req : ContainerRequest)
    → Lacks b'=' k
    → All IsKey req.envs
    → getenv k (merge_env image req) ≡ or_else (last_value k req.envs) (getenv k image.env)
unfolding merge_env
getenv-merge_env k image req h hs = getenv-set_envs k req.envs image.env h hs
