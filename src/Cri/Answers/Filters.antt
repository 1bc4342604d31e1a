-- ===== src/Cri/Answers/Filters.antt =====
-- crates/cri/src/server.rs: which containers a filtered list holds.
use containerd_rs.Base.{
  ◌≡◌, ◌↔◌, ◌⊎◌, inl, refl, ap, ◌∙◌, ℤ, pos, negsuc, List, [], ◌∷◌, map, Bytes, Bool, true, false,
  ◌&&◌, Option, none, some, Result, ok, err, ok-injective, err_ne_ok, if◌then◌else◌, str_eq_iff,
  lookup, All, Listed, here, there, arith, Bool-cases,
}
use containerd_rs.Metadata.Records.{Labels, ContainerRecord}
use containerd_rs.Metadata.Store.{Store, Error, container, list}
use containerd_rs.Metadata.Store.Isolation.{IsNamespace}
use containerd_rs.Metadata.Store.Lists.{get-Listed}
use containerd_rs.Cri.Convert.{container_state_i32}
use containerd_rs.Cri.Service.{Status, Env, internal_of, read_container}
use containerd_rs.Cri.Answers.{
  id_fits, same_number, state_fits, is_value, labels_fit, container_fits, filter, map_ok,
  all_containers, list_containers,
}
use containerd_rs.Cri.Answers.Messages.{Container, ContainerFilter, container_of}

-- What a filter asks of a container.
abbrev pub Fits : ContainerFilter → ContainerRecord → Type 0
Fits f r =
    ((f.id ≡ []) ⊎ (f.id ≡ r.id))
    × ((f.pod_sandbox_id ≡ []) ⊎ (f.pod_sandbox_id ≡ r.sandbox_id))
    × ((f.state ≡ none) ⊎ (f.state ≡ some (container_state_i32 r.state)))
    × All (λ (kv : Bytes × Bytes). lookup kv.0 r.labels ≡ some kv.1) f.label_selector

id_fits_iff : (a b : Bytes) → (id_fits a b ≡ true) ↔ ((a ≡ []) ⊎ (a ≡ b))
id_fits_iff [] b = (λ h. inl refl, λ h. refl)
id_fits_iff (x ∷ a) b = ground (arith, str_eq_iff (x ∷ a) b)

same_number_iff : (i j : ℤ) → (same_number i j ≡ true) ↔ (i ≡ j)
same_number_iff (pos n) (pos m) = ground arith
same_number_iff (pos n) (negsuc m) = (λ h. cc, λ h. cc)
same_number_iff (negsuc n) (pos m) = (λ h. cc, λ h. cc)
same_number_iff (negsuc n) (negsuc m) = ground arith

state_fits_iff : (o : Option ℤ) (i : ℤ) → (state_fits o i ≡ true) ↔ ((o ≡ none) ⊎ (o ≡ some i))
state_fits_iff none i = (λ h. inl refl, λ h. refl)
state_fits_iff (some j) i = ground (arith, same_number_iff j i)

is_value_iff : (v : Bytes) (o : Option Bytes) → (is_value v o ≡ true) ↔ (o ≡ some v)
is_value_iff v none = (λ h. cc, λ h. cc)
is_value_iff v (some w) = ground (arith, str_eq_iff w v)

labels_fit_iff :
    (selector labels : Labels)
    → (labels_fit selector labels ≡ true)
      ↔ All (λ (kv : Bytes × Bytes). lookup kv.0 labels ≡ some kv.1) selector
unfolding labels_fit
labels_fit_iff [] labels = (λ h. tt, λ h. refl)
labels_fit_iff ((k, v) ∷ selector) labels =
    ground (arith, is_value_iff v (lookup k labels), labels_fit_iff selector labels)

container_fits_iff :
    (f : ContainerFilter) (r : ContainerRecord) → (container_fits (some f) r ≡ true) ↔ Fits f r
unfolding container_fits
container_fits_iff f r =
    conj (id_fits f.id r.id) (id_fits f.pod_sandbox_id r.sandbox_id) _ _ (id_fits_iff f.id r.id)
      (id_fits_iff f.pod_sandbox_id r.sandbox_id)
      (state_fits_iff f.state (container_state_i32 r.state))
      (labels_fit_iff f.label_selector r.labels)
  where
    conj :
        (a b c d : Bool) {A B C D : Type 0}
        → ((a ≡ true) ↔ A)
        → ((b ≡ true) ↔ B)
        → ((c ≡ true) ↔ C)
        → ((d ≡ true) ↔ D)
        → ((a && b && c && d) ≡ true) ↔ (A × B × C × D)
    conj a b c d ha hb hc hd =
        ground (arith, Bool-cases a, Bool-cases b, Bool-cases c, Bool-cases d)

-- What passes a filter, and what is mapped.
pub filter-Listed {ℓ} :
    {A : Type ℓ} (p : A → Bool) (x : A) (xs : List A)
    → Listed x xs
    → p x ≡ true
    → Listed x (filter p xs)
unfolding filter
filter-Listed p x [] l h = elim l [ ]
filter-Listed p x (_ ∷ xs) here h = rw h here
filter-Listed p x (y ∷ xs) (there more) h = kept (p y) (filter-Listed p x xs more h)
  where
    kept :
        (b : Bool) → Listed x (filter p xs) → Listed x (if b then y ∷ filter p xs else filter p xs)
    kept true l = there l
    kept false l = l

map-Listed {ℓ κ} :
    {A : Type ℓ} {B : Type κ} (f : A → B) (x : A) (xs : List A)
    → Listed x xs
    → Listed (f x) (map f xs)
map-Listed f x [] l = elim l [ ]
map-Listed f x (_ ∷ xs) here = here
map-Listed f x (y ∷ xs) (there more) = there (map-Listed f x xs more)

Listed-map {ℓ κ} :
    {A : Type ℓ} {B : Type κ} (f : A → B) (y : B) (xs : List A)
    → Listed y (map f xs)
    → (x : A) × Listed x xs × (y ≡ f x)
Listed-map f y [] l = elim l [ ]
Listed-map f y (x ∷ xs) here = (x, here, refl)
Listed-map f y (x ∷ xs) (there more) = let (x', l, e) = Listed-map f y xs more in (x', there l, e)

Listed-kept {ℓ} :
    {A : Type ℓ} (p : A → Bool) (x y : A) (xs ys : List A) (b : Bool)
    → (Listed x ys → Listed x xs × (p x ≡ true))
    → p y ≡ b
    → Listed x (if b then y ∷ ys else ys)
    → Listed x (y ∷ xs) × (p x ≡ true)
Listed-kept p x _ xs ys true more e here = (here, e)
Listed-kept p x y xs ys true more e (there l) = (there (more l).0, (more l).1)
Listed-kept p x y xs ys false more e l = (there (more l).0, (more l).1)

Listed-filter {ℓ} :
    {A : Type ℓ} (p : A → Bool) (x : A) (xs : List A)
    → Listed x (filter p xs)
    → Listed x xs × (p x ≡ true)
unfolding filter
Listed-filter p x [] l = elim l [ ]
Listed-filter p x (y ∷ xs) l =
    Listed-kept p x y xs (filter p xs) (p y) (Listed-filter p x xs) refl l

module _ (env : Env) (ns : IsNamespace env.namespace) where
  -- What a list holds, by what it was asked for: what can be read and fits is in it, and each entry
  -- stems from a record that fits.
  abbrev pub IsFiltered :
      ContainerFilter
      → Store
      → Result Status (List ContainerRecord)
      → Result Status (List Container)
      → Type 0
  IsFiltered f s (err e) answer = answer ≡ err e
  IsFiltered f s (ok all) (err e) = Unit → ⊥
  IsFiltered f s (ok all) (ok cs) =
      ((j : Bytes) (r : ContainerRecord)
        → read_container env j s ≡ ok (some r)
        → Fits f r
        → Listed (container_of r) cs)
      × ((c : Container)
          → Listed c cs
          → (r : ContainerRecord) × Listed r all × Fits f r × (c ≡ container_of r))

  pub read-Listed :
      (j : Bytes) (r : ContainerRecord) (s : Store) (q : Result Error (List ContainerRecord))
      (all : List ContainerRecord)
      → list env.to_vec env.from_slice env.reads_ok container env.namespace s ≡ q
      → internal_of env q ≡ ok all
      → read_container env j s ≡ ok (some r)
      → Listed r all
  unfolding read_container
  read-Listed j r s (err e) all l h found = absurd (err_ne_ok h)
  read-Listed j r s (ok rs) all l h found =
      get-Listed env.to_vec env.from_slice env.namespace ns container env.reads_ok j r s all found
        (l ∙ ap ok (ok-injective h))

  filtered :
      (f : ContainerFilter) (s : Store) (q : Result Status (List ContainerRecord))
      → all_containers env s ≡ q
      → IsFiltered f s q
          (map_ok env (λ all. map container_of (filter (container_fits (some f)) all)) q)
  filtered f s (err e) h = refl
  filtered f s (ok all) h = (
    λ j r found fits. map-Listed container_of r _ (
        filter-Listed (container_fits (some f)) r all (read-Listed j r s _ all refl h found)
          ((container_fits_iff f r).1 fits)),
    λ c l.
        let (r, k, e) = Listed-map container_of c _ l in
        let (m, b) = Listed-filter (container_fits (some f)) r all k in
        (r, m, (container_fits_iff f r).0 b, e),
  )

  -- A filtered list of the containers holds every container of which the record can be read and
  -- that fits the filter, as it would be listed, and nothing else: each of its entries is that of
  -- a record of the namespace that fits. It fails only if the records cannot be listed. A
  -- container fits if its id and its sandbox are those asked for, where any are, its state is,
  -- and it has every label asked for with that value. The namespace has no slash.
  pub list_containers-IsFiltered :
      (f : ContainerFilter) (s : Store)
      → IsFiltered f s (all_containers env s) (list_containers env (some f) s)
  unfolding list_containers
  list_containers-IsFiltered f s = filtered f s (all_containers env s) refl
