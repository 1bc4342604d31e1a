-- ===== src/Base/Assoc.antt =====
-- Maps keyed by byte strings, as association lists without duplicate keys.
use mathlib.Core.Path.{◌≡◌, refl}
use mathlib.Core.Option.{Option, none, some}
use mathlib.Core.List.{List, [], ◌∷◌}
use native.Mathlib.Omega.{arith}
use containerd_rs.Base.Tests.{if◌then◌else◌}
use containerd_rs.Base.Text.{Bytes, str_eq, str_eq_iff, str_eq_refl}

module _ {ℓ} {V : Type ℓ} where
  unfoldable pub lookup : Bytes → List (Bytes × V) → Option V
  lookup k [] = none
  lookup k ((j, v) ∷ m) = if str_eq j k then some v else lookup k m

  -- Replaces the value of a key that is present, else adds the key at the end.
  unfoldable pub insert : Bytes → V → List (Bytes × V) → List (Bytes × V)
  insert k v [] = (k, v) ∷ []
  insert k v ((j, w) ∷ m) = if str_eq j k then (k, v) ∷ m else (j, w) ∷ insert k v m

  unfoldable pub remove : Bytes → List (Bytes × V) → List (Bytes × V)
  remove k [] = []
  remove k ((j, w) ∷ m) = let rest = remove k m in if str_eq j k then rest else (j, w) ∷ rest

  pub lookup-insert :
      (k j : Bytes) (v : V) (m : List (Bytes × V))
      → lookup j (insert k v m) ≡ (if str_eq k j then some v else lookup j m)
  unfolding lookup insert
  lookup-insert k j v [] = refl
  lookup-insert k j v ((i, w) ∷ m) =
      ground (arith, str_eq_iff k j, str_eq_iff i k, str_eq_iff i j, lookup-insert k j v m)

  pub lookup-remove :
      (k j : Bytes) (m : List (Bytes × V))
      → lookup j (remove k m) ≡ (if str_eq k j then none else lookup j m)
  unfolding lookup remove
  lookup-remove k j [] = ground arith
  lookup-remove k j ((i, w) ∷ m) =
      ground (arith, str_eq_iff k j, str_eq_iff i k, str_eq_iff i j, lookup-remove k j m)

module _ {ℓ} {V : Type ℓ} where
  -- Writing a key twice keeps the second value, and removing a new key again changes nothing.
  pub insert-insert :
      (k : Bytes) (v w : V) (m : List (Bytes × V)) → insert k w (insert k v m) ≡ insert k w m
  unfolding insert
  insert-insert k v w [] = ground (arith, str_eq_refl k)
  insert-insert k v w ((i, u) ∷ m) = ground (arith, str_eq_refl k, insert-insert k v w m)

  pub remove_absent : (k : Bytes) (m : List (Bytes × V)) → lookup k m ≡ none → remove k m ≡ m
  unfolding lookup remove
  remove_absent k [] h = refl
  remove_absent k ((i, u) ∷ m) h = ground (arith, remove_absent k m)

  pub remove-insert :
      (k : Bytes) (v : V) (m : List (Bytes × V)) → lookup k m ≡ none → remove k (insert k v m) ≡ m
  unfolding lookup insert remove
  remove-insert k v [] h = ground (arith, str_eq_refl k)
  remove-insert k v ((i, u) ∷ m) h = ground (arith, str_eq_refl k, remove-insert k v m)

pub ruleset map_laws = (lookup-insert, lookup-remove, str_eq_refl)
