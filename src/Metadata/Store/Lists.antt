-- ===== src/Metadata/Store/Lists.antt =====
-- crates/metadata/src/lib.rs: what a read finds is in the listing of its namespace.
use containerd_rs.Base.{
  ◌≡◌, refl, subst, ap, sym, ◌∙◌, List, [], ◌∷◌, ◌++◌, Bytes, Bool, true, false, Option, none, some,
  Result, ok, err, ok-injective, err_ne_ok, if◌then◌else◌, str_eq, str_eq_iff, str_eq_refl, is_some,
  strip_prefix, lookup, Listed, here, there, if_true,
}
use containerd_rs.Metadata.Store.{
  Kind, Store, Error, Table, table, get, get_bytes, some_ok, key, list, list_entries, push_front,
}
use containerd_rs.Metadata.Store.Isolation.{IsNamespace, in_namespace}

module _ {T : Type 0} (to_vec : T → Result Error Bytes) (from_slice : Bytes → Result Error T)
    (n : Bytes) (ns : IsNamespace n) where
  pushed :
      (x : Result Error T) (rest : Result Error (List T)) (l : List T)
      → push_front to_vec from_slice x rest ≡ ok l
      → (y : T) × (ys : List T) × (x ≡ ok y) × (rest ≡ ok ys) × (l ≡ y ∷ ys)
  pushed (err e) rest l h = absurd (err_ne_ok h)
  pushed (ok v) (err e) l h = absurd (err_ne_ok h)
  pushed (ok v) (ok vs) l h = (v, vs, refl, refl, sym (ok-injective h))

  abbrev entries : Table → Result Error (List T)
  entries t = list_entries to_vec from_slice (n ++ b'/' ∷ []) t

  of_namespace : (k j : Bytes) → k ≡ key n j → is_some (strip_prefix (n ++ b'/' ∷ []) k) ≡ true
  of_namespace k j e =
      ap (λ i. is_some (strip_prefix (n ++ b'/' ∷ []) i)) e
      ∙ (in_namespace n n j ns ns ∙ str_eq_refl n)

  -- The first entry, by whether it is the one sought and whether it is of the namespace.
  first_found :
      (o : T) (x : Result Error T) (rest : Result Error (List T)) (l : List T)
      → x ≡ ok o
      → push_front to_vec from_slice x rest ≡ ok l
      → Listed o l
  first_found o x rest l h e =
      let (y, ys, p, q, r) = pushed x rest l e in
      subst (Listed o) (sym r) (subst (λ z. Listed o (z ∷ ys)) (ok-injective (sym h ∙ p)) here)

  later_found :
      (o : T) (x : Result Error T) (rest : Result Error (List T)) (l : List T) (c : Bool)
      → ((ys : List T) → rest ≡ ok ys → Listed o ys)
      → (if c then push_front to_vec from_slice x rest else rest) ≡ ok l
      → Listed o l
  later_found o x rest l true found e =
      let (y, ys, p, q, r) = pushed x rest l e in subst (Listed o) (sym r) (there (found ys q))
  later_found o x rest l false found e = found l e

  entry_found :
      (j : Bytes) (o : T) (bytes : Bytes) (k v : Bytes) (t : Table) (l : List T) (b : Bool)
      → ((ys : List T) → lookup (key n j) t ≡ some bytes → entries t ≡ ok ys → Listed o ys)
      → from_slice bytes ≡ ok o
      → str_eq k (key n j) ≡ b
      → (if b then some v else lookup (key n j) t) ≡ some bytes
      → (if is_some (strip_prefix (n ++ b'/' ∷ []) k)
          then push_front to_vec from_slice (from_slice v) (entries t)
          else entries t)
        ≡ ok l
      → Listed o l
  entry_found j o bytes k v t l false more back e found h =
      later_found o (from_slice v) (entries t) l (is_some (strip_prefix (n ++ b'/' ∷ []) k))
        (λ ys. more ys found) h
  entry_found j o bytes k v t l true more back e found h =
      first_found o (from_slice v) (entries t) l
        (let same : v ≡ bytes = cc in ap from_slice same ∙ back)
        (sym (
            if_true _ _ (is_some (strip_prefix (n ++ b'/' ∷ []) k))
              (of_namespace k j ((str_eq_iff k (key n j)).0 e)))
          ∙ h)

  entries-Listed :
      (j : Bytes) (o : T) (bytes : Bytes) (t : Table) (l : List T)
      → from_slice bytes ≡ ok o
      → lookup (key n j) t ≡ some bytes
      → entries t ≡ ok l
      → Listed o l
  unfolding lookup list_entries
  entries-Listed j o bytes [] l back found h = cc
  entries-Listed j o bytes ((k, v) ∷ t) l back found h =
      entry_found j o bytes k v t l (str_eq k (key n j))
        (λ ys f e. entries-Listed j o bytes t ys back f e) back refl found h

  get_bytes-some :
      (o : T) (found : Option Bytes)
      → get_bytes to_vec from_slice found ≡ ok (some o)
      → (bytes : Bytes) × (found ≡ some bytes) × (from_slice bytes ≡ ok o)
  get_bytes-some o none h = cc
  get_bytes-some o (some bytes) h = (bytes, refl, decoded (from_slice bytes) h)
    where
      decoded : (x : Result Error T) → some_ok to_vec from_slice x ≡ ok (some o) → x ≡ ok o
      decoded (err e) h = absurd (err_ne_ok h)
      decoded (ok v) h = cc

  -- A record that a read finds stands in the listing of its namespace.
  pub get-Listed :
      (kind : Kind) (db_ok : Bool) (j : Bytes) (o : T) (s : Store) (l : List T)
      → get to_vec from_slice db_ok kind n j s ≡ ok (some o)
      → list to_vec from_slice db_ok kind n s ≡ ok l
      → Listed o l
  unfolding get list
  get-Listed kind false j o s l found h = absurd (err_ne_ok h)
  get-Listed kind true j o s l found h =
      let (bytes, at, back) = get_bytes-some o (lookup (key n j) (table kind s)) found in
      entries-Listed j o bytes (table kind s) l back at h
