-- ===== src/Metadata/Store/Isolation.antt =====
-- crates/metadata/src/lib.rs: what a read finds after a write, in the same namespace and in others.
use containerd_rs.Base.{
  is_some, ◌≡◌, ◌≢◌, refl, sym, [], ◌∷◌, ◌++◌, Bytes, Bool, true, false, ◌&&◌, ◌==◌, Option, none,
  some, Result, ok, err, if◌then◌else◌, str_eq, str_eq_iff, str_eq_ne, lookup, insert, remove,
  lookup-insert, lookup-remove, All, arith, strip_prefix,
}
use containerd_rs.Metadata.Store.{
  Kind, image, container, sandbox, snapshot_ref, lease, Error, Table, Store, table, set_table, key,
  delete, put, put_bytes, get, get_bytes, list, list_entries,
}

-- A namespace that keys can be told apart by.
abbrev pub IsNamespace : Bytes → Type 0
IsNamespace n = All (λ b. (b == b'/') ≡ false) n

table-set_table : (k : Kind) (t : Table) (s : Store) → table k (set_table k t s) ≡ t
unfolding table set_table
table-set_table image t s = refl
table-set_table container t s = refl
table-set_table sandbox t s = refl
table-set_table snapshot_ref t s = refl
table-set_table lease t s = refl

-- Keys are the same exactly if the namespaces and the ids are.
key_eq :
    (n m a b : Bytes)
    → IsNamespace n
    → IsNamespace m
    → str_eq (key n a) (key m b) ≡ (str_eq n m && str_eq a b)
unfolding key str_eq
key_eq [] [] a b h h' = refl
key_eq [] (c ∷ m) a b h (k, ks) = ground arith
key_eq (c ∷ n) [] a b (k, ks) h' = ground arith
key_eq (c ∷ n) (c' ∷ m) a b (k, ks) (k', ks') = ground (arith, key_eq n m a b ks ks')

-- A namespace's prefix is that of the keys in it alone.
pub in_namespace :
    (n m a : Bytes)
    → IsNamespace n
    → IsNamespace m
    → is_some (strip_prefix (n ++ b'/' ∷ []) (key m a)) ≡ str_eq n m
unfolding key str_eq strip_prefix
in_namespace [] [] a h h' = refl
in_namespace [] (c ∷ m) a h (k, ks) = ground arith
in_namespace (c ∷ n) [] a (k, ks) h' = ground arith
in_namespace (c ∷ n) (c' ∷ m) a (k, ks) (k', ks') = ground (arith, in_namespace n m a ks ks')

module _ {T : Type 0} (to_vec : T → Result Error Bytes) (from_slice : Bytes → Result Error T)
    (kind : Kind) (n m : Bytes) (ns : IsNamespace n) (ms : IsNamespace m) where
  found-put :
      (i j : Bytes) (v : T) (bytes : Bytes) (t : Table)
      → from_slice bytes ≡ ok v
      → get_bytes to_vec from_slice (lookup (key m j) (insert (key n i) bytes t)) ≡ (
          if str_eq n m && str_eq i j
          then ok (some v)
          else get_bytes to_vec from_slice (lookup (key m j) t))
  found-put i j v bytes t back =
      rw (lookup-insert (key n i) (key m j) bytes t, key_eq n m i j ns ms)
        (found_if (str_eq n m && str_eq i j) v bytes (lookup (key m j) t) back)
    where
      found_if :
          (b : Bool) (v : T) (bytes : Bytes) (o : Option Bytes)
          → from_slice bytes ≡ ok v
          → get_bytes to_vec from_slice (if b then some bytes else o)
            ≡ (if b then ok (some v) else get_bytes to_vec from_slice o)
      found_if true v bytes o back = rw back refl
      found_if false v bytes o back = refl

  -- A read after a write: the value that was written, under the same namespace and id, and under
  -- any other what was there before, where the database works and the namespaces have no slash.
  -- The record is one that serde_json reads back.
  pub get-put :
      (i j : Bytes) (v : T) (bytes : Bytes) (s : Store)
      → to_vec v ≡ ok bytes
      → from_slice bytes ≡ ok v
      → get to_vec from_slice true kind m j (put to_vec from_slice true kind n i v s).1
        ≡ (if str_eq n m && str_eq i j then ok (some v) else get to_vec from_slice true kind m j s)
  unfolding get put
  get-put i j v bytes s vec back =
      rw (vec, table-set_table kind (insert (key n i) bytes (table kind s)) s)
        (found-put i j v bytes (table kind s) back)

  -- A read after a deletion finds nothing under the same namespace and id, and under any other what
  -- was there before, where the database works and the namespaces have no slash.
  pub get-delete :
      (i j : Bytes) (s : Store)
      → get to_vec from_slice true kind m j (delete true kind n i s).1
        ≡ (if str_eq n m && str_eq i j then ok none else get to_vec from_slice true kind m j s)
  unfolding get delete
  get-delete i j s =
      rw
        (
          table-set_table kind (remove (key n i) (table kind s)) s,
          lookup-remove (key n i) (key m j) (table kind s),
          key_eq n m i j ns ms,
        )
        (ground arith)

  list_entries-insert :
      (i : Bytes) (bytes : Bytes) (t : Table)
      → str_eq m n ≡ false
      → list_entries to_vec from_slice (m ++ b'/' ∷ []) (insert (key n i) bytes t)
        ≡ list_entries to_vec from_slice (m ++ b'/' ∷ []) t
  unfolding list_entries insert
  list_entries-insert i bytes [] ne = rw (in_namespace m n i ms ns, ne) refl
  list_entries-insert i bytes ((k, w) ∷ t) ne =
      ground
        (arith, in_namespace m n i ms ns, str_eq_iff k (key n i), list_entries-insert i bytes t ne)

  -- A write in one namespace does not show in the listing of another, where neither has a slash.
  pub list-put :
      (i : Bytes) (v : T) (db_ok : Bool) (s : Store)
      → n ≢ m
      → list to_vec from_slice true kind m (put to_vec from_slice db_ok kind n i v s).1
        ≡ list to_vec from_slice true kind m s
  unfolding list put
  list-put i v db_ok s ne = listed (to_vec v) db_ok
    where
      listed :
          (r : Result Error Bytes) (db_ok : Bool)
          → list to_vec from_slice true kind m
              (put_bytes to_vec from_slice db_ok kind (key n i) r s).1
            ≡ list to_vec from_slice true kind m s
      listed (err e) db_ok = refl
      listed (ok bytes) false = refl
      listed (ok bytes) true =
          rw (table-set_table kind (insert (key n i) bytes (table kind s)) s)
            (list_entries-insert i bytes (table kind s) (str_eq_ne m n (λ e. ne (sym e))))
