-- ===== src/Metadata/Store/Written.antt =====
-- crates/metadata/src/lib.rs: what a read finds behind a write that may fail.
use containerd_rs.Base.{
  ◌≡◌, refl, subst, ◌∙◌, ◌⊎◌, inl, Bytes, Bool, true, false, ◌&&◌, Option, none, some, Result, ok,
  err, if◌then◌else◌, str_eq, str_eq_iff, str_eq_refl, Bool-cases, arith, if_true,
}
use containerd_rs.Metadata.Store.{Kind, Store, Error, get, put, put_bytes, delete, key}
use containerd_rs.Metadata.Store.Isolation.{IsNamespace, get-put, get-delete}

module _ {T : Type 0} (to_vec : T → Result Error Bytes) (from_slice : Bytes → Result Error T)
    (kind : Kind) (n : Bytes) (reads_ok puts_ok : Bool) where
  abbrev pub read : Bytes → Store → Result Error (Option T)
  read id s = get to_vec from_slice reads_ok kind n id s

  abbrev pub write : Bytes → T → Store → Result Error Unit × Store
  write id v s = put to_vec from_slice puts_ok kind n id v s

  -- What a write does to a read: nothing, or it puts the record there.
  abbrev pub Put : Bytes → Bytes → T → Store → Store → Type 0
  Put i j v s s' = (read j s' ≡ read j s) ⊎ ((i ≡ j) × (read j s' ≡ ok (some v)))

  -- What a write leaves under its own id, by how it ended.
  abbrev pub Wrote : Bytes → T → Store → Result Error Unit × Store → Type 0
  Wrote i v s (err e, s') = s' ≡ s
  Wrote i v s (ok done, s') = read i s' ≡ ok (some v)

  -- serde_json writes every record, and reads back what it wrote.
  abbrev pub RoundTrips : Type 0
  RoundTrips = (v : T) (bytes : Bytes) → to_vec v ≡ ok bytes → from_slice bytes ≡ ok v

  abbrev pub Writes : Type 0
  Writes = (puts_ok ≡ true) × ((v : T) → (bytes : Bytes) × (to_vec v ≡ ok bytes))

  module _ (ns : IsNamespace n) (reads : reads_ok ≡ true) (back : RoundTrips) where
    -- The value of a write that reaches the table.
    read-write :
        (i j : Bytes) (v : T) (s : Store) (bytes : Bytes)
        → to_vec v ≡ ok bytes
        → read j (put_bytes to_vec from_slice true kind (key n i) (ok bytes) s).1
          ≡ (if str_eq n n && str_eq i j then ok (some v) else read j s)
    unfolding put
    read-write i j v s bytes h =
        subst
          (λ u.
            read j (put_bytes to_vec from_slice true kind (key n i) u s).1
            ≡ (if str_eq n n && str_eq i j then ok (some v) else read j s))
          h (rw reads (get-put to_vec from_slice kind n n ns ns i j v bytes s h (back v bytes h)))

    found_or_kept :
        (i j : Bytes) (v : T) (s s' : Store)
        → read j s' ≡ (if str_eq n n && str_eq i j then ok (some v) else read j s)
        → Put i j v s s'
    found_or_kept i j v s s' h =
        ground (arith, str_eq_refl n, str_eq_iff i j, Bool-cases (str_eq i j))

    put_bytes-Put :
        (i j : Bytes) (v : T) (s : Store) (u : Result Error Bytes) (db_ok : Bool)
        → to_vec v ≡ u
        → Put i j v s (put_bytes to_vec from_slice db_ok kind (key n i) u s).1
    put_bytes-Put i j v s (err e) db_ok h = inl refl
    put_bytes-Put i j v s (ok bytes) false h = inl refl
    put_bytes-Put i j v s (ok bytes) true h = found_or_kept i j v s _ (read-write i j v s bytes h)

    pub write-Put : (i j : Bytes) (v : T) (s : Store) → Put i j v s (write i v s).1
    unfolding put
    write-Put i j v s = put_bytes-Put i j v s (to_vec v) puts_ok refl

    put_bytes-Wrote :
        (i : Bytes) (v : T) (s : Store) (u : Result Error Bytes) (db_ok : Bool)
        → to_vec v ≡ u
        → Wrote i v s (put_bytes to_vec from_slice db_ok kind (key n i) u s)
    put_bytes-Wrote i v s (err e) db_ok h = refl
    put_bytes-Wrote i v s (ok bytes) false h = refl
    put_bytes-Wrote i v s (ok bytes) true h =
        read-write i i v s bytes h
        ∙ if_true _ _ (str_eq n n && str_eq i i) (rw (str_eq_refl n, str_eq_refl i) refl)

    pub write-Wrote : (i : Bytes) (v : T) (s : Store) → Wrote i v s (write i v s)
    unfolding put
    write-Wrote i v s = put_bytes-Wrote i v s (to_vec v) puts_ok refl

    -- A write succeeds where the database and serde_json do.
    pub write-ok : Writes → (i : Bytes) (v : T) (s : Store) → (write i v s).0 ≡ ok tt
    unfolding put
    write-ok (puts, to_bytes) i v s = rw (puts, (to_bytes v).1) refl

    -- A deletion that the database allows.
    pub read-delete :
        (i j : Bytes) (s : Store)
        → read j (delete true kind n i s).1 ≡ (if str_eq i j then ok none else read j s)
    read-delete i j s =
        rw (reads, get-delete to_vec from_slice kind n n ns ns i j s, str_eq_refl n) refl
