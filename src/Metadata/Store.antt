-- ===== src/Metadata/Store.antt =====
-- crates/metadata/src/lib.rs: the store, as one table for each kind of record. A table of redb is
-- a sorted map, read and written inside of transactions; serde_json turns the records into bytes
-- and back. The entries of a table stand in the order in which they were added, where redb has
-- them by key. `db_ok` says whether the database's own calls succeed.
pub mod Isolation
pub mod Written
pub mod Lists
use containerd_rs.Base.{
  is_some, List, [], ◌∷◌, ◌++◌, Bytes, Bool, not, Option, none, some, Result, ok, err,
  if◌then◌else◌, lookup, insert, remove, strip_prefix, ◌>>=◌,
}

-- `enum Kind`
pub data Kind : Type 0 where
  image container sandbox snapshot_ref lease : Kind

pub data Error : Type 0 where
  db serde : Error

abbrev pub Table : Type 0
Table = List (Bytes × Bytes)

-- The tables of the database.
pub record Store : Type 0 where
  pub images : Table
  pub containers : Table
  pub sandboxes : Table
  pub snapshots : Table
  pub leases : Table

-- `Kind::table`, to read a table and to write it.
unfoldable pub table : Kind → Store → Table
table image s = s.images
table container s = s.containers
table sandbox s = s.sandboxes
table snapshot_ref s = s.snapshots
table lease s = s.leases

unfoldable pub set_table : Kind → Table → Store → Store
set_table image t s = record s { images = t }
set_table container t s = record s { containers = t }
set_table sandbox t s = record s { sandboxes = t }
set_table snapshot_ref t s = record s { snapshots = t }
set_table lease t s = record s { leases = t }

-- `key`
unfoldable pub key : Bytes → Bytes → Bytes
key namespace id = namespace ++ (b'/' ∷ id)

-- `Store::delete`
unfoldable pub delete : Bool → Kind → Bytes → Bytes → Store → Result Error Bool × Store
delete db_ok kind namespace id s =
    let k = key namespace id in
    if not db_ok
    then (err db, s)
    else (ok (is_some (lookup k (table kind s))), set_table kind (remove k (table kind s)) s)

module _ {T : Type 0} (to_vec : T → Result Error Bytes) (from_slice : Bytes → Result Error T) where
  abbrev pub put_bytes :
      Bool → Kind → Bytes → Result Error Bytes → Store → Result Error Unit × Store
  put_bytes db_ok kind k (err e) s = (err e, s)
  put_bytes db_ok kind k (ok bytes) s =
      if not db_ok then (err db, s) else (ok tt, set_table kind (insert k bytes (table kind s)) s)

  -- `Store::put`
  unfoldable pub put : Bool → Kind → Bytes → Bytes → T → Store → Result Error Unit × Store
  put db_ok kind namespace id value s = put_bytes db_ok kind (key namespace id) (to_vec value) s

  abbrev pub some_ok : Result Error T → Result Error (Option T)
  some_ok (err e) = err e
  some_ok (ok v) = ok (some v)

  abbrev pub get_bytes : Option Bytes → Result Error (Option T)
  get_bytes none = ok none
  get_bytes (some bytes) = some_ok (from_slice bytes)

  -- `Store::get`
  unfoldable pub get : Bool → Kind → Bytes → Bytes → Store → Result Error (Option T)
  get db_ok kind namespace id s =
      if not db_ok then err db else get_bytes (lookup (key namespace id) (table kind s))

  abbrev pub push_front : Result Error T → Result Error (List T) → Result Error (List T)
  push_front (err e) rest = err e
  push_front (ok v) (err e) = err e
  push_front (ok v) (ok vs) = ok (v ∷ vs)

  -- The loop of `list` over the table's entries.
  unfoldable pub list_entries : Bytes → Table → Result Error (List T)
  unfolding strip_prefix
  list_entries prefix [] = ok []
  list_entries prefix ((k, v) ∷ entries) =
      let rest = list_entries prefix entries in
      if is_some (strip_prefix prefix k) then push_front (from_slice v) rest else rest

  -- `Store::list`
  unfoldable pub list : Bool → Kind → Bytes → Store → Result Error (List T)
  list db_ok kind namespace s =
      if not db_ok then err db else list_entries (namespace ++ b'/' ∷ []) (table kind s)
