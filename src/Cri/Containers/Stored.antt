-- ===== src/Cri/Containers/Stored.antt =====
-- crates/cri/src/server.rs: the laws of the store, for the records of containers.
use containerd_rs.Base.{◌≡◌, Bytes, true, ◌⊎◌, none, some, Result, ok, err, if◌then◌else◌, str_eq}
use containerd_rs.Metadata.Records.{ContainerRecord}
use containerd_rs.Metadata.Store.{Store, Error, container, delete}
use containerd_rs.Metadata.Store.Isolation.{IsNamespace}
use containerd_rs.Metadata.Store.Written
use containerd_rs.Cri.Service.{Env, read_container, put_container}

module _ (env : Env) where
  abbrev pub RoundTrips : Type 0
  RoundTrips =
      Written.RoundTrips env.to_vec env.from_slice container env.namespace env.reads_ok env.puts_ok

  abbrev pub Writes : Type 0
  Writes = Written.Writes env.to_vec env.from_slice container env.namespace env.reads_ok env.puts_ok

  -- What a write does to a read, and what it leaves under its own id.
  abbrev pub Put : Bytes → Bytes → ContainerRecord → Store → Store → Type 0
  Put i j r s s' =
      (read_container env j s' ≡ read_container env j s)
      ⊎ ((i ≡ j) × (read_container env j s' ≡ ok (some r)))

  abbrev pub Wrote : Bytes → ContainerRecord → Store → Result Error Unit × Store → Type 0
  Wrote i r s (err e, s') = s' ≡ s
  Wrote i r s (ok done, s') = read_container env i s' ≡ ok (some r)

  module _ (ns : IsNamespace env.namespace) (reads : env.reads_ok ≡ true) (back : RoundTrips) where
    pub put_container-Put :
        (i j : Bytes) (r : ContainerRecord) (s : Store) → Put i j r s (put_container env i r s).1
    unfolding put_container read_container
    put_container-Put =
        Written.write-Put env.to_vec env.from_slice container env.namespace env.reads_ok env.puts_ok
          ns reads back

    pub put_container-Wrote :
        (i : Bytes) (r : ContainerRecord) (s : Store) → Wrote i r s (put_container env i r s)
    unfolding put_container read_container
    put_container-Wrote =
        Written.write-Wrote env.to_vec env.from_slice container env.namespace env.reads_ok
          env.puts_ok ns reads back

    pub put_container-ok :
        Writes → (i : Bytes) (r : ContainerRecord) (s : Store) → (put_container env i r s).0 ≡ ok tt
    unfolding put_container
    put_container-ok =
        Written.write-ok env.to_vec env.from_slice container env.namespace env.reads_ok env.puts_ok
          ns reads back

    -- A deletion that the database allows.
    pub delete-read :
        (i j : Bytes) (s : Store)
        → read_container env j (delete true container env.namespace i s).1
          ≡ (if str_eq i j then ok none else read_container env j s)
    unfolding read_container
    delete-read =
        Written.read-delete env.to_vec env.from_slice container env.namespace env.reads_ok
          env.puts_ok ns reads back
