-- ===== src/Cri/Sandboxes/Stored.antt =====
-- crates/cri/src/server.rs: the laws of the store, for the records of sandboxes.
use containerd_rs.Base.{◌≡◌, Bytes, true, ◌⊎◌, some, Result, ok, err, ◌≢◌, inl, inr, err_ne_ok}
use containerd_rs.Metadata.Records.{SandboxRecord}
use containerd_rs.Metadata.Store.{Store, Error, sandbox}
use containerd_rs.Metadata.Store.Isolation.{IsNamespace}
use containerd_rs.Metadata.Store.Written
use containerd_rs.Cri.Service.{Env, read_sandbox, put_sandbox}

module _ (env : Env) where
  abbrev pub RoundTrips : Type 0
  RoundTrips =
      Written.RoundTrips env.sandbox_to_vec env.sandbox_from_slice sandbox env.namespace
        env.reads_ok env.puts_ok

  abbrev pub Writes : Type 0
  Writes =
      Written.Writes env.sandbox_to_vec env.sandbox_from_slice sandbox env.namespace env.reads_ok
        env.puts_ok

  -- What a write does to a read, and what it leaves under its own id.
  abbrev pub Put : Bytes → Bytes → SandboxRecord → Store → Store → Type 0
  Put i j r s s' =
      (read_sandbox env j s' ≡ read_sandbox env j s)
      ⊎ ((i ≡ j) × (read_sandbox env j s' ≡ ok (some r)))

  abbrev pub Wrote : Bytes → SandboxRecord → Store → Result Error Unit × Store → Type 0
  Wrote i r s (err e, s') = s' ≡ s
  Wrote i r s (ok done, s') = read_sandbox env i s' ≡ ok (some r)

  module _ (ns : IsNamespace env.namespace) (reads : env.reads_ok ≡ true) (back : RoundTrips) where
    pub put_sandbox-Put :
        (i j : Bytes) (r : SandboxRecord) (s : Store) → Put i j r s (put_sandbox env i r s).1
    unfolding put_sandbox read_sandbox
    put_sandbox-Put =
        Written.write-Put env.sandbox_to_vec env.sandbox_from_slice sandbox env.namespace
          env.reads_ok env.puts_ok ns reads back

    pub put_sandbox-Wrote :
        (i : Bytes) (r : SandboxRecord) (s : Store) → Wrote i r s (put_sandbox env i r s)
    unfolding put_sandbox read_sandbox
    put_sandbox-Wrote =
        Written.write-Wrote env.sandbox_to_vec env.sandbox_from_slice sandbox env.namespace
          env.reads_ok env.puts_ok ns reads back

    pub put_sandbox-ok :
        Writes → (i : Bytes) (r : SandboxRecord) (s : Store) → (put_sandbox env i r s).0 ≡ ok tt
    unfolding put_sandbox
    put_sandbox-ok =
        Written.write-ok env.sandbox_to_vec env.sandbox_from_slice sandbox env.namespace
          env.reads_ok env.puts_ok ns reads back

    found_back :
        (i : Bytes) (r : SandboxRecord) (s : Store) (q : Result Error Unit × Store)
        → Wrote i r s q
        → q.0 ≡ ok tt
        → read_sandbox env i q.1 ≡ ok (some r)
    found_back i r s (err e, s') h k = absurd (err_ne_ok k)
    found_back i r s (ok done, s') h k = h

    kept :
        (i j : Bytes) (r : SandboxRecord) (s s' : Store)
        → i ≢ j
        → Put i j r s s'
        → read_sandbox env j s' ≡ read_sandbox env j s
    kept i j r s s' ne (inl h) = h
    kept i j r s s' ne (inr (same, h)) = absurd (ne same)

    -- What a read finds behind a write that works, of the same record and of another.
    pub put_same :
        Writes
        → (i : Bytes) (r : SandboxRecord) (s : Store)
        → read_sandbox env i (put_sandbox env i r s).1 ≡ ok (some r)
    put_same writes i r s =
        found_back i r s _ (put_sandbox-Wrote i r s) (put_sandbox-ok writes i r s)

    pub put_other :
        (i j : Bytes) (r : SandboxRecord) (s : Store)
        → i ≢ j
        → read_sandbox env j (put_sandbox env i r s).1 ≡ read_sandbox env j s
    put_other i j r s ne = kept i j r s _ ne (put_sandbox-Put i j r s)
