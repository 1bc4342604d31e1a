-- ===== src/Cri/Sandboxes/Ready.antt =====
-- crates/cri/src/server.rs: of a pod, one sandbox at most is ready once a new one has been run.
use containerd_rs.Base.{
  ◌≡◌, ◌≢◌, refl, subst, ap, sym, ◌∙◌, inr, ℕ, ℤ, List, Bytes, Bool, true, Option, none, some,
  Result, ok, err, err_ne_ok, and_some,
}
use containerd_rs.Metadata.Records.{ready, not_ready, SandboxRecord}
use containerd_rs.Metadata.Store.{Store, Error}
use containerd_rs.Metadata.Store.Isolation.{IsNamespace}
use containerd_rs.Cri.Service.{Status, Env, World, read_sandbox, put_sandbox, written}
use containerd_rs.Cri.Sandboxes.Users.{IsMapped, OfMapped, userns_of-OfMapped}
use containerd_rs.Cri.Sandboxes.Stored.{RoundTrips, Writes, put_same, put_other, put_sandbox-ok}
use containerd_rs.Cri.Sandboxes.{
  demote_all, demote_listed, with_id, record_sandbox, new_sandbox, connected, mapped,
  run_pod_sandbox,
}
use containerd_rs.Cri.Sandboxes.Request.{PodSandboxConfig, Mappings, ns_options}
use containerd_rs.Cri.Sandboxes.Demotions.{
  SamePod, listing, demote_all-IsPending, none_left, read-Listed,
}

module _ (env : Env) where
  new_sandbox_lem :
      (id handler : Bytes) (c : PodSandboxConfig) (b : Bool) (uids gids : Mappings)
      (net : Bytes × Bytes) (resolv : Option Bytes) (holder : Option ℤ) (now : ℕ)
      → IsMapped b uids gids
      → let r = new_sandbox env id handler c (b, uids, gids) net resolv holder now in
        (r.state ≡ ready) × IsMapped r.userns_mode_pod r.userns_uid_mappings r.userns_gid_mappings
  unfolding new_sandbox
  new_sandbox_lem id handler c b uids gids (netns, ip) resolv holder now m = (refl, m)

  -- Every record stands under its own id.
  abbrev pub IsFiled : Store → Type 0
  IsFiled s = (j : Bytes) (o : SandboxRecord) → read_sandbox env j s ≡ ok (some o) → o.id ≡ j

  -- What is so behind a new sandbox: its record is there and ready, and no other of its pod is;
  -- behind a failure the database is as it was.
  abbrev pub IsOnlyReady : Store → Result Status Bytes × World env → Type 0
  IsOnlyReady s (err e, w) = w.store ≡ s
  IsOnlyReady s (ok id, w) =
      (r : SandboxRecord) × (read_sandbox env id w.store ≡ ok (some r))
      × (r.id ≡ id)
      × (r.state ≡ ready)
      × IsMapped r.userns_mode_pod r.userns_uid_mappings r.userns_gid_mappings
      × ((j : Bytes) (o : SandboxRecord)
          → j ≢ id
          → read_sandbox env j w.store ≡ ok (some o)
          → SamePod o r
          → o.state ≡ not_ready)

  module _ (ns : IsNamespace env.namespace) (reads : env.reads_ok ≡ true) (back : RoundTrips env)
      (writes : Writes env) where
    recorded-IsOnlyReady :
        (r : SandboxRecord) (w : World env) (s : Store) (others : List SandboxRecord)
        (q : Result Error Unit × Store)
        → q.0 ≡ ok tt
        → q ≡ put_sandbox env r.id r (demote_all env r others w.store)
        → IsFiled w.store
        → listing env w.store ≡ ok others
        → r.state ≡ ready
        → IsMapped r.userns_mode_pod r.userns_uid_mappings r.userns_gid_mappings
        → IsOnlyReady w.store (with_id env r.id (written env w q))
    recorded-IsOnlyReady r w s others (err e, s') h e' filed listed is mapped = absurd (err_ne_ok h)
    recorded-IsOnlyReady r w s others (ok done, s') h e' filed listed is mapped =
        let demotions = demote_all env r others w.store in
        let at : s' ≡ (put_sandbox env r.id r demotions).1 = ap (λ q. q.1) e' in
        (
          r,
          ap (read_sandbox env r.id) at ∙ put_same env ns reads back writes r.id r demotions,
          refl,
          is,
          mapped,
          λ j o ne found. none_left r o (
              (demote_all-IsPending env ns reads back writes r j ne others w.store
                (λ o' h'. (
                  filed j o' h',
                  inr (read-Listed env ns reads back writes j o' w.store others h' listed),
                ))
                o
                (sym (
                    ap (read_sandbox env j) at
                    ∙ put_other env ns reads back r.id j r demotions (λ k. ne (sym k)))
                  ∙ found)).1),
        )

    record_sandbox-IsOnlyReady :
        (r : SandboxRecord) (w : World env) (others : List SandboxRecord)
        → IsFiled w.store
        → listing env w.store ≡ ok others
        → r.state ≡ ready
        → IsMapped r.userns_mode_pod r.userns_uid_mappings r.userns_gid_mappings
        → IsOnlyReady w.store (record_sandbox env r w)
    unfolding record_sandbox
    record_sandbox-IsOnlyReady r w others filed listed is mapped =
        subst
          (λ l. IsOnlyReady w.store (
            with_id env r.id
              (written env w (put_sandbox env r.id r (demote_listed env r l w.store)))))
          (sym listed)
          (recorded-IsOnlyReady r w w.store others _
            (put_sandbox-ok env ns reads back writes r.id r (demote_all env r others w.store)) refl
            filed listed is mapped)

    connected-IsOnlyReady :
        (id handler : Bytes) (c : PodSandboxConfig) (b : Bool) (uids gids : Mappings)
        (w : World env) (others : List SandboxRecord)
        → IsFiled w.store
        → listing env w.store ≡ ok others
        → IsMapped b uids gids
        → (q : Result Status (Bytes × Bytes) × env.Host)
        → IsOnlyReady w.store (connected env id handler c (b, uids, gids) w q)
    connected-IsOnlyReady id handler c b uids gids w others filed listed m (err e, h) = refl
    connected-IsOnlyReady id handler c b uids gids w others filed listed m (ok net, h) =
        let (is, as_mapped) = new_sandbox_lem id handler c b uids gids net _ _ _ m in
        record_sandbox-IsOnlyReady _ _ others filed listed is as_mapped

    mapped-IsOnlyReady :
        (id handler : Bytes) (c : PodSandboxConfig) (w : World env) (others : List SandboxRecord)
        → IsFiled w.store
        → listing env w.store ≡ ok others
        → (u : Result Status (Bool × Mappings × Mappings)) → OfMapped u
        → IsOnlyReady w.store (mapped env id handler c w u)
    mapped-IsOnlyReady id handler c w others filed listed (err e) m = refl
    mapped-IsOnlyReady id handler c w others filed listed (ok (b, uids, gids)) m =
        connected-IsOnlyReady id handler c b uids gids w others filed listed m _

    -- A sandbox that `run_pod_sandbox` answers with is recorded under that id and ready, and no
    -- other sandbox of the same pod, by its name, namespace and uid, is; with a user namespace it
    -- has one mapping of users and one of groups, which start at 0, and without it has none. A
    -- call that fails leaves the database as it was. Conditions: the database works and its
    -- sandboxes can be listed, each stands under its own id, serde_json writes every record and
    -- reads it back, and the namespace has no slash.
    pub run_pod_sandbox-IsOnlyReady :
        (config : Option PodSandboxConfig) (handler : Bytes) (w : World env)
        (others : List SandboxRecord)
        → IsFiled w.store
        → listing env w.store ≡ ok others
        → IsOnlyReady w.store (run_pod_sandbox env config handler w)
    unfolding run_pod_sandbox
    run_pod_sandbox-IsOnlyReady none handler w others filed listed = refl
    run_pod_sandbox-IsOnlyReady (some c) handler w others filed listed =
        mapped-IsOnlyReady _ handler c _ others filed listed _
          (userns_of-OfMapped (and_some (ns_options c) (λ n. n.userns_options)))
