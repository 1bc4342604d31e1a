-- ===== src/Cri/Reconcile/Records.antt =====
-- crates/cri/src/server.rs: what a reconcile writes for a container.
use containerd_rs.Base.{ℕ, ◌≡◌, refl, ap, Bytes, true, some, Result, ok, err, str_eq_refl}
use containerd_rs.Metadata.Records.{running, ContainerRecord, can_transition_to}
use containerd_rs.Metadata.Store.{Store, Error, container, put, get}
use containerd_rs.Metadata.Store.Isolation.{IsNamespace, get-put}
use containerd_rs.Cri.Reconcile.{
  Env, Verdict, readopt, reap, mark_unknown, is_running_state, updated, judge, State, recorded,
  deleted, settle, reconcile_container,
}

updated-legal :
    (root : Bytes) (n : ℕ) (v : Verdict) (c : ContainerRecord)
    → c.state ≡ running
    → can_transition_to c.state (updated root n v c).state ≡ true
unfolding updated can_transition_to
updated-legal root n (readopt st) c e = rw e refl
updated-legal root n reap c e = rw e refl
updated-legal root n mark_unknown c e = rw e refl

module _ (env : Env) where
  store-recorded :
      (v : Verdict) (s : State env) (p : Result Error Unit × Store)
      → (recorded env v s p).1.store ≡ p.1
  store-recorded v s (err e, t) = refl
  store-recorded v s (ok done, t) = refl

  -- The record of a container that was running is replaced by the one of the branch that the probe
  -- selects, and its new state is a legal successor, where the write succeeds and the record is one
  -- that serde_json reads back.
  pub reconcile_container_stores :
      (c : ContainerRecord) (s : State env) (bytes : Bytes)
      → c.state ≡ running
      → env.db_ok c.id ≡ true
      → IsNamespace env.namespace
      → let c' = updated env.root (env.now c.id) (judge env (env.probe s.crun c.id)) c in
        env.to_vec c' ≡ ok bytes
        → env.from_slice bytes ≡ ok c'
        → (get env.to_vec env.from_slice true container env.namespace c.id
              (reconcile_container env c s).1.store
            ≡ ok (some c'))
          × (can_transition_to c.state c'.state ≡ true)
  unfolding reconcile_container settle
  reconcile_container_stores c s bytes e works ns vec back =
      let v = judge env (env.probe s.crun c.id) in
      let c' = updated env.root (env.now c.id) v c in
      (
        rw
            (
              ap is_running_state e,
              store-recorded v (record s { crun = deleted env v c.id s.crun })
                  (put env.to_vec env.from_slice (env.db_ok c.id) container env.namespace c.id c'
                    s.store),
              works,
              get-put env.to_vec env.from_slice container env.namespace env.namespace ns ns c.id
                  c.id c' bytes s.store vec back,
              str_eq_refl env.namespace,
              str_eq_refl c.id,
            )
            refl,
        updated-legal env.root (env.now c.id) v c e,
      )
