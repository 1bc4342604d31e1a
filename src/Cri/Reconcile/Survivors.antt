-- ===== src/Cri/Reconcile/Survivors.antt =====
-- crates/cri/src/server.rs: running containers survive a reconcile.
use containerd_rs.Base.{
  ◌≡◌, ◌≢◌, refl, sym, subst, ◌∙◌, List, [], ◌∷◌, length, Bytes, Bool, true, some, Result, ok, err,
  str_eq, str_eq_iff, Bool-cases, inl, inr,
}
use mathlib.Core.Bool.{false≢true}
use containerd_rs.Metadata.Records.{SandboxRecord, ContainerRecord}
use containerd_rs.Metadata.Store.{Store, Error, container, sandbox, put, list}
use containerd_rs.Runtime.{RuntimeState, is_running}
use containerd_rs.Cri.Reconcile.{
  Verdict, readopt, reap, mark_unknown, is_running_state, updated, judge, deleted, State, recorded,
  Env, and_then, settle, reconcile_container, reconcile_all, start, reported, reconcile_listed,
  reconcile,
}

module _ (env : Env) where
  crun-settle :
      (c : ContainerRecord) (v : Verdict) (s : State env)
      → (settle env c v s).1.crun ≡ deleted env v c.id s.crun
  unfolding settle
  crun-settle c v s = crun-recorded (
      put env.to_vec env.from_slice (env.db_ok c.id) container env.namespace c.id
        (updated env.root (env.now c.id) v c) s.store)
    where
      crun-recorded :
          (p : Result Error Unit × Store)
          → (recorded env v (record s { crun = deleted env v c.id s.crun }) p).1.crun
            ≡ deleted env v c.id s.crun
      crun-recorded (err e, t) = refl
      crun-recorded (ok done, t) = refl

  module _ (i : Bytes) (st : RuntimeState) (alive : is_running st ≡ true) where
    deleted_spares :
        (v : Verdict) (id : Bytes) (w : env.Crun)
        → id ≢ i
        → env.probe (deleted env v id w) i ≡ env.probe w i
    deleted_spares (readopt t) id w ne = refl
    deleted_spares reap id w ne = env.probe-delete w id i ne
    deleted_spares mark_unknown id w ne = env.probe-delete w id i ne

    judge_spares :
        (id : Bytes) (w : env.Crun)
        → env.probe w i ≡ ok (some st)
        → env.probe (deleted env (judge env (env.probe w id)) id w) i ≡ ok (some st)
    unfolding judge
    judge_spares id w found = elim (Bool-cases (str_eq id i)) [
      | inl e ↦
          subst (λ j. env.probe (deleted env (judge env (env.probe w j)) j w) i ≡ ok (some st))
            (sym ((str_eq_iff id i).0 e)) (rw (found, alive) found)
      | inr e ↦
          deleted_spares (judge env (env.probe w id)) id w
            (λ same. false≢true (sym e ∙ (str_eq_iff id i).1 same))
          ∙ found
    ]

    container_spares :
        (c : ContainerRecord) (s : State env)
        → env.probe s.crun i ≡ ok (some st)
        → env.probe (reconcile_container env c s).1.crun i ≡ ok (some st)
    unfolding reconcile_container
    container_spares c s found = elim (Bool-cases (is_running_state c.state)) [
      | inl e ↦
          rw (e, crun-settle c (judge env (env.probe s.crun c.id)) s)
            (judge_spares c.id s.crun found)
      | inr e ↦ rw e found
    ]

    then_spares :
        (p : Result Error Unit × State env) (more : State env → Result Error Unit × State env)
        → ((s : State env)
            → env.probe s.crun i ≡ ok (some st)
            → env.probe (more s).1.crun i ≡ ok (some st))
        → env.probe p.1.crun i ≡ ok (some st)
        → env.probe (and_then env p more).1.crun i ≡ ok (some st)
    then_spares (err e, s') more keeps found = found
    then_spares (ok done, s') more keeps found = keeps s' found

    all_spares :
        (cs : List ContainerRecord) (s : State env)
        → env.probe s.crun i ≡ ok (some st)
        → env.probe (reconcile_all env cs s).1.crun i ≡ ok (some st)
    unfolding reconcile_all
    all_spares [] s found = found
    all_spares (c ∷ cs) s found =
        then_spares (reconcile_container env c s) (reconcile_all env cs) (all_spares cs)
          (container_spares c s found)

    crun-reported : (p : Result Error Unit × State env) → (reported env p).1.crun ≡ p.1.crun
    crun-reported (err e, s) = refl
    crun-reported (ok done, s) = refl

    listed_spares :
        (sandboxes : Result Error (List SandboxRecord))
        (containers : Result Error (List ContainerRecord)) (store : Store) (crun : env.Crun)
        → env.probe crun i ≡ ok (some st)
        → env.probe (reconcile_listed env sandboxes containers store crun).1.crun i ≡ ok (some st)
    listed_spares (err e) cs store crun found = found
    listed_spares (ok ss) (err e) store crun found = found
    listed_spares (ok ss) (ok cs) store crun found =
        rw (crun-reported (reconcile_all env cs (start env (length ss) (length cs) store crun)))
          (all_spares cs (start env (length ss) (length cs) store crun) found)

    -- A container that crun reports as running before a reconcile is reported the same behind it,
    -- whatever the records say and however the database fails: it is not deleted.
    pub reconcile_spares :
        (read_ok : Bool) (store : Store) (crun : env.Crun)
        → env.probe crun i ≡ ok (some st)
        → env.probe (reconcile env read_ok store crun).1.crun i ≡ ok (some st)
    unfolding reconcile
    reconcile_spares read_ok store crun found =
        listed_spares
          (list env.sandbox_to_vec env.sandbox_from_slice read_ok sandbox env.namespace store)
          (list env.to_vec env.from_slice read_ok container env.namespace store) store crun found
