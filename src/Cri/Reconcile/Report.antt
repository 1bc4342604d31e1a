-- ===== src/Cri/Reconcile/Report.antt =====
-- crates/cri/src/server.rs: the report of a reconcile is complete.
use containerd_rs.Base.{
  ℕ, suc, ◌+◌, ◌≡◌, refl, sym, ap, subst, ◌∙◌, List, [], ◌∷◌, length, true, Result, ok, err,
  Bool-cases, inl, inr, arith, if◌then◌else◌,
}
use containerd_rs.Metadata.Records.{SandboxRecord, ContainerRecord}
use containerd_rs.Metadata.Store.{Store, Error, container, sandbox, put, list}
use containerd_rs.Cri.Reconcile.{
  ReconcileReport, Verdict, readopt, reap, mark_unknown, is_running_state, updated, counted, judge,
  deleted, State, recorded, Env, and_then, settle, reconcile_container, reconcile_all, start,
  reported, reconcile,
}

abbrev pub total : ReconcileReport → ℕ
total r = r.readopted + r.reaped + r.marked_unknown

-- How many of the records are of running containers.
unfoldable pub running_count : List ContainerRecord → ℕ
running_count [] = 0
running_count (c ∷ cs) =
    let rest = running_count cs in if is_running_state c.state then suc rest else rest

total-counted : (v : Verdict) (r : ReconcileReport) → total (counted v r) ≡ suc (total r)
total-counted (readopt st) r = omega arith
total-counted reap r = omega arith
total-counted mark_unknown r = omega arith

module _ (env : Env) where
  -- The report grows by the containers that were running.
  recorded-total :
      (v : Verdict) (s s' : State env) (p : Result Error Unit × Store)
      → recorded env v s p ≡ (ok tt, s')
      → total s'.report ≡ suc (total s.report)
  recorded-total v s s' (err e, t) h = absurd (err_ne_ok e (ap (λ q. q.0) h))
    where
      err_ne_ok : (e : Error) → ¬ (◌≡◌ {A = Result Error Unit} (err e) (ok tt))
      err_ne_ok e k = cc
  recorded-total v s s' (ok done, t) h =
      sym (ap (λ q. total q.1.report) h) ∙ total-counted v s.report

  container-total :
      (c : ContainerRecord) (s s' : State env)
      → reconcile_container env c s ≡ (ok tt, s')
      → total s'.report ≡ running_count (c ∷ []) + total s.report
  unfolding reconcile_container settle running_count
  container-total c s s' h = elim (Bool-cases (is_running_state c.state)) [
    | inl e ↦
        let v = judge env (env.probe s.crun c.id) in
        let p =
          put env.to_vec env.from_slice (env.db_ok c.id) container env.namespace c.id
            (updated env.root (env.now c.id) v c) s.store in
        let grown =
          recorded-total v (record s { crun = deleted env v c.id s.crun }) s' p (rw e at h) in
        rw e (omega (arith, grown))
    | inr e ↦ let same = ap (λ q. total q.1.report) (rw e at h) in rw e (omega (arith, same))
  ]

  then-total :
      (n m : ℕ) (p : Result Error Unit × State env)
      (more : State env → Result Error Unit × State env) (s s' : State env)
      → ((t : State env) → p ≡ (ok tt, t) → total t.report ≡ n + total s.report)
      → ((t : State env) → more t ≡ (ok tt, s') → total s'.report ≡ m + total t.report)
      → and_then env p more ≡ (ok tt, s')
      → total s'.report ≡ m + (n + total s.report)
  then-total n m (err e, t) more s s' first rest h = absurd (err_ne_ok e (ap (λ q. q.0) h))
    where
      err_ne_ok : (e : Error) → ¬ (◌≡◌ {A = Result Error Unit} (err e) (ok tt))
      err_ne_ok e k = cc
  then-total n m (ok done, t) more s s' first rest h = rw (rest t h, first t refl) refl

  all-total :
      (cs : List ContainerRecord) (s s' : State env)
      → reconcile_all env cs s ≡ (ok tt, s')
      → total s'.report ≡ running_count cs + total s.report
  unfolding reconcile_all running_count
  all-total [] s s' h = let same = ap (λ q. total q.1.report) h in omega (arith, same)
  all-total (c ∷ cs) s s' h =
      let sum =
        then-total (running_count (c ∷ [])) (running_count cs) (reconcile_container env c s)
          (reconcile_all env cs) s s' (λ t. container-total c s t) (λ t. all-total cs t s') h in
      ground (arith, sum)

  reported-total :
      (n : ℕ) (p : Result Error Unit × State env) (r : ReconcileReport) (s' : State env)
      → ((t : State env) → p ≡ (ok tt, t) → total t.report ≡ n)
      → reported env p ≡ (ok r, s')
      → total r ≡ n
  reported-total n (err e, t) r s' sum h = absurd (err_ne_ok e r (ap (λ q. q.0) h))
    where
      err_ne_ok :
          (e : Error) (r : ReconcileReport)
          → ¬ (◌≡◌ {A = Result Error ReconcileReport} (err e) (ok r))
      err_ne_ok e r k = cc
  reported-total n (ok done, t) r s' sum h =
      subst (λ q. total q ≡ n) (ok_injective t.report r (ap (λ q. q.0) h)) (sum t refl)
    where
      ok_injective :
          (q r : ReconcileReport) → ◌≡◌ {A = Result Error ReconcileReport} (ok q) (ok r) → q ≡ r
      ok_injective q r k = cc

  all-total-start :
      (n : ℕ) (store : Store) (crun : env.Crun) (cs : List ContainerRecord) (t : State env)
      → reconcile_all env cs (start env n (length cs) store crun) ≡ (ok tt, t)
      → total t.report ≡ running_count cs
  all-total-start n store crun cs t k =
      let sum = all-total cs (start env n (length cs) store crun) t k in omega (arith, sum)

  -- A reconcile that succeeds has counted every container whose record was running exactly once: as
  -- re-adopted, reaped or marked unknown.
  pub reconcile-total :
      (sandboxes : List SandboxRecord) (cs : List ContainerRecord) (store : Store) (crun : env.Crun)
      (r : ReconcileReport) (s' : State env)
      → list env.sandbox_to_vec env.sandbox_from_slice true sandbox env.namespace store
        ≡ ok sandboxes
      → list env.to_vec env.from_slice true container env.namespace store ≡ ok cs
      → reconcile env true store crun ≡ (ok r, s')
      → r.readopted + r.reaped + r.marked_unknown ≡ running_count cs
  unfolding reconcile
  reconcile-total sandboxes cs store crun r s' e e' h =
      reported-total (running_count cs)
        (reconcile_all env cs (start env (length sandboxes) (length cs) store crun)) r s'
        (λ t k. all-total-start (length sandboxes) store crun cs t k) (rw (e, e') at h)
