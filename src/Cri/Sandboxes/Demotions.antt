-- ===== src/Cri/Sandboxes/Demotions.antt =====
-- crates/cri/src/server.rs: the loop of `run_pod_sandbox` over the recorded sandboxes.
use containerd_rs.Base.{
  ◌≡◌, ◌≢◌, refl, subst, ap, sym, ◌∙◌, ◌⊎◌, inl, inr, List, [], ◌∷◌, Bytes, Bool, true, false, not,
  ◌&&◌, Option, some, Result, ok, if◌then◌else◌, str_eq, str_eq_iff, str_eq_ne, Listed, here, there,
  Bool-cases, arith,
}
use containerd_rs.Metadata.Records.{SandboxState, ready, not_ready, SandboxRecord}
use containerd_rs.Metadata.Store.{Store, Error, sandbox, list}
use containerd_rs.Metadata.Store.Isolation.{IsNamespace}
use containerd_rs.Metadata.Store.Lists.{get-Listed}
use containerd_rs.Cri.Service.{Env, read_sandbox, put_sandbox}
use containerd_rs.Cri.Sandboxes.Stored.{RoundTrips, Writes, put_same, put_other}
use containerd_rs.Cri.Sandboxes.{is_ready, is_superseded, demoted, demote_all}

str_ne : (a b : Bytes) → str_eq a b ≡ false → a ≢ b
str_ne a b h e = let k = (str_eq_iff a b).1 e in cc

-- Two records of one pod.
abbrev pub SamePod : SandboxRecord → SandboxRecord → Type 0
SamePod o r = (o.name ≡ r.name) × (o.k8s_namespace ≡ r.k8s_namespace) × (o.uid ≡ r.uid)

only_ready :
    (a b c d e : Bool)
    → a ≡ false
    → c ≡ true
    → d ≡ true
    → e ≡ true
    → (not a && b && c && d && e) ≡ false
    → b ≡ false
only_ready a b c d e ha hc hd he k = ground arith

is_ready-eq : (s : SandboxState) → is_ready s ≡ false → s ≡ not_ready
is_ready-eq ready e = cc
is_ready-eq not_ready e = refl

-- A record of the same pod under another id that is not superseded is not ready.
unready :
    (r o : SandboxRecord)
    → o.id ≢ r.id
    → SamePod o r
    → is_superseded r o ≡ false
    → o.state ≡ not_ready
unfolding is_superseded
unready r o ne (a, b, c) h = is_ready-eq o.state (
    only_ready (str_eq o.id r.id) (is_ready o.state) _ _ _ (str_eq_ne o.id r.id ne)
      ((str_eq_iff o.name r.name).1 a) ((str_eq_iff o.k8s_namespace r.k8s_namespace).1 b)
      ((str_eq_iff o.uid r.uid).1 c) h)

pub none_left :
    (r o : SandboxRecord)
    → ((SamePod o r → o.state ≡ not_ready) ⊎ Listed o [])
    → SamePod o r
    → o.state ≡ not_ready
none_left r o (inl h) = h
none_left r o (inr h) = elim h [ ]

module _ (env : Env) where
  abbrev pub listing : Store → Result Error (List SandboxRecord)
  listing s = list env.sandbox_to_vec env.sandbox_from_slice env.reads_ok sandbox env.namespace s

  module _ (ns : IsNamespace env.namespace) (reads : env.reads_ok ≡ true) (back : RoundTrips env)
      (writes : Writes env) where
    module _ (r : SandboxRecord) (j : Bytes) (ne : j ≢ r.id) where
      -- The record under the id is that of another pod, not ready, or one of those to come.
      abbrev pub IsPending : List SandboxRecord → Store → Type 0
      IsPending others s =
          (o : SandboxRecord)
          → read_sandbox env j s ≡ ok (some o)
          → (o.id ≡ j) × ((SamePod o r → o.state ≡ not_ready) ⊎ Listed o others)

      found_eq :
          (o x : SandboxRecord) (q : Result Error (Option SandboxRecord))
          → q ≡ ok (some x)
          → q ≡ ok (some o)
          → x ≡ o
      found_eq o x q h k = let e = sym h ∙ k in cc

      -- The step of the loop for the record under the id itself, which it stands for.
      rest_of :
          (o x : SandboxRecord) (others : List SandboxRecord)
          → (x.id ≡ o.id → SamePod x r → x.state ≡ not_ready)
          → Listed o (x ∷ others)
          → (SamePod o r → o.state ≡ not_ready) ⊎ Listed o others
      rest_of o x others done here = inl (done refl)
      rest_of o x others done (there more) = inr more

      settled :
          (o x : SandboxRecord) (others : List SandboxRecord)
          → (x.id ≡ o.id → SamePod x r → x.state ≡ not_ready)
          → ((SamePod o r → o.state ≡ not_ready) ⊎ Listed o (x ∷ others))
          → (SamePod o r → o.state ≡ not_ready) ⊎ Listed o others
      settled o x others done (inl h) = inl h
      settled o x others done (inr listed) = rest_of o x others done listed

      -- One round of the loop.
      abbrev stored : SandboxRecord → Bool → Store → Store
      stored x b s = if b then (put_sandbox env x.id (demoted x) s).1 else s

      round-IsPending :
          (x : SandboxRecord) (others : List SandboxRecord) (s : Store) (b : Bool)
          → is_superseded r x ≡ b
          → IsPending (x ∷ others) s
          → IsPending others (stored x b s)
      round-IsPending x others s false spared p o h =
          let (at, q) = p o h in
          (
            at,
            settled o x others
                (λ same pod. unready r x (λ e. ne (sym at ∙ (sym same ∙ e))) pod spared) q,
          )
      round-IsPending x others s true gone p o h = elim (Bool-cases (str_eq x.id j)) [
        | inl e ↦
            let same = (str_eq_iff x.id j).0 e in
            let is_demoted =
              found_eq o (demoted x) _ (put_same env ns reads back writes x.id (demoted x) s)
                (subst (λ i. read_sandbox env i (stored x true s) ≡ ok (some o)) (sym same) h) in
            (
              sym (ap (λ (q : SandboxRecord). q.id) is_demoted) ∙ same,
              inl (λ pod. sym (ap (λ (q : SandboxRecord). q.state) is_demoted)),
            )
        | inr e ↦
            let other = str_ne x.id j e in
            let (at, q) = p o (sym (put_other env ns reads back x.id j (demoted x) s other) ∙ h) in
            (at, settled o x others (λ same. absurd (other (same ∙ at))) q)
      ]

      pub demote_all-IsPending :
          (others : List SandboxRecord) (s : Store)
          → IsPending others s
          → IsPending [] (demote_all env r others s)
      unfolding demote_all
      demote_all-IsPending [] s p = p
      demote_all-IsPending (x ∷ others) s p =
          demote_all-IsPending others _ (round-IsPending x others s (is_superseded r x) refl p)

    pub read-Listed :
        (j : Bytes) (o : SandboxRecord) (s : Store) (others : List SandboxRecord)
        → read_sandbox env j s ≡ ok (some o)
        → listing s ≡ ok others
        → Listed o others
    unfolding read_sandbox
    read-Listed j o s others =
        get-Listed env.sandbox_to_vec env.sandbox_from_slice env.namespace ns sandbox env.reads_ok j
          o s others
