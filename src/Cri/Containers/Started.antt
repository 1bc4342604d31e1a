-- ===== src/Cri/Containers/Started.antt =====
-- crates/cri/src/server.rs: when a start launches a container, and what it leaves when it does not.
use containerd_rs.Base.{
  ◌≡◌, refl, subst, ap, ◌⊎◌, inl, inr, Bytes, Bool, true, false, not, Option, none, some, Result,
  ok, err, if◌then◌else◌,
}
use containerd_rs.Metadata.Records.{
  ContainerState, created, running, exited, unknown, ContainerRecord,
}
use containerd_rs.Metadata.Store.{Store, Error}
use containerd_rs.Metadata.Store.Isolation.{IsNamespace}
use containerd_rs.Cri.Service.{
  Status, Env, World, internal_of, or_missing, read_container, get_container, written, crun_root,
}
use containerd_rs.Cri.Containers.{
  is_created, missing, started_record, launch_of, launched, prepared, started, start_container,
}
use containerd_rs.Cri.Containers.Stored.{RoundTrips, Wrote, put_container-Wrote}

pub is_created-eq : (s : ContainerState) → is_created s ≡ true → s ≡ created
is_created-eq created h = refl
is_created-eq running h = cc
is_created-eq exited h = cc
is_created-eq unknown h = cc

module _ (env : Env) where
  -- The host once the root directory of crun has been asked for.
  abbrev pub made : World env → env.Host
  made w = (env.create_dir_all (crun_root env) w.host).1

  -- What a start has done, by its answer.
  abbrev pub Starts : Bytes → World env → Result Status Unit × World env → Type 0
  Starts id w (err e, w') = (w'.store ≡ w.store) × ((w'.host ≡ w.host) ⊎ (w'.host ≡ made w))
  Starts id w (ok done, w') =
      (r : ContainerRecord) × (read_container env id w.store ≡ ok (some r))
      × (r.state ≡ created)
      × (env.has_config id w.host ≡ true)
      × (read_container env id w'.store ≡ ok (some (started_record env id (made w) r)))
      × (w'.host ≡ env.await_registered id (env.launch (launch_of env id (made w) r) (made w)))

  module _ (ns : IsNamespace env.namespace) (reads : env.reads_ok ≡ true) (back : RoundTrips env)
      (id : Bytes) where
    launched-Starts :
        (r : ContainerRecord) (w : World env) (h : env.Host) (q : Result Error Unit × Store)
        → h ≡ made w
        → read_container env id w.store ≡ ok (some r)
        → r.state ≡ created
        → env.has_config id w.host ≡ true
        → Wrote env id (started_record env id h r) w.store q
        → Starts id w
            (launched env id (launch_of env id h r) (written env (record w { host = h }) q))
    launched-Starts r w h (err e, s) m found new config wrote = (wrote, inr m)
    launched-Starts r w h (ok done, s) m found new config wrote = (
      r,
      found,
      new,
      config,
      subst (λ k. read_container env id s ≡ ok (some (started_record env id k r))) m wrote,
      ap (λ k. env.await_registered id (env.launch (launch_of env id k r) k)) m,
    )

    prepared-Starts :
        (r : ContainerRecord) (w : World env) (p : Result Bytes Unit × env.Host)
        → p.1 ≡ made w
        → read_container env id w.store ≡ ok (some r)
        → r.state ≡ created
        → env.has_config id w.host ≡ true
        → Starts id w (prepared env id r w p)
    prepared-Starts r w (err e, h) m found new config = (refl, inr m)
    prepared-Starts r w (ok done, h) m found new config =
        launched-Starts r w h _ m found new config
          (put_container-Wrote env ns reads back id (started_record env id h r) w.store)

    guards-Starts :
        (r : ContainerRecord) (w : World env) (e e' : Status) (b d : Bool)
        → read_container env id w.store ≡ ok (some r)
        → is_created r.state ≡ b
        → env.has_config id w.host ≡ d
        → Starts id w (
            if not b
            then (err e, w)
            else if not d
            then (err e', w)
            else prepared env id r w (env.create_dir_all (crun_root env) w.host))
    guards-Starts r w e e' false d found new config = (refl, inl refl)
    guards-Starts r w e e' true false found new config = (refl, inl refl)
    guards-Starts r w e e' true true found new config =
        prepared-Starts r w _ refl found (is_created-eq r.state new) config

    started-Starts :
        (w : World env) (q : Result Error (Option ContainerRecord))
        → read_container env id w.store ≡ q
        → Starts id w (started env id w (or_missing env (missing id) (internal_of env q)))
    started-Starts w (err e) h = (refl, inl refl)
    started-Starts w (ok none) h = (refl, inl refl)
    started-Starts w (ok (some r)) h =
        guards-Starts r w _ _ (is_created r.state) (env.has_config id w.host) h refl refl

    -- A start that answers with success found the container's record in the state created and its
    -- config.json in place, has recorded it as running with its start and the places that a restart
    -- needs, and has launched it. One that fails has left the database as it was and has launched
    -- nothing: the host is untouched, up to the root directory of crun. Conditions: reads of the
    -- database work, what serde_json writes it reads back, and the namespace has no slash.
    pub start_container-Starts : (w : World env) → Starts id w (start_container env id w)
    unfolding start_container get_container
    start_container-Starts w = started-Starts w (read_container env id w.store) refl
