-- ===== src/Cri/Containers/Stopped.antt =====
-- crates/cri/src/server.rs: what a stop leaves, whatever other tasks do while it waits.
use containerd_rs.Base.{
  ◌≡◌, refl, subst, ap, sym, ℤ, Bytes, Bool, true, false, Option, none, some, Result, ok, err,
  if◌then◌else◌,
}
use containerd_rs.Metadata.Records.{
  ContainerState, created, running, exited, unknown, ContainerRecord,
}
use containerd_rs.Metadata.Store.{Store, Error}
use containerd_rs.Metadata.Store.Isolation.{IsNamespace}
use containerd_rs.Cri.Service.{
  Status, Env, World, internal_of, read_container, put_container, get_container, written, emit_ok,
  stopped_event,
}
use containerd_rs.Cri.Containers.{
  is_exited, Pauses, forced_record, force_exit, end_container, stopped, stop_container,
}
use containerd_rs.Cri.Containers.Stored.{
  RoundTrips, Writes, Wrote, put_container-Wrote, put_container-ok,
}

-- The record is gone, cannot be read, or says that the container has exited.
abbrev pub IsStopped : Result Error (Option ContainerRecord) → Type 0
IsStopped (err e) = Unit
IsStopped (ok none) = Unit
IsStopped (ok (some r)) = r.state ≡ exited

is_exited-eq : (s : ContainerState) → is_exited s ≡ true → s ≡ exited
is_exited-eq created h = cc
is_exited-eq running h = cc
is_exited-eq exited h = refl
is_exited-eq unknown h = cc

module _ (env : Env) where
  -- A stop that answers with success has stopped the container, and has told so.
  abbrev pub HasStopped : Bytes → World env → Result Status Unit × World env → Type 0
  HasStopped id w (r, w') = (r ≡ ok tt) × IsStopped (read_container env id w'.store)

  -- A call that leaves the database and the host as they were.
  abbrev pub IsIdle : World env → World env → Type 0
  IsIdle w w' = (w'.store ≡ w.store) × (w'.host ≡ w.host)

  emit_ok-IsIdle :
      (id : Bytes) (w : World env) (q : Result Status Unit × World env)
      → IsIdle w q.1
      → IsIdle w (emit_ok env id stopped_event q).1
  emit_ok-IsIdle id w (err e, w') h = h
  emit_ok-IsIdle id w (ok done, w') h = h

  again_if-IsIdle :
      (id : Bytes) (w : World env) (b : Bool) (q : Result Status Unit × World env)
      → b ≡ true
      → IsIdle w (if b then (ok tt, w) else q).1
  again_if-IsIdle id w true q h = (refl, refl)
  again_if-IsIdle id w false q h = cc

  again-IsIdle :
      (id : Bytes) (timeout : ℤ) (p : Pauses env) (w : World env)
      (q : Result Error (Option ContainerRecord))
      → IsStopped q
      → IsIdle w (stopped env id timeout p w (internal_of env q)).1
  again-IsIdle id timeout p w (err e) h = (refl, refl)
  again-IsIdle id timeout p w (ok none) h = (refl, refl)
  again-IsIdle id timeout p w (ok (some r)) h =
      again_if-IsIdle id w (is_exited r.state) _ (ap is_exited h)

  stop_again-IsIdle :
      (id : Bytes) (timeout : ℤ) (p : Pauses env) (w : World env)
      → IsStopped (read_container env id w.store)
      → IsIdle w (stop_container env id timeout p w).1
  unfolding stop_container get_container
  stop_again-IsIdle id timeout p w h = emit_ok-IsIdle id w _ (again-IsIdle id timeout p w _ h)

  module _ (ns : IsNamespace env.namespace) (reads : env.reads_ok ≡ true) (back : RoundTrips env)
      (writes : Writes env) (id : Bytes) where
    written-HasStopped :
        (r : ContainerRecord) (w : World env) (q : Result Error Unit × Store)
        → Wrote env id r w.store q
        → q.0 ≡ ok tt
        → r.state ≡ exited
        → HasStopped id w (written env w q)
    written-HasStopped r w (err e, s) wrote h k = cc
    written-HasStopped r w (ok done, s) wrote h k = (refl, subst IsStopped (sym wrote) k)

    forced_if-HasStopped :
        (r : ContainerRecord) (w : World env) (b : Bool)
        → read_container env id w.store ≡ ok (some r)
        → is_exited r.state ≡ b
        → HasStopped id w (
            if b
            then (ok tt, w)
            else written env w (put_container env id (forced_record env w.host r) w.store))
    unfolding forced_record
    forced_if-HasStopped r w true h e = (refl, subst IsStopped (sym h) (is_exited-eq r.state e))
    forced_if-HasStopped r w false h e =
        written-HasStopped (forced_record env w.host r) w _
          (put_container-Wrote env ns reads back id (forced_record env w.host r) w.store)
          (put_container-ok env ns reads back writes id (forced_record env w.host r) w.store) refl

    force_exit-HasStopped :
        (w : World env) (q : Result Error (Option ContainerRecord))
        → read_container env id w.store ≡ q
        → HasStopped id w (force_exit env id w q)
    unfolding force_exit
    force_exit-HasStopped w (err e) h = (refl, subst IsStopped (sym h) tt)
    force_exit-HasStopped w (ok none) h = (refl, subst IsStopped (sym h) tt)
    force_exit-HasStopped w (ok (some r)) h = forced_if-HasStopped r w (is_exited r.state) h refl

    end_container-HasStopped :
        (timeout : ℤ) (p : Pauses env) (w : World env)
        → HasStopped id w (end_container env id timeout p w)
    unfolding end_container
    end_container-HasStopped timeout p w = force_exit-HasStopped _ _ refl

    emitted-HasStopped :
        (w : World env) (q : Result Status Unit × World env)
        → HasStopped id w q
        → HasStopped id w (emit_ok env id stopped_event q)
    emitted-HasStopped w (err e, w') (h, k) = cc
    emitted-HasStopped w (ok done, w') (h, k) = (refl, k)

    stopped_if-HasStopped :
        (timeout : ℤ) (p : Pauses env) (r : ContainerRecord) (w : World env) (b : Bool)
        → read_container env id w.store ≡ ok (some r)
        → is_exited r.state ≡ b
        → HasStopped id w (if b then (ok tt, w) else end_container env id timeout p w)
    stopped_if-HasStopped timeout p r w true h e =
        (refl, subst IsStopped (sym h) (is_exited-eq r.state e))
    stopped_if-HasStopped timeout p r w false h e = end_container-HasStopped timeout p w

    stopped-HasStopped :
        (timeout : ℤ) (p : Pauses env) (w : World env) (q : Option ContainerRecord)
        → read_container env id w.store ≡ ok q
        → HasStopped id w (stopped env id timeout p w (internal_of env (ok q)))
    stopped-HasStopped timeout p w none h = (refl, subst IsStopped (sym h) tt)
    stopped-HasStopped timeout p w (some r) h =
        stopped_if-HasStopped timeout p r w (is_exited r.state) h refl

    -- A stop succeeds, and behind it the container's record says that it has exited, or there is
    -- no record that can be read: for every timeout, and whatever other tasks do to the host and
    -- the database while it waits. A second stop leaves the database and the host as they are.
    -- Conditions: the record could be read, or there was none; reads and writes of the database work,
    -- serde_json writes every record and reads it back, and the namespace has no slash.
    pub stop_container-HasStopped :
        (timeout timeout' : ℤ) (p p' : Pauses env) (w : World env) (found : Option ContainerRecord)
        → read_container env id w.store ≡ ok found
        → let (r, w') = stop_container env id timeout p w in
          HasStopped id w (r, w') × IsIdle w' (stop_container env id timeout' p' w').1
    unfolding stop_container get_container
    stop_container-HasStopped timeout timeout' p p' w found h =
        let stopped_now = emitted-HasStopped w _ (
          subst (λ q. HasStopped id w (stopped env id timeout p w (internal_of env q))) (sym h)
            (stopped-HasStopped timeout p w found h)) in
        (stopped_now, stop_again-IsIdle id timeout' p' _ stopped_now.1)
