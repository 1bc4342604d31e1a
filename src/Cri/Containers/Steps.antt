-- ===== src/Cri/Containers/Steps.antt =====
-- crates/cri/src/server.rs: what one call of the runtime service does to the record of a container, with
-- what is read of it before and behind the call.
use containerd_rs.Base.{
  ◌≡◌, ◌≢◌, refl, subst, sym, ◌∙◌, inl, inr, ℤ, Bytes, Bool, true, false, not, Option, none, some,
  Result, ok, err, if◌then◌else◌, str_eq,
}
use containerd_rs.Metadata.Records.{
  ContainerState, created, running, exited, unknown, ContainerRecord,
}
use containerd_rs.Metadata.Store.{Store, Error, container, delete}
use containerd_rs.Metadata.Store.Isolation.{IsNamespace}
use containerd_rs.Cri.Convert.{LinuxContainerResources, resources_record}
use containerd_rs.Cri.Service.{
  Status, Env, World, or_missing, internal_of, read_container, put_container, written, Launch,
}
use containerd_rs.Cri.Containers.{
  is_created, is_exited, launched, missing, started_record, launch_of, prepared, started,
  finished_record, finished, forced_record, force_exit, removed, resized, updated, update_found,
}
use containerd_rs.Cri.Containers.Stored.{RoundTrips, Put, put_container-Put, delete-read}
use containerd_rs.Cri.Containers.Advances.{
  Advances, stays, starts, exits, Follows, Follows-refl, Follows-none, Follows-trans,
}

module _ (env : Env) where
  -- The store behind the last parts of the calls.
  written-store : (w : World env) (q : Result Error Unit × Store) → (written env w q).1.store ≡ q.1
  written-store w (err e, s) = refl
  written-store w (ok done, s) = refl

  launched-store :
      (i : Bytes) (l : Launch) (q : Result Status Unit × World env)
      → (launched env i l q).1.store ≡ q.1.store
  launched-store i l (err e, w) = refl
  launched-store i l (ok done, w) = refl

  pub removed-store :
      (i : Bytes) (w : World env) (q : Result Error Bool × Store)
      → (removed env i w q).1.store ≡ q.1
  removed-store i w (err e, s) = refl
  removed-store i w (ok was, s) = refl

  -- What a later world holds of a record follows what an earlier one held of it.
  unfoldable pub Step : Bytes → World env → World env → Type 0
  Step j w w' = Follows (read_container env j w.store) (read_container env j w'.store)

  -- What happens while a resize waits leaves the record of its own container alone.
  abbrev pub IsQuiet : Bytes → Bytes → (World env → World env) → Type 0
  IsQuiet j i others =
      ((w : World env) → read_container env i (others w).store ≡ read_container env i w.store)
      × ((w : World env) → Step j w (others w))

  module _ (ns : IsNamespace env.namespace) (reads : env.reads_ok ≡ true) (back : RoundTrips env)
      (j : Bytes) where
    -- A write behind a read of the same record.
    split_write :
        (i : Bytes) (r r' : ContainerRecord) (s s' : Store)
        → read_container env i s ≡ ok (some r)
        → Advances r.state r'.state
        → Put env i j r' s s'
        → Follows (read_container env j s) (read_container env j s')
    split_write i r r' s s' h a (inl kept) =
        subst (Follows (read_container env j s)) (sym kept) (Follows-refl (read_container env j s))
    split_write i r r' s s' h a (inr (same, found)) =
        subst (λ q. Follows q (read_container env j s'))
          (sym (subst (λ k. read_container env k s ≡ ok (some r)) same h)) (inr (r', found, a))

    put_Follows :
        (i : Bytes) (r r' : ContainerRecord) (s : Store)
        → read_container env i s ≡ ok (some r)
        → Advances r.state r'.state
        → Follows (read_container env j s) (read_container env j (put_container env i r' s).1)
    put_Follows i r r' s h a =
        split_write i r r' s _ h a (put_container-Put env ns reads back i j r' s)

    pub delete_Follows :
        (i : Bytes) (db_ok : Bool) (s : Store)
        → Follows
            (read_container env j s)
            (read_container env j (delete db_ok container env.namespace i s).1)
    unfolding delete
    delete_Follows i false s = Follows-refl (read_container env j s)
    delete_Follows i true s =
        subst (Follows (read_container env j s)) (sym (delete-read env ns reads back i j s))
          (if_none (str_eq i j))
      where
        if_none :
            (b : Bool)
            → Follows (read_container env j s) (if b then ok none else read_container env j s)
        if_none true = Follows-none (read_container env j s)
        if_none false = Follows-refl (read_container env j s)

    abbrev put_started : Bytes → env.Host → ContainerRecord → World env → Result Error Unit × Store
    put_started i h r w = put_container env i (started_record env i h r) w.store

    prepared-Step :
        (i : Bytes) (r : ContainerRecord) (w : World env) (p : Result Bytes Unit × env.Host)
        → read_container env i w.store ≡ ok (some r)
        → is_created r.state ≡ true
        → Step j w (prepared env i r w p).1
    unfolding Step started_record
    prepared-Step i r w (err e, h) found new = Follows-refl (read_container env j w.store)
    prepared-Step i r w (ok done, h) found new =
        subst (λ s. Follows (read_container env j w.store) (read_container env j s))
          (sym (
            launched-store i (launch_of env i h r)
              (written env (record w { host = h }) (put_started i h r w))
            ∙ written-store (record w { host = h }) (put_started i h r w)))
          (put_Follows i r (started_record env i h r) w.store found (begins r.state new))
      where
        begins : (s : ContainerState) → is_created s ≡ true → Advances s running
        begins created e = starts
        begins running e = stays
        begins exited e = cc
        begins unknown e = cc

    start_guards-Step :
        (i : Bytes) (r : ContainerRecord) (w : World env) (e e' : Status) (b d : Bool)
        → read_container env i w.store ≡ ok (some r)
        → is_created r.state ≡ b
        → (p : Result Bytes Unit × env.Host)
        → Step j w
            (if not b then (err e, w) else if not d then (err e', w) else prepared env i r w p).1
    unfolding Step
    start_guards-Step i r w e e' false d found new p = Follows-refl (read_container env j w.store)
    start_guards-Step i r w e e' true false found new p =
        Follows-refl (read_container env j w.store)
    start_guards-Step i r w e e' true true found new p = prepared-Step i r w p found new

    pub started-Step :
        (i : Bytes) (w : World env) (q : Result Error (Option ContainerRecord))
        → read_container env i w.store ≡ q
        → Step j w (started env i w (or_missing env (missing i) (internal_of env q))).1
    unfolding Step
    started-Step i w (err e) h = Follows-refl (read_container env j w.store)
    started-Step i w (ok none) h = Follows-refl (read_container env j w.store)
    started-Step i w (ok (some r)) h =
        start_guards-Step i r w _ _ (is_created r.state) (env.has_config i w.host) h refl _

    pub finished-Step :
        (i : Bytes) (code : ℤ) (h : env.Host) (s : Store)
        (q : Result Error (Option ContainerRecord))
        → read_container env i s ≡ q
        → Follows (read_container env j s) (read_container env j (finished env i code h q s))
    unfolding finished_record
    finished-Step i code h s (err e) f = Follows-refl (read_container env j s)
    finished-Step i code h s (ok none) f = Follows-refl (read_container env j s)
    finished-Step i code h s (ok (some r)) f =
        put_Follows i r (finished_record env code h r) s f exits

    forced_if-Step :
        (i : Bytes) (r : ContainerRecord) (w : World env) (b : Bool)
        → read_container env i w.store ≡ ok (some r)
        → Step j w
            (if b
              then (ok tt, w)
              else written env w (put_container env i (forced_record env w.host r) w.store)).1
    unfolding Step forced_record
    forced_if-Step i r w true h = Follows-refl (read_container env j w.store)
    forced_if-Step i r w false h =
        subst (λ s. Follows (read_container env j w.store) (read_container env j s))
          (sym (written-store w (put_container env i (forced_record env w.host r) w.store)))
          (put_Follows i r (forced_record env w.host r) w.store h exits)

    pub force_exit-Step :
        (i : Bytes) (w : World env) (q : Result Error (Option ContainerRecord))
        → read_container env i w.store ≡ q
        → Step j w (force_exit env i w q).1
    unfolding Step force_exit
    force_exit-Step i w (err e) h = Follows-refl (read_container env j w.store)
    force_exit-Step i w (ok none) h = Follows-refl (read_container env j w.store)
    force_exit-Step i w (ok (some r)) h = forced_if-Step i r w (is_exited r.state) h

    abbrev with_limits : LinuxContainerResources → ContainerRecord → ContainerRecord
    with_limits l r = record r { resources = some (resources_record l) }

    resized-Step :
        (i : Bytes) (linux : Option LinuxContainerResources) (r : ContainerRecord) (w : World env)
        (q : Result Bytes Unit)
        → read_container env i w.store ≡ ok (some r)
        → Step j w (resized env i linux r w q).1
    unfolding Step
    resized-Step i linux r w (err e) f = Follows-refl (read_container env j w.store)
    resized-Step i none r w (ok done) f = Follows-refl (read_container env j w.store)
    resized-Step i (some l) r w (ok done) f =
        subst (λ s. Follows (read_container env j w.store) (read_container env j s))
          (sym (written-store w (put_container env i (with_limits l r) w.store)))
          (put_Follows i r (with_limits l r) w.store f stays)

    updated-Step :
        (i : Bytes) (linux : Option LinuxContainerResources) (r : ContainerRecord)
        (others : World env → World env) (w : World env) (p : Result Bytes Unit × env.Host)
        → IsQuiet j i others
        → read_container env i w.store ≡ ok (some r)
        → Step j w (updated env i linux r others w p).1
    unfolding Step
    updated-Step i linux r others w (q, h) (quiet, steps) f =
        let w' = others (record w { host = h }) in
        Follows-trans _ (read_container env j w'.store) _ (steps (record w { host = h }))
          (resized-Step i linux r w' q (quiet (record w { host = h }) ∙ f))

    pub update_found-Step :
        (i : Bytes) (linux : Option LinuxContainerResources) (others : World env → World env)
        (w : World env) (q : Result Error (Option ContainerRecord))
        → IsQuiet j i others
        → read_container env i w.store ≡ q
        → Step j w
            (update_found env i linux others w (or_missing env (missing i) (internal_of env q))).1
    unfolding Step
    update_found-Step i linux others w (err e) quiet h = Follows-refl (read_container env j w.store)
    update_found-Step i linux others w (ok none) quiet h =
        Follows-refl (read_container env j w.store)
    update_found-Step i linux others w (ok (some r)) quiet h =
        updated-Step i linux r others w _ quiet h

    pub create-Step :
        (i : Bytes) (r : ContainerRecord) (s s' : Store)
        → i ≢ j
        → Put env i j r s s'
        → Follows (read_container env j s) (read_container env j s')
    create-Step i r s s' ne (inl kept) =
        subst (Follows (read_container env j s)) (sym kept) (Follows-refl (read_container env j s))
    create-Step i r s s' ne (inr (same, found)) = absurd (ne same)
