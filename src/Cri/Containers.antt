-- ===== src/Cri/Containers.antt =====
-- crates/cri/src/server.rs: the calls that change the state of a container: its start, the end of the
-- task that supervises it, its stop, its removal and the change of its limits. `Pauses` says what other
-- tasks do while a stop waits.
pub mod Stored
pub mod Advances
pub mod Steps
pub mod Lives
pub mod Stopped
pub mod Started
use containerd_rs.Base.{
  ◌+◌, ℤ, negsuc, is_num, is_positive, List, [], ◌∷◌, ◌++◌, Bytes, text, Bool, true, false, not,
  Option, none, some, Result, ok, err, if◌then◌else◌, map_some, unwrap_or,
}
use containerd_rs.Metadata.Records.{ContainerState, created, running, exited, ContainerRecord}
use containerd_rs.Metadata.Store.{Store, Error, container, delete}
use containerd_rs.Cri.Convert.{
  LinuxContainerResources, resources_record, cri_resources, no_resources, container_log_path,
  join_path,
}
use containerd_rs.Cri.Service.{
  Status, failed_precondition, internal, started_event, stopped_event, deleted_event, Launch, Env,
  World, or_missing, read_container, put_container, get_container, written, emitted, emit_ok,
  bundle_dir, crun_root,
}

abbrev pub is_created : ContainerState → Bool
is_created created = true
is_created s = false

abbrev pub is_exited : ContainerState → Bool
is_exited exited = true
is_exited s = false

abbrev pub missing : Bytes → Bytes
missing id = text "container " ++ (id ++ text " not found")

module _ (env : Env) where
  open env use {
    Host, namespace, error_text, deletes_ok, unix_nanos, kill, crun_delete, crun_update, launch,
    await_registered, close_streams, has_config, is_terminal, create_dir_all, remove_bundle,
  }

  -- The record of a container that has been started.
  unfoldable pub started_record : Bytes → Host → ContainerRecord → ContainerRecord
  started_record id h r = record r {
    state = running;
    started_at = some (unix_nanos h);
    crun_root = some (crun_root env);
    bundle_dir = some (bundle_dir env id);
  }

  unfoldable pub launch_of : Bytes → Host → ContainerRecord → Launch
  unfolding container_log_path
  launch_of id h r = record {
    crun_root = crun_root env;
    bundle_dir = bundle_dir env id;
    cid = id;
    log_path = container_log_path (bundle_dir env id) r.log_path;
    terminal = is_terminal id h;
    stdin_open = r.stdin;
  }

  -- Behind the write: the launch, and the wait until crun knows the container.
  abbrev pub launched :
      Bytes → Launch → Result Status Unit × World env → Result Status Unit × World env
  launched id l (err e, w) = (err e, w)
  launched id l (ok done, w) = (
    ok tt,
    emitted env id started_event (record w { host = await_registered id (launch l w.host) }),
  )

  abbrev pub prepared :
      Bytes
      → ContainerRecord
      → World env
      → Result Bytes Unit × Host
      → Result Status Unit × World env
  prepared id r w (err e, h) = (err (internal e), record w { host = h })
  prepared id r w (ok done, h) =
      launched id (launch_of id h r)
        (written env (record w { host = h }) (put_container env id (started_record id h r) w.store))

  abbrev pub started :
      Bytes → World env → Result Status ContainerRecord → Result Status Unit × World env
  started id w (err e) = (err e, w)
  started id w (ok r) =
      if not (is_created r.state)
      then (
        err (failed_precondition (text "container " ++ (id ++ text " is not in Created state"))),
        w,
      )
      else if not (has_config id w.host)
      then (err (internal (text "container bundle config.json missing")), w)
      else prepared id r w (create_dir_all (crun_root env) w.host)

  -- `start_container`
  unfoldable pub start_container : Bytes → World env → Result Status Unit × World env
  unfolding get_container put_container started_record launch_of join_path
  start_container id w = started id w (or_missing env (missing id) (get_container env id w.store))

  -- The end of the task that `start_container` spawns, with the exit code of the supervision.
  unfoldable pub finished_record : ℤ → Host → ContainerRecord → ContainerRecord
  finished_record code h r = record r {
    state = exited;
    exit_code = some code;
    finished_at = some (unix_nanos h);
    reason = some (if is_num 0 code then text "Completed" else text "Error");
  }

  abbrev pub finished : Bytes → ℤ → Host → Result Error (Option ContainerRecord) → Store → Store
  finished id code h (err e) s = s
  finished id code h (ok none) s = s
  finished id code h (ok (some r)) s = (put_container env id (finished_record code h r) s).1

  unfoldable pub finish_container : Bytes → ℤ → World env → World env
  unfolding finished_record read_container put_container
  finish_container id code w = emitted env id stopped_event (record w {
    store = finished id code w.host (read_container env id w.store) w.store;
    host = close_streams id w.host;
  })

  -- What other tasks do: behind the SIGTERM, in each sleep up to the deadline, behind the SIGKILL.
  pub record Pauses : Type 0 where
    pub after_term : World env → World env
    pub first_sleep : World env → World env
    pub sleeps : List (World env → World env)
    pub after_kill : World env → World env

  abbrev pub seen_exited : Result Error (Option ContainerRecord) → Bool
  seen_exited (err e) = false
  seen_exited (ok none) = false
  seen_exited (ok (some r)) = is_exited r.state

  -- The loop that polls the record, and whether it saw the container exit.
  unfoldable pub poll : Bytes → List (World env → World env) → World env → Bool × World env
  poll id [] w = (false, w)
  poll id (others ∷ more) w =
      let w' = others w in
      let rest = poll id more w' in
      if seen_exited (read_container env id w'.store) then (true, w') else rest

  abbrev pub awaited : Bytes → ℤ → Pauses → World env → Bool × World env
  awaited id timeout p w =
      let polled = poll id (p.first_sleep ∷ p.sleeps) w in
      if is_positive timeout then polled else (false, w)

  abbrev pub escalated : Bytes → Pauses → Bool × World env → World env
  escalated id p (true, w) = w
  escalated id p (false, w) =
      p.after_kill (record w { host = crun_delete id (kill id (text "KILL") w.host) })

  -- The record of a forced exit, unless an exit is recorded.
  unfoldable pub forced_record : Host → ContainerRecord → ContainerRecord
  forced_record h r = record r {
    state = exited;
    finished_at = some (unix_nanos h);
    exit_code = some (negsuc 0);
    reason = some (text "Error");
  }

  unfoldable pub force_exit :
      Bytes → World env → Result Error (Option ContainerRecord) → Result Status Unit × World env
  unfolding forced_record put_container
  force_exit id w (err e) = (ok tt, w)
  force_exit id w (ok none) = (ok tt, w)
  force_exit id w (ok (some r)) =
      let done = written env w (put_container env id (forced_record w.host r) w.store) in
      if is_exited r.state then (ok tt, w) else done

  unfoldable pub end_container : Bytes → ℤ → Pauses → World env → Result Status Unit × World env
  unfolding poll read_container force_exit
  end_container id timeout p w =
      let termed = p.after_term (record w { host = kill id (text "SIGTERM") w.host }) in
      let w' = escalated id p (awaited id timeout p termed) in
      force_exit id w' (read_container env id w'.store)

  abbrev pub stopped :
      Bytes
      → ℤ
      → Pauses
      → World env
      → Result Status (Option ContainerRecord)
      → Result Status Unit × World env
  stopped id timeout p w (err e) = (err e, w)
  stopped id timeout p w (ok none) = (ok tt, w)
  stopped id timeout p w (ok (some r)) =
      let ended = end_container id timeout p w in if is_exited r.state then (ok tt, w) else ended

  -- `stop_container`
  unfoldable pub stop_container : Bytes → ℤ → Pauses → World env → Result Status Unit × World env
  unfolding get_container end_container
  stop_container id timeout p w =
      emit_ok env id stopped_event (stopped id timeout p w (get_container env id w.store))

  -- `remove_container`
  abbrev pub removed :
      Bytes → World env → Result Error Bool × Store → Result Status Unit × World env
  removed id w (err e, s) = (err (internal (error_text e)), record w { store = s })
  removed id w (ok was, s) =
      (ok tt, emitted env id deleted_event (record w { store = s; host = remove_bundle id w.host }))

  unfoldable pub remove_container : Bytes → World env → Result Status Unit × World env
  remove_container id w =
      removed id (record w { host = crun_delete id w.host })
        (delete deletes_ok container namespace id w.store)

  -- Behind `crun update`, which the call awaits while others go on: the new limits are recorded, with
  -- all that was read before.
  abbrev pub resized :
      Bytes
      → Option LinuxContainerResources
      → ContainerRecord
      → World env
      → Result Bytes Unit
      → Result Status Unit × World env
  resized id linux r w (err e) = (err (internal e), w)
  resized id none r w (ok done) = (ok tt, w)
  resized id (some l) r w (ok done) =
      written env w
        (put_container env id (record r { resources = some (resources_record l) }) w.store)

  abbrev pub updated :
      Bytes
      → Option LinuxContainerResources
      → ContainerRecord
      → (World env → World env)
      → World env
      → Result Bytes Unit × Host
      → Result Status Unit × World env
  updated id linux r others w (q, h) = resized id linux r (others (record w { host = h })) q

  abbrev pub update_found :
      Bytes
      → Option LinuxContainerResources
      → (World env → World env)
      → World env
      → Result Status ContainerRecord
      → Result Status Unit × World env
  update_found id linux others w (err e) = (err e, w)
  update_found id linux others w (ok r) =
      updated id linux r others w
        (crun_update id (unwrap_or no_resources (map_some cri_resources linux)) w.host)

  -- `update_container_resources`; `others` is what other tasks do while it waits.
  unfoldable pub update_container_resources :
      Bytes
      → Option LinuxContainerResources
      → (World env → World env)
      → World env
      → Result Status Unit × World env
  unfolding get_container put_container resources_record cri_resources
  update_container_resources id linux others w =
      update_found id linux others w (or_missing env (missing id) (get_container env id w.store))
