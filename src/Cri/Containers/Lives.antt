-- ===== src/Cri/Containers/Lives.antt =====
-- crates/cri/src/server.rs: what becomes of the record of a container while calls for it and for
-- others follow each other. A call's last read of the record and the write behind it are one step,
-- so a stop is what it writes at its end; what it does before touches the host alone. A resize waits
-- for crun between the two, and what happens meanwhile is a part of its step. The code takes no lock
-- on a container: calls that interleave between a read and a write are left out here.
use containerd_rs.Base.{◌≡◌, ◌≢◌, refl, subst, sym, ℤ, List, [], ◌∷◌, Bytes, true, Option, All}
use containerd_rs.Metadata.Records.{ContainerRecord}
use containerd_rs.Metadata.Store.{container, delete}
use containerd_rs.Metadata.Store.Isolation.{IsNamespace}
use containerd_rs.Cri.Convert.{LinuxContainerResources}
use containerd_rs.Cri.Service.{Env, World, read_container, put_container, get_container}
use containerd_rs.Cri.Containers.{
  start_container, finish_container, force_exit, remove_container, update_container_resources,
}
use containerd_rs.Cri.Containers.Stored.{RoundTrips, put_container-Put}
use containerd_rs.Cri.Containers.Advances.{Follows, Follows-refl, Follows-trans}
use containerd_rs.Cri.Containers.Steps.{
  IsQuiet, removed-store, delete_Follows, Step, started-Step, finished-Step, force_exit-Step,
  update_found-Step, create-Step,
}

module _ (env : Env) where
  -- A call for a container, as far as it writes; `outside` is what happens on the host.
  pub data Op : Type 0 where
    start stop remove : Bytes → Op
    finish : Bytes → ℤ → Op
    resize : Bytes → Option LinuxContainerResources → (World env → World env) → Op
    create : Bytes → ContainerRecord → Op
    outside : (env.Host → env.Host) → Op

  unfoldable pub run : Op → World env → World env
  run (start id) w = (start_container env id w).1
  run (stop id) w = (force_exit env id w (read_container env id w.store)).1
  run (remove id) w = (remove_container env id w).1
  run (finish id code) w = finish_container env id code w
  run (resize id linux others) w = (update_container_resources env id linux others w).1
  run (create id r) w = record w { store = (put_container env id r w.store).1 }
  run (outside change) w = record w { host = change w.host }

  unfoldable pub run_all : List Op → World env → World env
  unfolding run
  run_all [] w = w
  run_all (op ∷ ops) w = run_all ops (run op w)

  -- No container is created under the id, and while a resize waits nothing writes the record that it
  -- has read.
  abbrev pub IsOrderly : Bytes → Op → Type 0
  IsOrderly j (create i r) = i ≢ j
  IsOrderly j (start i) = Unit
  IsOrderly j (stop i) = Unit
  IsOrderly j (remove i) = Unit
  IsOrderly j (finish i code) = Unit
  IsOrderly j (resize i linux others) = IsQuiet env j i others
  IsOrderly j (outside change) = Unit

  module _ (ns : IsNamespace env.namespace) (reads : env.reads_ok ≡ true) (back : RoundTrips env)
      (j : Bytes) where
    run-Step : (op : Op) (w : World env) → IsOrderly j op → Step env j w (run op w)
    unfolding Step run start_container get_container remove_container finish_container
        update_container_resources
    run-Step (start i) w other =
        started-Step env ns reads back j i w (read_container env i w.store) refl
    run-Step (stop i) w other =
        force_exit-Step env ns reads back j i w (read_container env i w.store) refl
    run-Step (remove i) w other =
        subst (λ s. Follows (read_container env j w.store) (read_container env j s))
          (sym (
            removed-store env i (record w { host = env.crun_delete i w.host })
              (delete env.deletes_ok container env.namespace i w.store)))
          (delete_Follows env ns reads back j i env.deletes_ok w.store)
    run-Step (finish i code) w other =
        finished-Step env ns reads back j i code w.host w.store (read_container env i w.store) refl
    run-Step (resize i linux others) w quiet =
        update_found-Step env ns reads back j i linux others w (read_container env i w.store) quiet
          refl
    run-Step (create i r) w ne =
        create-Step env ns reads back j i r w.store _ ne
          (put_container-Put env ns reads back i j r w.store)
    run-Step (outside change) w other = Follows-refl (read_container env j w.store)

    -- Whatever calls follow each other, for this container and for others, as long as none
    -- creates a container under its id and, while a resize waits for crun, what happens leaves the
    -- record of the resized container as it was and this one in one of these ways: behind them the
    -- record is as it was or gone for good, or its state is the same, went from created to
    -- running, or is exited. Writes and deletions may fail. Conditions: reads of the database
    -- work, what serde_json writes it reads back, and the namespace has no slash.
    pub run_all-Follows :
        (ops : List Op) (w : World env)
        → All (IsOrderly j) ops
        → Follows (read_container env j w.store) (read_container env j (run_all ops w).store)
    unfolding run_all Step
    run_all-Follows [] w hs = Follows-refl (read_container env j w.store)
    run_all-Follows (op ∷ ops) w (h, hs) =
        Follows-trans _ (read_container env j (run op w).store) _ (run-Step op w h)
          (run_all-Follows ops (run op w) hs)
