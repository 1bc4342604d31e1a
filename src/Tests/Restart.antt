-- ===== src/Tests/Restart.antt =====
-- `reconcile` of crates/cri/src/server.rs at concrete inputs: one running container.
use containerd_rs.Base.{
  ◌≡◌, ◌≢◌, refl, [], ◌∷◌, Bytes, text, Bool, true, false, Option, none, some, Result, ok, err,
  if◌then◌else◌, str_eq, str_eq_ne, strip_prefix,
}
use containerd_rs.Metadata.Records.{ContainerRecord, running}
use containerd_rs.Metadata.Store.{
  Store, Error, db, container, sandbox, list, put, list_entries, table, set_table,
}
use containerd_rs.Metadata.Store.Isolation.{IsNamespace}
use containerd_rs.Runtime.{RuntimeState, is_running}
use containerd_rs.Cri.Reconcile.{
  Env, ReconcileReport, State, start, reconcile, reconcile_all, reconcile_container, settle, judge,
  updated,
}
use containerd_rs.Cri.Reconcile.Survivors.{reconcile_spares}

abbrev alive : RuntimeState
alive = record { status = text "running"; pid = none }

abbrev pub web : ContainerRecord
web = record {
  id = text "c1";
  sandbox_id = text "p1";
  name = text "web";
  attempt = 0;
  image_ref = [];
  image_id = [];
  state = running;
  snapshot_key = [];
  log_path = [];
  created_at = 1;
  started_at = some 2;
  finished_at = none;
  exit_code = none;
  reason = none;
  labels = [];
  annotations = [];
  mounts = [];
  resources = none;
  crun_root = some (text "/crun");
  bundle_dir = none;
  pid = none;
  restart_count = 0;
  stdin = false;
  stdin_once = false;
  devices = [];
}

abbrev Running : Type 0
Running = Bytes → Option RuntimeState

abbrev probe_table : Running → Bytes → Result Bool (Option RuntimeState)
probe_table w i = ok (w i)

abbrev delete_from : Running → Bytes → Running
delete_from w i = λ j. if str_eq i j then none else w j

probe_table-delete_from :
    (w : Running) (i j : Bytes) → i ≢ j → probe_table (delete_from w i) j ≡ probe_table w j
probe_table-delete_from w i j ne = rw (str_eq_ne i j ne) refl

abbrev node : Env
node = record {
  Crun = Running;
  IoError = Bool;
  probe = probe_table;
  delete = delete_from;
  probe-delete = probe_table-delete_from;
  to_vec = λ c. ok [];
  from_slice = λ b. ok web;
  sandbox_to_vec = λ s. ok [];
  sandbox_from_slice = λ b. err db;
  namespace = text "k8s";
  root = text "/crun";
  now = λ i. 9;
  db_ok = λ i. true;
}

abbrev one_record : Store
one_record = record {
  images = [];
  containers = (text "k8s/c1", []) ∷ [];
  sandboxes = [];
  snapshots = [];
  leases = [];
}

abbrev all_alive : Running
all_alive i = some alive

alive_running : is_running alive ≡ true
unfolding is_running str_eq
alive_running = refl

reconcile_spares_example :
    probe_table (reconcile node true one_record all_alive).1.crun (text "c1") ≡ ok (some alive)
reconcile_spares_example =
    reconcile_spares node (text "c1") alive alive_running true one_record all_alive refl

k8s-IsNamespace : IsNamespace (text "k8s")
k8s-IsNamespace = (refl, (refl, (refl, tt)))

abbrev begun : State node
begun = start node 0 1 one_record all_alive

web_kept :
    ◌≡◌ {A = Result Error ContainerRecord}
      (ok web)
      (ok (updated (text "/crun") 9 (judge node (ok (some alive))) web))
unfolding updated judge is_running str_eq
web_kept = refl

abbrev one_readopted : ReconcileReport
one_readopted = record {
  sandboxes = 0;
  containers = 1;
  readopted = 1;
  reaped = 0;
  marked_unknown = 0;
}

no_sandboxes :
    list node.sandbox_to_vec node.sandbox_from_slice true sandbox (text "k8s") one_record ≡ ok []
unfolding list list_entries table
no_sandboxes = refl

web_listed : list node.to_vec node.from_slice true container (text "k8s") one_record ≡ ok (web ∷ [])
unfolding list list_entries table strip_prefix
web_listed = refl

reconciled :
    reconcile node true one_record all_alive
    ≡ (ok one_readopted, (reconcile node true one_record all_alive).1)
unfolding reconcile reconcile_all reconcile_container settle judge is_running str_eq list
    list_entries table strip_prefix put set_table
reconciled = refl
