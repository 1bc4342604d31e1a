-- ===== src/Tests/Nodes.antt =====
-- The runtime service at concrete inputs: one node with a sandbox and a container.
use containerd_rs.Base.{
  ◌≡◌, refl, ℕ, ◌+◌, pos, List, [], ◌∷◌, ◌++◌, text, true, false, none, some, ok, lookup, insert,
  str_eq,
}
use containerd_rs.Metadata.Records.{created, ContainerRecord}
use containerd_rs.Metadata.Store.{Store, get, put, table, set_table, key}
use containerd_rs.Metadata.Store.Isolation.{IsNamespace}
use containerd_rs.Cri.Service.{Env, World, read_container, put_container}
use containerd_rs.Cri.Containers.{Pauses, start_container, stop_container}
use containerd_rs.Cri.Containers.Stored.{RoundTrips, Writes}
use containerd_rs.Cri.Containers.Advances.{Follows, Follows-refl}
use containerd_rs.Cri.Containers.Steps.{Step}
use containerd_rs.Cri.Containers.Lives.{
  Op, start, stop, resize, finish, remove, run_all, run_all-Follows,
}
use containerd_rs.Cri.Containers.Started.{Starts, start_container-Starts}
use containerd_rs.Cri.Containers.Stopped.{HasStopped, IsIdle, stop_container-HasStopped}
use containerd_rs.Tests.Encodings.{to_json, from_json, json_back}
use containerd_rs.Tests.Encodings.Containers.{container}
use containerd_rs.Tests.Encodings.Sandboxes.{sandbox}
use containerd_rs.Tests.Hashes.{toy_sha}
use containerd_rs.Tests.Restart.{web}

-- The host is a clock, which each call sets forward.
abbrev pub node : Env
node = record {
  Host = ℕ;
  namespace = text "k8s";
  state_dir = text "/run/c";
  to_vec = to_json container;
  from_slice = from_json container;
  sandbox_to_vec = to_json sandbox;
  sandbox_from_slice = from_json sandbox;
  error_text = λ e. text "database";
  reads_ok = true;
  puts_ok = true;
  deletes_ok = true;
  sha = toy_sha;
  unix_nanos = λ h. h;
  kill = λ i s h. h + 1;
  crun_delete = λ i h. h + 1;
  crun_update = λ i r h. (ok tt, h + 1);
  launch = λ l h. h + 1;
  await_registered = λ i h. h + 1;
  close_streams = λ i h. h;
  has_config = λ i h. true;
  is_terminal = λ i h. false;
  create_dir_all = λ p h. (ok tt, h);
  remove_bundle = λ i h. h;
  kill_holder = λ p h. h;
  teardown = λ i h. h;
  ensure_pod_cgroup = λ p h. h;
  create_network = λ i ps h. (ok (text "10.0.0.7"), h);
  netns_path = λ i. text "/run/netns/" ++ i;
  host_ip = λ h. text "10.0.0.1";
  write_file = λ p b h. (ok tt, h);
  node_resolv_conf = λ h. none;
  spawn_holder = λ i h. (ok (pos 7), h);
}

pub k8s_plain : IsNamespace (text "k8s")
k8s_plain = (refl, (refl, (refl, tt)))

pub node-RoundTrips : RoundTrips node
node-RoundTrips = json_back container

node-Writes : Writes node
node-Writes = (refl, λ r. (_, refl))

abbrev pub empty : Store
empty = record { images = []; containers = []; sandboxes = []; snapshots = []; leases = [] }

abbrev pub fresh : ContainerRecord
fresh = record web { state = created; started_at = none }

abbrev pub with_fresh : World node
with_fresh = record {
  store = (put_container node (text "c1") fresh empty).1;
  host = 5;
  events = [];
}

start_container-Starts_example :
    Starts node (text "c1") with_fresh (start_container node (text "c1") with_fresh)
start_container-Starts_example =
    start_container-Starts node k8s_plain refl node-RoundTrips (text "c1") with_fresh

pub fresh_found : read_container node (text "c1") with_fresh.store ≡ ok (some fresh)
unfolding read_container put_container put get table set_table insert lookup key str_eq
fresh_found = refl

-- Nothing happens while a stop waits, twice, and then the container ends.
abbrev quiet : Pauses node
quiet = record {
  after_term = λ w. w;
  first_sleep = λ w. w;
  sleeps = (λ w. w) ∷ [];
  after_kill = λ w. w;
}

stop_container-HasStopped_example :
    let (r, w') = stop_container node (text "c1") (pos 2) quiet with_fresh in
    HasStopped node (text "c1") with_fresh (r, w')
    × IsIdle node w' (stop_container node (text "c1") (pos 0) quiet w').1
stop_container-HasStopped_example =
    stop_container-HasStopped node k8s_plain refl node-RoundTrips node-Writes (text "c1") (pos 2)
      (pos 0) quiet quiet with_fresh (some fresh) fresh_found

abbrev life : List (Op node)
life =
    start (text "c1")
    ∷ resize (text "c1") none (λ w. record w { host = w.host + 1 })
    ∷ stop (text "c1")
    ∷ finish (text "c1") (pos 0)
    ∷ remove (text "c2")
    ∷ []

run_all-Follows_example :
    Follows
      (read_container node (text "c1") with_fresh.store)
      (read_container node (text "c1") (run_all node life with_fresh).store)
unfolding Step
run_all-Follows_example =
    run_all-Follows node k8s_plain refl node-RoundTrips (text "c1") life with_fresh (
      tt,
      (
        (λ w. refl, λ w. Follows-refl (read_container node (text "c1") w.store)),
        (tt, (tt, (tt, tt))),
      ),
    )
