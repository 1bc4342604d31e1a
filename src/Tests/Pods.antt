-- ===== src/Tests/Pods.antt =====
-- Sandboxes, new containers and lists of the runtime service at concrete inputs.
use containerd_rs.Base.{
  ◌≡◌, ◌↔◌, ◌⊎◌, refl, ap, sym, ◌∙◌, inl, inr, ℕ, pos, List, [], ◌∷◌, Bytes, text, true, false,
  Option, none, some, Result, ok, err, lookup, insert, All, Listed, str_eq, strip_prefix, arith,
}
use containerd_rs.Metadata.Records.{ready, SandboxRecord}
use containerd_rs.Metadata.Store.{Error, db, get, put, list, table, set_table, list_entries, key}
use containerd_rs.Runtime.Cgroup.{parse_flat_keyed}
use containerd_rs.Runtime.Cgroup.Written.{written, parse_flat_keyed-written}
use containerd_rs.Cri.Service.{World, read_container, put_container, read_sandbox, put_sandbox}
use containerd_rs.Cri.Sandboxes.{run_pod_sandbox}
use containerd_rs.Cri.Sandboxes.Request.{PodSandboxConfig, NamespaceOption, IdMapping}
use containerd_rs.Cri.Sandboxes.Stored.{RoundTrips, Writes, put_sandbox-Put}
use containerd_rs.Cri.Sandboxes.Demotions.{listing}
use containerd_rs.Cri.Sandboxes.Ready.{IsFiled, IsOnlyReady, run_pod_sandbox-IsOnlyReady}
use containerd_rs.Cri.Creation.Request.{
  Mount, ContainerConfig, Facts, check_config, container_request,
}
use containerd_rs.Cri.Creation.Checks.{
  IsAcceptable, IsSealed, check_config_iff, container_request-IsSealed,
}
use containerd_rs.Cri.Creation.{Builder, create_container}
use containerd_rs.Cri.Creation.Created.{Creates, create_container-Creates}
use containerd_rs.Cri.Answers.{all_containers, list_containers}
use containerd_rs.Cri.Answers.Messages.{ContainerFilter}
use containerd_rs.Cri.Answers.Filters.{IsFiltered, list_containers-IsFiltered}
use containerd_rs.Cri.Answers.Statistics.{ContainerStats, Samples, stats_fit, list_container_stats}
use containerd_rs.Cri.Answers.Statistics.Entries.{IsEntryOf, list_container_stats-Listed}
use containerd_rs.Tests.Encodings.{json_back}
use containerd_rs.Tests.Encodings.Sandboxes.{sandbox}
use containerd_rs.Tests.Nodes.{node, k8s_plain, node-RoundTrips, empty, fresh}
use containerd_rs.Tests.Restart.{web}
use containerd_rs.Tests.Bundles.{host}

abbrev cpu_stat : List (Bytes × ℕ)
cpu_stat = (text "usage_usec", 5000) ∷ (text "user_usec", 3000) ∷ []

parse_flat_keyed-written_example :
    parse_flat_keyed (written cpu_stat) (text "user_usec") ≡ lookup (text "user_usec") cpu_stat
parse_flat_keyed-written_example =
    parse_flat_keyed-written cpu_stat (text "user_usec") (ground arith)

-- A pod with a user namespace.
abbrev root_map : IdMapping
root_map = record { container_id = 0; host_id = 100000; length = 65536 }

abbrev pod_options : NamespaceOption
pod_options = record {
  network = pos 0;
  pid = pos 1;
  ipc = pos 0;
  userns_options = some (record { mode = pos 0; uids = root_map ∷ []; gids = root_map ∷ [] });
}

abbrev pod : PodSandboxConfig
pod = record {
  metadata =
      some (record { name = text "web"; uid = text "u1"; namespace = text "default"; attempt = 1 });
  hostname = text "web";
  log_directory = text "/var/log/pods/web";
  dns_config = none;
  port_mappings = [];
  labels = [];
  annotations = [];
  linux = some (record {
    cgroup_parent = text "/kubepods/pod1";
    security_context = some (some pod_options);
    sysctls = [];
  });
}

-- The sandbox of an earlier attempt.
abbrev earlier : SandboxRecord
earlier = record {
  id = text "p0";
  name = text "web";
  k8s_namespace = text "default";
  uid = text "u1";
  attempt = 0;
  state = ready;
  netns_path = none;
  ip = none;
  runtime_handler = [];
  pause_container_id = none;
  snapshot_key = none;
  created_at = 1;
  labels = [];
  annotations = [];
  log_directory = text "/var/log/pods/web";
  host_network = false;
  host_pid = false;
  host_ipc = false;
  shared_pid = false;
  shared_ipc = false;
  pid_holder_pid = none;
  userns_mode_pod = false;
  userns_uid_mappings = [];
  userns_gid_mappings = [];
  resolv_conf_path = none;
  sysctls = [];
  cgroup_parent = [];
  hostname = text "web";
}

abbrev with_earlier : World node
with_earlier = record {
  store = (put_sandbox node (text "p0") earlier empty).1;
  host = 5;
  events = [];
}

sandbox-RoundTrips : RoundTrips node
sandbox-RoundTrips = json_back sandbox

sandbox-Writes : Writes node
sandbox-Writes = (refl, λ r. (_, refl))

nothing_there : (j : Bytes) → read_sandbox node j empty ≡ ok none
unfolding read_sandbox get table lookup
nothing_there j = refl

filed :
    (j : Bytes) (o : SandboxRecord)
    → ((read_sandbox node j with_earlier.store ≡ read_sandbox node j empty)
        ⊎ ((text "p0" ≡ j) × (read_sandbox node j with_earlier.store ≡ ok (some earlier))))
    → read_sandbox node j with_earlier.store ≡ ok (some o)
    → o.id ≡ j
filed j o (inl kept) h = let e = sym (kept ∙ nothing_there j) ∙ h in cc
filed j o (inr (same, found)) h =
    let e : earlier ≡ o = some_same o (sym found ∙ h) in
    sym (ap (λ (q : SandboxRecord). q.id) e) ∙ same
  where
    some_same :
        (o : SandboxRecord)
        → ◌≡◌ {A = Result Error (Option SandboxRecord)} (ok (some earlier)) (ok (some o))
        → earlier ≡ o
    some_same o h = cc

every-IsFiled : IsFiled node with_earlier.store
every-IsFiled j o h =
    filed j o (put_sandbox-Put node k8s_plain refl sandbox-RoundTrips (text "p0") j earlier empty) h

one_listed : listing node with_earlier.store ≡ ok (earlier ∷ [])
unfolding put_sandbox put list list_entries table set_table insert lookup key strip_prefix
one_listed = refl

run_pod_sandbox-IsOnlyReady_example :
    IsOnlyReady node with_earlier.store (run_pod_sandbox node (some pod) [] with_earlier)
run_pod_sandbox-IsOnlyReady_example =
    run_pod_sandbox-IsOnlyReady node k8s_plain refl sandbox-RoundTrips sandbox-Writes (some pod) []
      with_earlier (earlier ∷ []) every-IsFiled one_listed

-- A request for a container, and its creation on the node, where the image is not there.
abbrev data_mount : Mount
data_mount = record {
  container_path = text "/data";
  host_path = text "/srv/data";
  readonly = true;
  selinux_relabel = true;
  propagation = pos 0;
  uid_mappings = [];
  gid_mappings = [];
  recursive_read_only = true;
  image = none;
  image_sub_path = [];
}

abbrev request : ContainerConfig
request = record {
  metadata = some (record { name = text "web"; attempt = 0 });
  image = some (text "busybox");
  command = text "sleep" ∷ [];
  args = [];
  working_dir = [];
  envs = [];
  mounts = data_mount ∷ [];
  devices = [];
  labels = (text "app", text "web") ∷ [];
  annotations = [];
  log_path = text "web/0.log";
  stdin = false;
  stdin_once = false;
  tty = false;
  linux = none;
}

request_passes : check_config request ≡ ok tt
unfolding check_config
request_passes = refl

check_config_iff_example : (check_config request ≡ ok tt) ↔ IsAcceptable request
check_config_iff_example = check_config_iff request

abbrev facts : Facts
facts = record {
  host_ids = none;
  is_file = λ p. true;
  selinux_enabled = false;
  from_utf8_lossy = λ b. b;
}

container_request-IsSealed_example :
    All IsSealed (container_request facts (text "c2") earlier request).mounts
container_request-IsSealed_example =
    container_request-IsSealed facts (text "c2") earlier request request_passes

abbrev builder : Builder node
builder = record {
  image_to_vec = λ r. ok [];
  image_from_slice = λ b. err db;
  parse_oci = λ b. none;
  facts = λ h. facts;
  content = λ h. record { blobs = []; ingest = []; seq = 0 };
  apply_layer = λ r b c h. (ok tt, h);
  chown_tree = λ r u g h. (ok tt, h);
  spec_host = host;
  files = λ h. [];
  with_files = λ fs h. h;
  bundle_error = λ e. text "bundle";
  digest_error = λ e. text "digest";
  content_error = λ e. text "content";
  write_bundle = λ d s h. (ok tt, h);
  touch = λ p h. h;
}

create_container-Creates_example :
    Creates node builder
      (text "p0")
      (some request)
      with_earlier
      (create_container node builder (text "p0") (some request) with_earlier)
create_container-Creates_example =
    create_container-Creates node builder k8s_plain refl node-RoundTrips (text "p0") (some request)
      with_earlier

-- Two containers, of which one runs.
abbrev with_two : World node
with_two = record {
  store =
      (put_container node (text "c2") (record fresh { id = text "c2" })
        (put_container node (text "c1") web empty).1).1;
  host = 5;
  events = [];
}

abbrev of_pod : ContainerFilter
of_pod = record { id = []; state = some (pos 1); pod_sandbox_id = text "p1"; label_selector = [] }

list_containers-IsFiltered_example :
    IsFiltered node k8s_plain of_pod with_two.store
      (all_containers node with_two.store)
      (list_containers node (some of_pod) with_two.store)
list_containers-IsFiltered_example = list_containers-IsFiltered node k8s_plain of_pod with_two.store

abbrev no_samples : Samples node
no_samples = record { crun_stats = λ i h. none; usage_fields = λ b. none; read_file = λ h p. none }

abbrev stats : List ContainerStats
stats =
    record {
      id = text "c1";
      metadata = record { name = text "web"; attempt = 0 };
      labels = [];
      annotations = [];
      timestamp = 5;
      usage_core_nano_seconds = 0;
      working_set_bytes = 0;
      usage_bytes = 0;
    }
    ∷ []

web_found : read_container node (text "c1") with_two.store ≡ ok (some web)
unfolding read_container put_container put get table set_table insert lookup key str_eq
web_found = refl

stats_listed : list_container_stats node no_samples none with_two ≡ ok stats
unfolding list_container_stats list list_entries put_container put table set_table insert lookup key
    str_eq strip_prefix
stats_listed = refl

list_container_stats-Listed_example : (e : ContainerStats) × Listed e stats × IsEntryOf web e
unfolding stats_fit
list_container_stats-Listed_example =
    list_container_stats-Listed node no_samples k8s_plain none with_two stats (text "c1") web
      web_found refl refl stats_listed
