-- ===== src/Cri/Answers/Statistics.antt =====
-- crates/cri/src/server.rs: the statistics and the metrics of containers and sandboxes. `Samples` is
-- what they read: the answers of crun, their JSON and the files of the cgroups.
pub mod Entries
use containerd_rs.Base.{
  ℕ, List, [], ◌∷◌, ◌++◌, map, Bytes, text, Bool, true, false, ◌&&◌, Option, none, some, Result, ok,
  err, if◌then◌else◌, ◌==◌, str_eq, is_nil, and_some, unwrap_or,
}
use containerd_rs.Metadata.Records.{Labels, SandboxRecord, ContainerRecord}
use containerd_rs.Runtime.Cgroup.{CgroupStats, no_stats, read_stats}
use containerd_rs.Cri.Convert.{join_path, skip_slashes}
use containerd_rs.Cri.Containers.{missing}
use containerd_rs.Cri.Creation.Request.{ContainerMetadata}
use containerd_rs.Cri.Sandboxes.Request.{PodSandboxMetadata}
use containerd_rs.Cri.Service.{
  Status, Env, World, internal_of, or_missing, read_sandbox, get_container,
}
use containerd_rs.Cri.Reconcile.{is_running_state}
use containerd_rs.Cri.Answers.{id_fits, labels_fit, filter, map_ok, all_containers, all_sandboxes}
use containerd_rs.Cri.Answers.Messages.{container_metadata, sandbox_metadata}

-- The messages of the protocol, as far as they are filled.
pub record ContainerStats : Type 0 where
  pub id : Bytes
  pub metadata : ContainerMetadata
  pub labels : Labels
  pub annotations : Labels
  pub timestamp : ℕ
  pub usage_core_nano_seconds : ℕ
  pub working_set_bytes : ℕ
  pub usage_bytes : ℕ

pub record SandboxStats : Type 0 where
  pub id : Bytes
  pub metadata : PodSandboxMetadata
  pub labels : Labels
  pub annotations : Labels
  pub timestamp : ℕ
  pub usage_core_nano_seconds : ℕ
  pub working_set_bytes : ℕ
  pub usage_bytes : ℕ
  pub rss_bytes : ℕ
  pub containers : List ContainerStats

pub record StatsFilter : Type 0 where
  pub id : Bytes
  pub pod_sandbox_id : Bytes
  pub label_selector : Labels

pub record Metric : Type 0 where
  pub name : Bytes
  pub timestamp : ℕ
  pub is_gauge : Bool
  pub value : ℕ

-- The two metrics of a sandbox, which `metric_descriptors` describes.
abbrev pub cpu_metric : Bytes
cpu_metric = text "container_cpu_usage_seconds_total"

abbrev pub memory_metric : Bytes
memory_metric = text "container_memory_working_set_bytes"

unfoldable pub metric_descriptors : List (Bytes × Bytes)
metric_descriptors =
    (cpu_metric, text "Cumulative CPU time consumed, in nanoseconds.")
    ∷ (memory_metric, text "Current memory working set, in bytes.")
    ∷ []

-- The output of `crun events --stats` where it succeeds, the two numbers of its JSON, and the files.
pub record Samples (env : Env) : Type 1 where
  pub crun_stats : Bytes → env.Host → Option Bytes
  pub usage_fields : Bytes → Option (Option ℕ × Option ℕ)
  pub read_file : env.Host → Bytes → Option Bytes

unfoldable pub stats_fit : Option StatsFilter → ContainerRecord → Bool
unfolding labels_fit str_eq
stats_fit none r = true
stats_fit (some f) r =
    id_fits f.id r.id
    && id_fits f.pod_sandbox_id r.sandbox_id
    && labels_fit f.label_selector r.labels

abbrev pub sandbox_stats_fit : Option Bytes → SandboxRecord → Bool
sandbox_stats_fit none r = true
sandbox_stats_fit (some id) r = id_fits id r.id

module _ (env : Env) (samples : Samples env) where
  open env use {Host, unix_nanos}
  open samples use {crun_stats, usage_fields, read_file}

  abbrev pub usage_or_zero : Option (Option ℕ × Option ℕ) → ℕ × ℕ
  usage_or_zero none = (0, 0)
  usage_or_zero (some (cpu, memory)) = (unwrap_or 0 cpu, unwrap_or 0 memory)

  -- `sample_usage`
  unfoldable pub sample_usage : Bytes → Host → ℕ × ℕ
  sample_usage id h = usage_or_zero (and_some (crun_stats id h) usage_fields)

  -- `container_stats_for`
  unfoldable pub container_stats_for : ContainerRecord → Host → Option ContainerStats
  unfolding sample_usage
  container_stats_for r h =
      let (cpu_total, mem_usage) = sample_usage r.id h in
      if is_running_state r.state
      then some (record {
        id = r.id;
        metadata = container_metadata r;
        labels = r.labels;
        annotations = r.annotations;
        timestamp = unix_nanos h;
        usage_core_nano_seconds = cpu_total;
        working_set_bytes = mem_usage;
        usage_bytes = mem_usage;
      })
      else none

  abbrev pub push_some : {A : Type 0} → Option A → List A → List A
  push_some none rest = rest
  push_some (some a) rest = a ∷ rest

  -- The loop over the containers that fit.
  unfoldable pub stats_of_all : List ContainerRecord → Host → List ContainerStats
  unfolding container_stats_for
  stats_of_all [] h = []
  stats_of_all (r ∷ rs) h = push_some (container_stats_for r h) (stats_of_all rs h)

  -- The statistics of the pod's cgroup, where it has one.
  unfoldable pub pod_cgroup : SandboxRecord → Host → CgroupStats
  unfolding read_stats skip_slashes join_path
  pod_cgroup sb h =
      if is_nil sb.cgroup_parent
      then no_stats
      else read_stats (read_file h)
          (join_path (text "/sys/fs/cgroup") (skip_slashes sb.cgroup_parent))

  abbrev pub of_sandbox : Bytes → ContainerRecord → Bool
  of_sandbox id r = str_eq r.sandbox_id id

  abbrev pub sandbox_containers :
      Bytes → Host → Result Status (List ContainerRecord) → List ContainerStats
  sandbox_containers id h (err e) = []
  sandbox_containers id h (ok all) = stats_of_all (filter (of_sandbox id) all) h

  -- `pod_sandbox_stats_for`
  unfoldable pub pod_sandbox_stats_for : SandboxRecord → World env → SandboxStats
  unfolding pod_cgroup stats_of_all filter sandbox_metadata str_eq
  pod_sandbox_stats_for sb w =
      let cg = pod_cgroup sb w.host in
      record {
        id = sb.id;
        metadata = sandbox_metadata sb;
        labels = sb.labels;
        annotations = sb.annotations;
        timestamp = unix_nanos w.host;
        usage_core_nano_seconds = cg.cpu_usage_nanos;
        working_set_bytes = cg.memory_current_bytes;
        usage_bytes = cg.memory_current_bytes;
        rss_bytes = cg.memory_anon_bytes;
        containers = sandbox_containers sb.id w.host (all_containers env w.store);
      }

  -- `container_stats`, `list_container_stats`, `pod_sandbox_stats` and `list_pod_sandbox_stats`
  unfoldable pub container_stats : Bytes → World env → Result Status (Option ContainerStats)
  unfolding container_stats_for get_container
  container_stats id w =
      map_ok env (λ r. container_stats_for r w.host)
        (or_missing env (missing id) (get_container env id w.store))

  unfoldable pub list_container_stats :
      Option StatsFilter → World env → Result Status (List ContainerStats)
  unfolding stats_of_all stats_fit filter
  list_container_stats f w =
      map_ok env (λ all. stats_of_all (filter (stats_fit f) all) w.host)
        (all_containers env w.store)

  unfoldable pub pod_sandbox_stats : Bytes → World env → Result Status SandboxStats
  unfolding pod_sandbox_stats_for read_sandbox
  pod_sandbox_stats id w =
      map_ok env (λ sb. pod_sandbox_stats_for sb w)
        (or_missing env (text "sandbox " ++ (id ++ text " not found"))
          (internal_of env (read_sandbox env id w.store)))

  unfoldable pub list_pod_sandbox_stats :
      Option Bytes → World env → Result Status (List SandboxStats)
  unfolding pod_sandbox_stats_for filter str_eq
  list_pod_sandbox_stats id w =
      map_ok env (λ all. map (λ sb. pod_sandbox_stats_for sb w) (filter (sandbox_stats_fit id) all))
        (all_sandboxes env w.store)

  -- `metric`, `pod_sandbox_metrics_for` and `list_pod_sandbox_metrics`
  abbrev pub metric : Bytes → Bool → ℕ → ℕ → Metric
  metric name is_gauge value ts = record {
    name = name;
    timestamp = ts;
    is_gauge = is_gauge;
    value = value;
  }

  unfoldable pub pod_sandbox_metrics_for : Host → SandboxRecord → Bytes × List Metric
  unfolding pod_cgroup
  pod_sandbox_metrics_for h sb =
      let cg = pod_cgroup sb h in
      let ts = unix_nanos h in
      (
        sb.id,
        metric cpu_metric false cg.cpu_usage_nanos ts
            ∷ metric memory_metric true cg.memory_current_bytes ts
            ∷ [],
      )

  unfoldable pub list_pod_sandbox_metrics : World env → Result Status (List (Bytes × List Metric))
  unfolding pod_sandbox_metrics_for
  list_pod_sandbox_metrics w =
      map_ok env (map (pod_sandbox_metrics_for w.host)) (all_sandboxes env w.store)
