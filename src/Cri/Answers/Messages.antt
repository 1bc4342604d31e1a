-- ===== src/Cri/Answers/Messages.antt =====
-- crates/cri/src/server.rs: the messages that the calls answer with, and what they are made of.
use containerd_rs.Base.{
  ℕ, ℤ, pos, List, [], map, Bytes, false, Option, none, some, if◌then◌else◌, map_some, unwrap_or,
}
use containerd_rs.Metadata.Records.{Labels, MountRecord, SandboxRecord, ContainerRecord}
use containerd_rs.Cri.Convert.{
  LinuxContainerResources, record_to_cri_resources, sandbox_state_i32, container_state_i32,
}
use containerd_rs.Cri.Creation.Request.{ContainerMetadata, Mount}
use containerd_rs.Cri.Sandboxes.Request.{PodSandboxMetadata, UserNamespace, IdMapping}

-- The messages of the protocol, as far as they are filled. Times are whole nanoseconds.
pub record ContainerStatus : Type 0 where
  pub id : Bytes
  pub metadata : ContainerMetadata
  pub state : ℤ
  pub created_at : ℕ
  pub started_at : ℕ
  pub finished_at : ℕ
  pub exit_code : ℤ
  pub image : Bytes
  pub image_ref : Bytes
  pub reason : Bytes
  pub labels : Labels
  pub annotations : Labels
  pub mounts : List Mount
  pub log_path : Bytes
  pub resources : Option LinuxContainerResources
  pub image_id : Bytes

pub record Container : Type 0 where
  pub id : Bytes
  pub pod_sandbox_id : Bytes
  pub metadata : ContainerMetadata
  pub image : Bytes
  pub image_ref : Bytes
  pub state : ℤ
  pub created_at : ℕ
  pub labels : Labels
  pub annotations : Labels
  pub image_id : Bytes

pub record ContainerFilter : Type 0 where
  pub id : Bytes
  pub state : Option ℤ
  pub pod_sandbox_id : Bytes
  pub label_selector : Labels

pub record SandboxStatus : Type 0 where
  pub id : Bytes
  pub metadata : PodSandboxMetadata
  pub state : ℤ
  pub created_at : ℕ
  pub ip : Option Bytes
  pub network_mode : ℤ
  pub pid_mode : ℤ
  pub ipc_mode : ℤ
  pub userns_options : Option UserNamespace
  pub labels : Labels
  pub annotations : Labels
  pub runtime_handler : Bytes

pub record Sandbox : Type 0 where
  pub id : Bytes
  pub metadata : PodSandboxMetadata
  pub state : ℤ
  pub created_at : ℕ
  pub labels : Labels
  pub annotations : Labels
  pub runtime_handler : Bytes

pub record SandboxFilter : Type 0 where
  pub id : Bytes
  pub state : Option ℤ
  pub label_selector : Labels

abbrev pub container_metadata : ContainerRecord → ContainerMetadata
container_metadata r = record { name = r.name; attempt = r.attempt }

-- The fields that a record does not hold have their defaults.
abbrev pub mount_of : MountRecord → Mount
mount_of m = record {
  container_path = m.container_path;
  host_path = m.host_path;
  readonly = m.readonly;
  selinux_relabel = false;
  propagation = m.propagation;
  uid_mappings = [];
  gid_mappings = [];
  recursive_read_only = m.recursive_read_only;
  image = none;
  image_sub_path = [];
}

-- The status that `container_status` builds.
unfoldable pub status_of : ContainerRecord → ContainerStatus
unfolding container_state_i32 record_to_cri_resources
status_of r = record {
  id = r.id;
  metadata = container_metadata r;
  state = container_state_i32 r.state;
  created_at = r.created_at;
  started_at = unwrap_or 0 r.started_at;
  finished_at = unwrap_or 0 r.finished_at;
  exit_code = unwrap_or (pos 0) r.exit_code;
  image = r.image_ref;
  image_ref = r.image_id;
  reason = unwrap_or [] r.reason;
  labels = r.labels;
  annotations = r.annotations;
  mounts = map mount_of r.mounts;
  log_path = r.log_path;
  resources = map_some record_to_cri_resources r.resources;
  image_id = r.image_id;
}

-- The entry of `list_containers`.
unfoldable pub container_of : ContainerRecord → Container
unfolding container_state_i32
container_of r = record {
  id = r.id;
  pod_sandbox_id = r.sandbox_id;
  metadata = container_metadata r;
  image = r.image_ref;
  image_ref = r.image_id;
  state = container_state_i32 r.state;
  created_at = r.created_at;
  labels = r.labels;
  annotations = r.annotations;
  image_id = r.image_id;
}

-- `sandbox_metadata`
unfoldable pub sandbox_metadata : SandboxRecord → PodSandboxMetadata
sandbox_metadata r = record {
  name = r.name;
  uid = r.uid;
  namespace = r.k8s_namespace;
  attempt = r.attempt;
}

abbrev pub to_id : ℕ × ℕ × ℕ → IdMapping
to_id (container_id, host_id, length) = record {
  container_id = container_id;
  host_id = host_id;
  length = length;
}

-- The status that `pod_sandbox_status` builds; the modes are POD 0, CONTAINER 1 and NODE 2.
unfoldable pub sandbox_status_of : SandboxRecord → SandboxStatus
unfolding sandbox_metadata sandbox_state_i32
sandbox_status_of r = record {
  id = r.id;
  metadata = sandbox_metadata r;
  state = sandbox_state_i32 r.state;
  created_at = r.created_at;
  ip = r.ip;
  network_mode = if r.host_network then pos 2 else pos 0;
  pid_mode = if r.host_pid then pos 2 else pos 1;
  ipc_mode = if r.host_ipc then pos 2 else pos 0;
  userns_options =
      if r.userns_mode_pod
      then some (record {
        mode = pos 0;
        uids = map to_id r.userns_uid_mappings;
        gids = map to_id r.userns_gid_mappings;
      })
      else none;
  labels = r.labels;
  annotations = r.annotations;
  runtime_handler = r.runtime_handler;
}

-- The entry of `list_pod_sandbox`.
unfoldable pub sandbox_of : SandboxRecord → Sandbox
unfolding sandbox_metadata sandbox_state_i32
sandbox_of r = record {
  id = r.id;
  metadata = sandbox_metadata r;
  state = sandbox_state_i32 r.state;
  created_at = r.created_at;
  labels = r.labels;
  annotations = r.annotations;
  runtime_handler = r.runtime_handler;
}
