-- ===== src/Metadata/Records.antt =====
-- crates/metadata/src/records.rs: the persistent records. A map of labels is an association list.
pub mod Lifecycle
use containerd_rs.Base.{Option, ℤ, ℕ, List, Bytes, Bool, true, false}

-- `enum SandboxState`
pub data SandboxState : Type 0 where
  ready not_ready : SandboxState

-- `enum ContainerState`
pub data ContainerState : Type 0 where
  created running exited unknown : ContainerState

-- `ContainerState::can_transition_to`
unfoldable pub can_transition_to : ContainerState → ContainerState → Bool
can_transition_to created running = true
can_transition_to created exited = true
can_transition_to running exited = true
can_transition_to s unknown = true
can_transition_to unknown running = true
can_transition_to unknown exited = true
can_transition_to created created = true
can_transition_to running running = true
can_transition_to exited exited = true
can_transition_to s next = false

-- `struct ImageRecord`
pub record ImageRecord : Type 0 where
  pub name : Bytes
  pub target_digest : Bytes
  pub image_id : Bytes
  pub repo_tags : List Bytes
  pub repo_digests : List Bytes
  pub size : ℕ
  pub layer_digests : List Bytes
  pub chain_ids : List Bytes
  pub user : Bytes

abbrev pub Labels : Type 0
Labels = List (Bytes × Bytes)

-- `struct SandboxRecord`
pub record SandboxRecord : Type 0 where
  pub id : Bytes
  pub name : Bytes
  pub k8s_namespace : Bytes
  pub uid : Bytes
  pub attempt : ℕ
  pub state : SandboxState
  pub netns_path : Option Bytes
  pub ip : Option Bytes
  pub runtime_handler : Bytes
  pub pause_container_id : Option Bytes
  pub snapshot_key : Option Bytes
  pub created_at : ℕ
  pub labels : Labels
  pub annotations : Labels
  pub log_directory : Bytes
  pub host_network : Bool
  pub host_pid : Bool
  pub host_ipc : Bool
  pub shared_pid : Bool
  pub shared_ipc : Bool
  pub pid_holder_pid : Option ℤ
  pub userns_mode_pod : Bool
  pub userns_uid_mappings : List (ℕ × ℕ × ℕ)
  pub userns_gid_mappings : List (ℕ × ℕ × ℕ)
  pub resolv_conf_path : Option Bytes
  pub sysctls : Labels
  pub cgroup_parent : Bytes
  pub hostname : Bytes

-- `struct MountRecord`
pub record MountRecord : Type 0 where
  pub host_path : Bytes
  pub container_path : Bytes
  pub readonly : Bool
  pub propagation : ℤ
  pub recursive_read_only : Bool

-- `struct ResourcesRecord`
pub record ResourcesRecord : Type 0 where
  pub cpu_period : ℤ
  pub cpu_quota : ℤ
  pub cpu_shares : ℤ
  pub memory_limit_in_bytes : ℤ
  pub cpuset_cpus : Bytes
  pub cpuset_mems : Bytes

-- `struct ContainerRecord`
pub record ContainerRecord : Type 0 where
  pub id : Bytes
  pub sandbox_id : Bytes
  pub name : Bytes
  pub attempt : ℕ
  pub image_ref : Bytes
  pub image_id : Bytes
  pub state : ContainerState
  pub snapshot_key : Bytes
  pub log_path : Bytes
  pub created_at : ℕ
  pub started_at : Option ℕ
  pub finished_at : Option ℕ
  pub exit_code : Option ℤ
  pub reason : Option Bytes
  pub labels : Labels
  pub annotations : Labels
  pub mounts : List MountRecord
  pub resources : Option ResourcesRecord
  pub crun_root : Option Bytes
  pub bundle_dir : Option Bytes
  pub pid : Option ℤ
  pub restart_count : ℕ
  pub stdin : Bool
  pub stdin_once : Bool
  pub devices : List (Bytes × Bytes × Bytes)
