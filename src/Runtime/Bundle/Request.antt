-- ===== src/Runtime/Bundle/Request.antt =====
-- crates/runtime/src/bundle.rs: what a container is requested with.
use containerd_rs.Base.{ℕ, ℤ, List, Bytes, Bool, ◌&&◌, not, Option, is_some, is_nil}
use containerd_rs.Metadata.Records.{Labels}

-- `enum Propagation`
pub data Propagation : Type 0 where
  private_mount host_to_container bidirectional : Propagation

-- `struct MountSpec`
pub record MountSpec : Type 0 where
  pub source : Bytes
  pub destination : Bytes
  pub readonly : Bool
  pub propagation : Propagation
  pub recursive_read_only : Bool

-- `enum Error`, each with its message.
pub data Error : Type 0 where
  spec builder io : Bytes → Error

-- `struct ImageConfig`
pub record ImageConfig : Type 0 where
  pub env : List Bytes
  pub entrypoint : List Bytes
  pub cmd : List Bytes
  pub working_dir : Option Bytes
  pub user : Option Bytes

-- `struct IdMapping`
pub record IdMapping : Type 0 where
  pub container_id : ℕ
  pub host_id : ℕ
  pub size : ℕ

-- `struct DeviceRequest`
pub record DeviceRequest : Type 0 where
  pub host_path : Bytes
  pub container_path : Bytes
  pub permissions : Bytes

-- `enum SeccompProfile`
pub data SeccompProfile : Type 0 where
  unconfined runtime_default_profile : SeccompProfile
  localhost : Bytes → SeccompProfile

-- `struct Resources`
pub record Resources : Type 0 where
  pub cpu_shares : Option ℕ
  pub cpu_quota : Option ℤ
  pub cpu_period : Option ℕ
  pub memory_limit : Option ℤ
  pub cpuset_cpus : Option Bytes
  pub cpuset_mems : Option Bytes
  pub hugepage_limits : List (Bytes × ℕ)
  pub unified : Labels

-- `Resources::is_empty`
unfoldable pub has_no_resources : Resources → Bool
has_no_resources r =
    not (is_some r.cpu_shares)
    && not (is_some r.cpu_quota)
    && not (is_some r.cpu_period)
    && not (is_some r.memory_limit)
    && not (is_some r.cpuset_cpus)
    && not (is_some r.cpuset_mems)
    && is_nil r.hugepage_limits
    && is_nil r.unified

-- `struct ContainerRequest`
pub record ContainerRequest : Type 0 where
  pub command : List Bytes
  pub args : List Bytes
  pub envs : List (Bytes × Bytes)
  pub working_dir : Option Bytes
  pub hostname : Option Bytes
  pub terminal : Bool
  pub readonly_rootfs : Bool
  pub rootless_host_ids : Option (ℕ × ℕ)
  pub netns_path : Option Bytes
  pub pid_ns_path : Option Bytes
  pub ipc_ns_path : Option Bytes
  pub mounts : List MountSpec
  pub privileged : Bool
  pub run_as_user : Option ℕ
  pub run_as_group : Option ℕ
  pub supplemental_groups : List ℕ
  pub sysctls : Labels
  pub resources : Resources
  pub cgroup_path : Option Bytes
  pub add_capabilities : List Bytes
  pub drop_capabilities : List Bytes
  pub no_new_privileges : Bool
  pub apparmor_profile : Option Bytes
  pub selinux_label : Option Bytes
  pub masked_paths : List Bytes
  pub readonly_paths : List Bytes
  pub seccomp : SeccompProfile
  pub host_pid : Bool
  pub host_ipc : Bool
  pub userns_uid_mappings : List IdMapping
  pub userns_gid_mappings : List IdMapping
  pub devices : List DeviceRequest
