-- ===== src/Cri/Creation/Request.antt =====
-- crates/cri/src/server.rs: the request for a container, the checks of it, and the request of the
-- bundle and the record that `create_container` makes of it.
use containerd_rs.Base.{
  ℕ, ℤ, is_num, as_u32, List, [], ◌∷◌, ◌++◌, map, Bytes, text, Bool, true, false, not, ◌&&◌, ◌||◌,
  Option, none, some, Result, ok, err, if◌then◌else◌, str_eq, is_nil, is_some, and_some, map_some,
  unwrap_or, decimal, pos, negsuc, suc,
}
use containerd_rs.Metadata.Records.{Labels, SandboxRecord, created, MountRecord, ContainerRecord}
use containerd_rs.Runtime.Bundle.Request.{
  MountSpec, private_mount, IdMapping, DeviceRequest, ContainerRequest,
}
use containerd_rs.Cri.Convert.{
  LinuxContainerResources, SecurityProfile, SeLinuxOption, resources_record, cri_resources,
  no_resources, then_some, given, map_seccomp, map_apparmor, map_selinux, propagation_from,
  is_absolute, join_path, cgroups_path,
}
use containerd_rs.Cri.Service.{Status, invalid_argument}
use containerd_rs.Cri.Sandboxes.Request

-- `v1::ImageSpec`
pub record ImageSpec : Type 0 where
  pub image : Bytes
  pub annotations : Labels
  pub user_specified_image : Bytes
  pub runtime_handler : Bytes
  pub image_ref : Bytes

-- `v1::Mount`
pub record Mount : Type 0 where
  pub container_path : Bytes
  pub host_path : Bytes
  pub readonly : Bool
  pub selinux_relabel : Bool
  pub propagation : ℤ
  pub uid_mappings : List Request.IdMapping
  pub gid_mappings : List Request.IdMapping
  pub recursive_read_only : Bool
  pub image : Option ImageSpec
  pub image_sub_path : Bytes

-- The other messages of the protocol, as far as they are read.
pub record Device : Type 0 where
  pub container_path : Bytes
  pub host_path : Bytes
  pub permissions : Bytes

pub record Capability : Type 0 where
  pub add_capabilities : List Bytes
  pub drop_capabilities : List Bytes

pub record SecurityContext : Type 0 where
  pub capabilities : Option Capability
  pub privileged : Bool
  pub selinux_options : Option SeLinuxOption
  pub run_as_user : Option ℤ
  pub run_as_group : Option ℤ
  pub run_as_username : Bytes
  pub readonly_rootfs : Bool
  pub supplemental_groups : List ℤ
  pub no_new_privs : Bool
  pub masked_paths : List Bytes
  pub readonly_paths : List Bytes
  pub seccomp : Option SecurityProfile
  pub apparmor : Option SecurityProfile

pub record LinuxContainerConfig : Type 0 where
  pub resources : Option LinuxContainerResources
  pub security_context : Option SecurityContext

pub record ContainerMetadata : Type 0 where
  pub name : Bytes
  pub attempt : ℕ

-- `image` is the name in the image specification.
pub record ContainerConfig : Type 0 where
  pub metadata : Option ContainerMetadata
  pub image : Option Bytes
  pub command : List Bytes
  pub args : List Bytes
  pub working_dir : Bytes
  pub envs : List (Bytes × Bytes)
  pub mounts : List Mount
  pub devices : List Device
  pub labels : Labels
  pub annotations : Labels
  pub log_path : Bytes
  pub stdin : Bool
  pub stdin_once : Bool
  pub tty : Bool
  pub linux : Option LinuxContainerConfig

abbrev pub no_name : ContainerMetadata
no_name = record { name = []; attempt = 0 }

-- The default of `SecurityContext`, whose values stand where there is none.
abbrev pub no_context : SecurityContext
no_context = record {
  capabilities = none;
  privileged = false;
  selinux_options = none;
  run_as_user = none;
  run_as_group = none;
  run_as_username = [];
  readonly_rootfs = false;
  supplemental_groups = [];
  no_new_privs = false;
  masked_paths = [];
  readonly_paths = [];
  seccomp = none;
  apparmor = none;
}

abbrev pub no_capability : Capability
no_capability = record { add_capabilities = []; drop_capabilities = [] }

abbrev pub sec_ctx : ContainerConfig → SecurityContext
sec_ctx c = unwrap_or no_context (and_some c.linux (λ l. l.security_context))

-- A group without a user.
unfoldable pub has_lone_group : SecurityContext → Bool
has_lone_group sc =
    is_some sc.run_as_group && not (is_some sc.run_as_user || not (is_nil sc.run_as_username))

-- The loop that checks the recursive read-only mounts.
unfoldable pub check_mounts : List Mount → Result Status Unit
check_mounts [] = ok tt
check_mounts (m ∷ ms) =
    let rest = check_mounts ms in
    if not m.recursive_read_only
    then rest
    else if not m.readonly
    then err (
        invalid_argument (
          text "recursive read-only mount "
          ++ (m.container_path ++ text " requires readonly=true")))
    else if not (is_num 0 m.propagation)
    then err (
        invalid_argument (
          text "recursive read-only mount "
          ++ (m.container_path ++ text " requires private propagation")))
    else rest

-- Both checks.
unfoldable pub check_config : ContainerConfig → Result Status Unit
unfolding has_lone_group check_mounts
check_config c =
    if has_lone_group (sec_ctx c)
    then err (invalid_argument (text "RunAsGroup is specified without RunAsUser"))
    else check_mounts c.mounts

unfoldable pub mount_spec : Mount → MountSpec
unfolding propagation_from
mount_spec m = record {
  source = m.host_path;
  destination = m.container_path;
  readonly = m.readonly;
  propagation = propagation_from m.propagation;
  recursive_read_only = m.recursive_read_only;
}

unfoldable pub has_destination : Bytes → List MountSpec → Bool
unfolding str_eq
has_destination d [] = false
has_destination d (m ∷ ms) = str_eq m.destination d || has_destination d ms

abbrev pub resolv_mount : Bytes → MountSpec
resolv_mount path = record {
  source = path;
  destination = text "/etc/resolv.conf";
  readonly = true;
  propagation = private_mount;
  recursive_read_only = false;
}

-- The mounts, with that of the pod's resolv.conf behind them where it is wanted and there.
unfoldable pub with_resolv : (Bytes → Bool) → Option Bytes → List MountSpec → List MountSpec
unfolding has_destination
with_resolv is_file none mounts = mounts
with_resolv is_file (some rc) mounts =
    if not (has_destination (text "/etc/resolv.conf") mounts) && is_file rc
    then mounts ++ resolv_mount rc ∷ []
    else mounts

abbrev pub id_mapping : ℕ × ℕ × ℕ → IdMapping
id_mapping (container_id, host_id, size) = record {
  container_id = container_id;
  host_id = host_id;
  size = size;
}

abbrev pub device_request : Device → DeviceRequest
device_request d = record {
  host_path = d.host_path;
  container_path = d.container_path;
  permissions = d.permissions;
}

-- A process id as it is printed.
abbrev pub decimal_of : ℤ → Bytes
decimal_of (pos n) = decimal n
decimal_of (negsuc n) = b'-' ∷ decimal (suc n)

-- The path of a namespace of the pod's holder, where the pod shares it and there is a holder.
abbrev pub held_ns : Bytes → Bool → Option ℤ → Option Bytes
held_ns name false holder = none
held_ns name true holder =
    map_some (λ p. text "/proc/" ++ (decimal_of p ++ (text "/ns/" ++ name))) holder

abbrev pub resources_of : ContainerConfig → Option LinuxContainerResources
resources_of c = and_some c.linux (λ l. l.resources)

-- What the request takes of the host: the ids of a daemon without root, the tests of files and of
-- SELinux, and `from_utf8_lossy`.
pub record Facts : Type 0 where
  pub host_ids : Option (ℕ × ℕ)
  pub is_file : Bytes → Bool
  pub selinux_enabled : Bool
  pub from_utf8_lossy : Bytes → Bytes

abbrev pub selinux_of : Bool → Option SeLinuxOption → Option Bytes
selinux_of true options = map_selinux options
selinux_of false options = none

-- The request of the bundle.
unfoldable pub container_request :
    Facts → Bytes → SandboxRecord → ContainerConfig → ContainerRequest
unfolding mount_spec with_resolv cri_resources cgroups_path map_apparmor map_selinux map_seccomp
    decimal
container_request facts id sandbox c =
    let sc = sec_ctx c in
    record {
      command = c.command;
      args = c.args;
      envs = map (λ (kv : Bytes × Bytes). (kv.0, facts.from_utf8_lossy kv.1)) c.envs;
      working_dir = given c.working_dir;
      hostname =
          then_some (not sandbox.host_network && not (is_nil sandbox.hostname)) sandbox.hostname;
      terminal = c.tty;
      readonly_rootfs = sc.readonly_rootfs;
      rootless_host_ids = facts.host_ids;
      netns_path = sandbox.netns_path;
      pid_ns_path = held_ns (text "pid") sandbox.shared_pid sandbox.pid_holder_pid;
      ipc_ns_path = held_ns (text "ipc") sandbox.shared_ipc sandbox.pid_holder_pid;
      mounts = with_resolv facts.is_file sandbox.resolv_conf_path (map mount_spec c.mounts);
      privileged = sc.privileged;
      run_as_user = map_some as_u32 sc.run_as_user;
      run_as_group = map_some as_u32 sc.run_as_group;
      supplemental_groups = map as_u32 sc.supplemental_groups;
      sysctls = sandbox.sysctls;
      resources = unwrap_or no_resources (map_some cri_resources (resources_of c));
      cgroup_path =
          then_some (not (is_nil sandbox.cgroup_parent)) (cgroups_path sandbox.cgroup_parent id);
      add_capabilities = (unwrap_or no_capability sc.capabilities).add_capabilities;
      drop_capabilities = (unwrap_or no_capability sc.capabilities).drop_capabilities;
      no_new_privileges = sc.no_new_privs;
      apparmor_profile = map_apparmor sc.apparmor;
      selinux_label = selinux_of facts.selinux_enabled sc.selinux_options;
      masked_paths = sc.masked_paths;
      readonly_paths = sc.readonly_paths;
      seccomp = map_seccomp sc.seccomp;
      host_pid = sandbox.host_pid;
      host_ipc = sandbox.host_ipc;
      userns_uid_mappings = map id_mapping sandbox.userns_uid_mappings;
      userns_gid_mappings = map id_mapping sandbox.userns_gid_mappings;
      devices = if sc.privileged then [] else map device_request c.devices;
    }

-- The path of the log: below the sandbox's directory, unless it is absolute or there is none.
unfoldable pub log_path_of : SandboxRecord → Bytes → Bytes
unfolding join_path
log_path_of sandbox log_path =
    if is_absolute log_path || is_nil sandbox.log_directory
    then log_path
    else join_path sandbox.log_directory log_path

unfoldable pub mount_record : Mount → MountRecord
mount_record m = record {
  host_path = m.host_path;
  container_path = m.container_path;
  readonly = m.readonly;
  propagation = m.propagation;
  recursive_read_only = m.recursive_read_only;
}

-- The record of the new container.
unfoldable pub new_container :
    Bytes → Bytes → SandboxRecord → Bytes → ℕ → ContainerConfig → ContainerRecord
unfolding log_path_of mount_record resources_record
new_container id sandbox_id sandbox image_id now c =
    let meta = unwrap_or no_name c.metadata in
    record {
      id = id;
      sandbox_id = sandbox_id;
      name = meta.name;
      attempt = meta.attempt;
      image_ref = unwrap_or [] c.image;
      image_id = image_id;
      state = created;
      snapshot_key = [];
      log_path = log_path_of sandbox c.log_path;
      created_at = now;
      started_at = none;
      finished_at = none;
      exit_code = none;
      reason = none;
      labels = c.labels;
      annotations = c.annotations;
      mounts = map mount_record c.mounts;
      resources = map_some resources_record (resources_of c);
      crun_root = none;
      bundle_dir = none;
      pid = none;
      restart_count = 0;
      stdin = c.stdin;
      stdin_once = c.stdin_once;
      devices =
          if (sec_ctx c).privileged
          then []
          else map (λ (d : Device). (d.host_path, d.container_path, d.permissions)) c.devices;
    }
