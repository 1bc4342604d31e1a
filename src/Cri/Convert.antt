-- ===== src/Cri/Convert.antt =====
-- crates/cri/src/server.rs: the conversions between the messages of the protocol, the records and
-- the request of the bundle. The numbers of the enumerations are those of runtime/v1/api.proto.
use containerd_rs.Base.{
  ℕ, ℤ, pos, is_num, is_positive, is_nonzero, as_u64, List, [], ◌∷◌, ◌++◌, Bytes, text, Bool, true,
  false, not, ◌&&◌, Option, none, some, ltb, ◌==◌, if◌then◌else◌, is_nil, unwrap_or, strip_prefix,
}
use mathlib.Core.List.{reverse}
use containerd_rs.Snapshots.Paths.{components, file_name}
use containerd_rs.Snapshots.Diff.{ends_with}
use containerd_rs.Metadata.Records.{
  Labels, SandboxState, ready, not_ready, ContainerState, created, running, exited, unknown,
  ResourcesRecord,
}
use containerd_rs.Runtime.Bundle.Request.{
  Resources, SeccompProfile, unconfined, runtime_default_profile, localhost, Propagation,
  private_mount, host_to_container, bidirectional,
}

-- `sandbox_state_i32` and `container_state_i32`
unfoldable pub sandbox_state_i32 : SandboxState → ℤ
sandbox_state_i32 ready = pos 0
sandbox_state_i32 not_ready = pos 1

unfoldable pub container_state_i32 : ContainerState → ℤ
container_state_i32 created = pos 0
container_state_i32 running = pos 1
container_state_i32 exited = pos 2
container_state_i32 unknown = pos 3

-- `v1::HugepageLimit` and `v1::LinuxContainerResources`, as far as they are read.
pub record HugepageLimit : Type 0 where
  pub page_size : Bytes
  pub limit : ℕ

pub record LinuxContainerResources : Type 0 where
  pub cpu_period : ℤ
  pub cpu_quota : ℤ
  pub cpu_shares : ℤ
  pub memory_limit_in_bytes : ℤ
  pub cpuset_cpus : Bytes
  pub cpuset_mems : Bytes
  pub hugepage_limits : List HugepageLimit
  pub unified : Labels

-- `resources_record`
unfoldable pub resources_record : LinuxContainerResources → ResourcesRecord
resources_record r = record {
  cpu_period = r.cpu_period;
  cpu_quota = r.cpu_quota;
  cpu_shares = r.cpu_shares;
  memory_limit_in_bytes = r.memory_limit_in_bytes;
  cpuset_cpus = r.cpuset_cpus;
  cpuset_mems = r.cpuset_mems;
}

-- `record_to_cri_resources`
unfoldable pub record_to_cri_resources : ResourcesRecord → LinuxContainerResources
record_to_cri_resources r = record {
  cpu_period = r.cpu_period;
  cpu_quota = r.cpu_quota;
  cpu_shares = r.cpu_shares;
  memory_limit_in_bytes = r.memory_limit_in_bytes;
  cpuset_cpus = r.cpuset_cpus;
  cpuset_mems = r.cpuset_mems;
  hugepage_limits = [];
  unified = [];
}

-- `b.then_some(a)`
abbrev pub then_some {ℓ} : {A : Type ℓ} → Bool → A → Option A
then_some true a = some a
then_some false a = none

abbrev pub given : Bytes → Option Bytes
given s = then_some (not (is_nil s)) s

unfoldable pub hugepages : List HugepageLimit → List (Bytes × ℕ)
hugepages [] = []
hugepages (h ∷ hs) =
    let rest = hugepages hs in
    if ltb 0 h.limit && not (is_nil h.page_size) then (h.page_size, h.limit) ∷ rest else rest

-- `cri_resources`
unfoldable pub cri_resources : LinuxContainerResources → Resources
unfolding hugepages
cri_resources r = record {
  cpu_shares = then_some (is_positive r.cpu_shares) (as_u64 r.cpu_shares);
  cpu_quota = then_some (is_nonzero r.cpu_quota) r.cpu_quota;
  cpu_period = then_some (is_positive r.cpu_period) (as_u64 r.cpu_period);
  memory_limit = then_some (is_positive r.memory_limit_in_bytes) r.memory_limit_in_bytes;
  cpuset_cpus = given r.cpuset_cpus;
  cpuset_mems = given r.cpuset_mems;
  hugepage_limits = hugepages r.hugepage_limits;
  unified = r.unified;
}

-- The default of the bundle's `Resources`.
abbrev pub no_resources : Resources
no_resources = record {
  cpu_shares = none;
  cpu_quota = none;
  cpu_period = none;
  memory_limit = none;
  cpuset_cpus = none;
  cpuset_mems = none;
  hugepage_limits = [];
  unified = [];
}

-- `v1::SecurityProfile`
pub record SecurityProfile : Type 0 where
  pub profile_type : ℤ
  pub localhost_ref : Bytes

-- `map_seccomp`
unfoldable pub map_seccomp : Option SecurityProfile → SeccompProfile
map_seccomp none = unconfined
map_seccomp (some p) =
    if is_num 0 p.profile_type
    then runtime_default_profile
    else if is_num 2 p.profile_type
    then localhost p.localhost_ref
    else unconfined

-- `map_apparmor`
unfoldable pub map_apparmor : Option SecurityProfile → Option Bytes
map_apparmor none = none
map_apparmor (some p) =
    if is_num 2 p.profile_type && not (is_nil p.localhost_ref)
    then some p.localhost_ref
    else if is_num 1 p.profile_type
    then some (text "unconfined")
    else none

-- `v1::SeLinuxOption`
pub record SeLinuxOption : Type 0 where
  pub user : Bytes
  pub role : Bytes
  pub typ : Bytes
  pub level : Bytes

-- `map_selinux`
unfoldable pub map_selinux : Option SeLinuxOption → Option Bytes
map_selinux none = none
map_selinux (some o) =
    if is_nil o.user && is_nil o.role && is_nil o.typ && is_nil o.level
    then none
    else some (o.user ++ (b':' ∷ (o.role ++ (b':' ∷ (o.typ ++ (b':' ∷ o.level))))))

-- The match on a mount's propagation.
unfoldable pub propagation_from : ℤ → Propagation
propagation_from i =
    if is_num 1 i then host_to_container else if is_num 2 i then bidirectional else private_mount

-- `Path::is_absolute`, and `Path::join` as it is displayed.
abbrev pub is_absolute : Bytes → Bool
is_absolute [] = false
is_absolute (c ∷ cs) = c == b'/'

unfoldable pub join_path : Bytes → Bytes → Bytes
unfolding ends_with strip_prefix
join_path base p =
    if is_absolute p
    then p
    else if is_nil base
    then p
    else if ends_with base (text "/")
    then base ++ p
    else base ++ (b'/' ∷ p)

-- `s.trim_end_matches('/')`
unfoldable pub skip_slashes : Bytes → Bytes
skip_slashes [] = []
skip_slashes (c ∷ cs) = let rest = skip_slashes cs in if c == b'/' then rest else c ∷ cs

-- `cgroups_path`
unfoldable pub cgroups_path : Bytes → Bytes → Bytes
unfolding ends_with strip_prefix components file_name skip_slashes
cgroups_path cgroup_parent id =
    let base = unwrap_or [] (file_name (components cgroup_parent)) in
    if ends_with base (text ".slice")
    then base ++ (text ":cri-containerd:" ++ id)
    else reverse (skip_slashes (reverse cgroup_parent)) ++ (b'/' ∷ id)

-- `container_log_path`, of the directory of a bundle.
unfoldable pub container_log_path : Bytes → Bytes → Bytes
unfolding join_path
container_log_path dir log_path =
    if is_nil log_path then join_path dir (text "container.log") else join_path dir log_path
