-- ===== src/Tests/Bundles.antt =====
-- Generated runtime specifications of a small host.
use containerd_rs.Base.{
  ◌≡◌, refl, pos, List, [], ◌∷◌, Bytes, text, true, false, ◌&&◌, ◌||◌, not, none, some, Result, ok,
  err, str_eq,
}
use containerd_rs.Runtime.Seccomp.{DockerProfile, Filter, SyscallBlock, runtime_default, host_arch}
use containerd_rs.Runtime.Bundle.Request.{
  ImageConfig, ContainerRequest, host_to_container, runtime_default_profile, Error,
}
use containerd_rs.Runtime.Bundle.Spec.{
  Spec, Linux, pid_ns, ipc_ns, network_ns, on_linux, on_process,
}
use containerd_rs.Runtime.Bundle.Capabilities.{all_capabilities, bounding_of, apply_capabilities}
use containerd_rs.Runtime.Bundle.Capabilities.Sets.{names_cap, bounding-apply_capabilities}
use containerd_rs.Runtime.Bundle.Namespaces.{
  at_path, network_at, set_network_namespace, apply_host_namespaces, apply_user_namespace,
  join_namespace,
}
use containerd_rs.Runtime.Bundle.Namespaces.Steps.{only}
use containerd_rs.Runtime.Bundle.Mounts.{add_bind_mounts, add_mounts, add_mount}
use containerd_rs.Runtime.Bundle.Limits.{apply_sysctls, apply_devices}
use containerd_rs.Runtime.Bundle.Security.{effective_capabilities, apply_security, seccomp_for}
use containerd_rs.Runtime.Bundle.Generate.{
  Host, generate_spec, process_of, isolated, confined, restricted,
}
use containerd_rs.Runtime.Bundle.Generate.Kept.{filter_of}
use containerd_rs.Runtime.Bundle.Generate.FailClosed.{IsFiltered, generate_spec-IsFiltered}
use containerd_rs.Runtime.Bundle.Generate.Joined.{namespaces_of, isolated-joined}

abbrev no_filter : Filter
no_filter = record { caps = []; arches = []; min_kernel = none }

abbrev reads : SyscallBlock
reads = record {
  names = text "read" ∷ [];
  action = text "SCMP_ACT_ALLOW";
  errno_ret = none;
  args = [];
  includes = no_filter;
  excludes = no_filter;
}

abbrev mounts : SyscallBlock
mounts = record reads {
  names = text "mount" ∷ [];
  includes = record no_filter { caps = text "CAP_SYS_ADMIN" ∷ [] };
}

abbrev profile : DockerProfile
profile = record {
  default_action = text "SCMP_ACT_ERRNO";
  default_errno_ret = some (pos 1);
  arch_map = [];
  syscalls = reads ∷ mounts ∷ [];
}

abbrev linux : Linux
linux = record {
  uid_mappings = none;
  gid_mappings = none;
  sysctl = none;
  resources = none;
  cgroups_path = none;
  namespaces = some (
      record { typ = pid_ns; path = none }
      ∷ record { typ = network_ns; path = none }
      ∷ record { typ = ipc_ns; path = none }
      ∷ []);
  devices = none;
  seccomp = none;
  rootfs_propagation = none;
  masked_paths = some (text "/proc/kcore" ∷ []);
  readonly_paths = none;
}

abbrev base : Spec
base = record {
  process = none;
  root = none;
  hostname = some (text "youki");
  mounts = none;
  linux = some linux;
}

abbrev pub host : Host
host = record {
  default_spec = base;
  rootless_spec = λ ids. base;
  trim_upper = λ s. s;
  parse_capability = λ s. some s;
  read_file = λ p. err (text "not found");
  parse_profile = λ b. err (text "no profile");
  bundled = ok profile;
  from_value = ok;
  arch = text "x86_64";
  stat = λ p. err (text "not found");
  Files = List Bytes;
  path_exists = λ fs p. false;
  create_dir_all = λ p fs. p ∷ fs;
}

abbrev image : ImageConfig
image = record {
  env = text "PATH=/bin" ∷ text "A=1" ∷ [];
  entrypoint = text "/init" ∷ [];
  cmd = text "run" ∷ [];
  working_dir = none;
  user = some (text "7:8");
}

abbrev request : ContainerRequest
request = record {
  command = [];
  args = [];
  envs = (text "A", text "2") ∷ (text "B", text "x") ∷ [];
  working_dir = none;
  hostname = none;
  terminal = false;
  readonly_rootfs = true;
  rootless_host_ids = none;
  netns_path = some (text "/run/netns/a");
  pid_ns_path = none;
  ipc_ns_path = some (text "/proc/9/ns/ipc");
  mounts =
      record {
        source = text "/data";
        destination = text "/mnt";
        readonly = true;
        propagation = host_to_container;
        recursive_read_only = false;
      }
      ∷ [];
  privileged = false;
  run_as_user = none;
  run_as_group = none;
  supplemental_groups = [];
  sysctls = [];
  resources = record {
    cpu_shares = none;
    cpu_quota = none;
    cpu_period = none;
    memory_limit = none;
    cpuset_cpus = none;
    cpuset_mems = none;
    hugepage_limits = [];
    unified = [];
  };
  cgroup_path = none;
  add_capabilities = text "CAP_SYS_ADMIN" ∷ [];
  drop_capabilities = text "ALL" ∷ [];
  no_new_privileges = true;
  apparmor_profile = none;
  selinux_label = none;
  masked_paths = [];
  readonly_paths = [];
  seccomp = runtime_default_profile;
  host_pid = true;
  host_ipc = false;
  userns_uid_mappings = [];
  userns_gid_mappings = [];
  devices = [];
}

abbrev or_base : Result Error Spec → Spec
or_base (ok spec) = spec
or_base (err e) = base

generated : Spec
generated = or_base ((generate_spec host image request (text "rootfs") []).0)

isolated-joined_example :
    (only network_ns (namespaces_of (isolated host image request (text "rootfs")))
      ≡ network_at (some (text "/run/netns/a")))
    × (only pid_ns (namespaces_of (isolated host image request (text "rootfs"))) ≡ [])
    × (only ipc_ns (namespaces_of (isolated host image request (text "rootfs")))
        ≡ at_path ipc_ns (text "/proc/9/ns/ipc") ∷ [])
isolated-joined_example = isolated-joined host image request (text "rootfs") refl

abbrev with_process : Spec
with_process = record base { process = some (process_of image request) }

bounding-apply_capabilities_example :
    bounding_of
      (apply_capabilities host.trim_upper host.parse_capability
        (text "CAP_SYS_ADMIN" ∷ [])
        (text "ALL" ∷ [])
        with_process)
      (text "SYS_ADMIN")
    ≡ (names_cap host.trim_upper host.parse_capability all_capabilities
          (text "CAP_SYS_ADMIN" ∷ [])
          (text "SYS_ADMIN")
        || (bounding_of with_process (text "SYS_ADMIN")
            && not (
                names_cap host.trim_upper host.parse_capability
                  (λ d. true)
                  (text "ALL" ∷ [])
                  (text "SYS_ADMIN"))))
bounding-apply_capabilities_example =
    bounding-apply_capabilities host.trim_upper host.parse_capability (text "CAP_SYS_ADMIN" ∷ [])
      (text "ALL" ∷ []) with_process (text "SYS_ADMIN") refl

generated_ok :
    generate_spec host image request (text "rootfs") [] ≡ (ok generated, text "/data" ∷ [])
unfolding generated generate_spec isolated confined restricted set_network_namespace
    apply_host_namespaces apply_user_namespace join_namespace on_linux on_process add_bind_mounts
    add_mounts add_mount apply_capabilities apply_security seccomp_for runtime_default host_arch
    str_eq apply_devices apply_sysctls
generated_ok = refl

generate_spec-IsFiltered_example :
    IsFiltered host (effective_capabilities generated) runtime_default_profile (filter_of generated)
unfolding generated generate_spec isolated confined restricted set_network_namespace
    apply_host_namespaces apply_user_namespace join_namespace on_linux on_process add_bind_mounts
    add_mounts add_mount apply_capabilities apply_security seccomp_for runtime_default host_arch
    str_eq apply_devices apply_sysctls
generate_spec-IsFiltered_example =
    generate_spec-IsFiltered host image request (text "rootfs") [] (text "/data" ∷ []) generated
      refl generated_ok refl
