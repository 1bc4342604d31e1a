-- ===== src/Runtime/Bundle/Spec.antt =====
-- The runtime specification that crates/runtime/src/bundle.rs fills: the fields of oci-spec's types
-- that it reads or writes. Its builders are given all fields that they require, so they succeed.
use containerd_rs.Base.{ℕ, ℤ, List, Bytes, Bool, Option, none, some}
use containerd_rs.Metadata.Records.{Labels}
use containerd_rs.Runtime.Seccomp.{LinuxSeccomp}
use containerd_rs.Runtime.Bundle.Request.{IdMapping}

pub data NamespaceType : Type 0 where
  mount_ns cgroup_ns uts_ns ipc_ns user_ns pid_ns network_ns time_ns : NamespaceType

pub record LinuxNamespace : Type 0 where
  pub typ : NamespaceType
  pub path : Option Bytes

-- A set of capabilities, by the names that it contains.
abbrev pub CapSet : Type 0
CapSet = Bytes → Bool

pub record LinuxCapabilities : Type 0 where
  pub bounding : Option CapSet
  pub effective : Option CapSet
  pub permitted : Option CapSet
  pub inheritable : Option CapSet
  pub ambient : Option CapSet

pub record User : Type 0 where
  pub uid : ℕ
  pub gid : ℕ
  pub additional_gids : Option (List ℕ)

pub record Process : Type 0 where
  pub terminal : Bool
  pub args : List Bytes
  pub env : List Bytes
  pub cwd : Bytes
  pub user : User
  pub capabilities : Option LinuxCapabilities
  pub no_new_privileges : Option Bool
  pub apparmor_profile : Option Bytes
  pub selinux_label : Option Bytes

pub record Root : Type 0 where
  pub path : Bytes
  pub readonly : Bool

pub record OciMount : Type 0 where
  pub destination : Bytes
  pub typ : Bytes
  pub source : Bytes
  pub options : List Bytes

pub data DeviceType : Type 0 where
  char_device block_device : DeviceType

-- A rule of the device cgroup; no type or number stands for all of them.
pub record DeviceRule : Type 0 where
  pub allow : Bool
  pub typ : Option DeviceType
  pub major : Option ℤ
  pub minor : Option ℤ
  pub access : Bytes

pub record LinuxDevice : Type 0 where
  pub path : Bytes
  pub typ : DeviceType
  pub major : ℤ
  pub minor : ℤ
  pub file_mode : ℕ
  pub uid : ℕ
  pub gid : ℕ

pub record LinuxCpu : Type 0 where
  pub shares : Option ℕ
  pub quota : Option ℤ
  pub period : Option ℕ
  pub cpus : Option Bytes
  pub mems : Option Bytes

pub record LinuxResources : Type 0 where
  pub devices : Option (List DeviceRule)
  pub memory_limit : Option ℤ
  pub cpu : Option LinuxCpu
  pub hugepage_limits : Option (List (Bytes × ℤ))
  pub unified : Option Labels

pub record Linux : Type 0 where
  pub uid_mappings : Option (List IdMapping)
  pub gid_mappings : Option (List IdMapping)
  pub sysctl : Option Labels
  pub resources : Option LinuxResources
  pub cgroups_path : Option Bytes
  pub namespaces : Option (List LinuxNamespace)
  pub devices : Option (List LinuxDevice)
  pub seccomp : Option LinuxSeccomp
  pub rootfs_propagation : Option Bytes
  pub masked_paths : Option (List Bytes)
  pub readonly_paths : Option (List Bytes)

pub record Spec : Type 0 where
  pub process : Option Process
  pub root : Option Root
  pub hostname : Option Bytes
  pub mounts : Option (List OciMount)
  pub linux : Option Linux

-- `if let Some(mut linux) = spec.linux().clone() { ..; spec.set_linux(Some(linux)) }`
abbrev pub on_some {ℓ} : {A : Type ℓ} → (A → A) → Option A → Option A
on_some f none = none
on_some f (some a) = some (f a)

unfoldable pub on_linux : (Linux → Linux) → Spec → Spec
on_linux f spec = record spec { linux = on_some f spec.linux }

-- The same for the process.
unfoldable pub on_process : (Process → Process) → Spec → Spec
on_process f spec = record spec { process = on_some f spec.process }
