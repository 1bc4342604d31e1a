-- ===== src/Runtime/Seccomp.antt =====
-- crates/runtime/src/seccomp.rs: resolving the default profile for an architecture and capabilities.
-- Parsing the bundled JSON, and checking the result against the type of oci-spec, are parameters.
pub mod Resolve
use containerd_rs.Base.{
  List, [], ◌∷◌, ◌++◌, Bytes, text, Bool, false, not, ◌&&◌, ◌||◌, Option, none, some, Result, ok,
  err, if◌then◌else◌, str_eq, ℤ, is_some, is_nil,
}

-- `struct Filter`
pub record Filter : Type 0 where
  pub caps : List Bytes
  pub arches : List Bytes
  pub min_kernel : Option Bytes

-- `struct SyscallBlock`; an argument condition is its JSON text.
pub record SyscallBlock : Type 0 where
  pub names : List Bytes
  pub action : Bytes
  pub errno_ret : Option ℤ
  pub args : List Bytes
  pub includes : Filter
  pub excludes : Filter

-- `struct ArchMapEntry`
pub record ArchMapEntry : Type 0 where
  pub architecture : Bytes
  pub sub_architectures : Option (List Bytes)

-- `struct DockerProfile`
pub record DockerProfile : Type 0 where
  pub default_action : Bytes
  pub default_errno_ret : Option ℤ
  pub arch_map : List ArchMapEntry
  pub syscalls : List SyscallBlock

-- One entry of the `syscalls` that are emitted.
pub record Syscall : Type 0 where
  pub names : List Bytes
  pub action : Bytes
  pub errno_ret : Option ℤ
  pub args : List Bytes

-- `LinuxSeccomp` of oci-spec, as far as it is filled.
pub record LinuxSeccomp : Type 0 where
  pub default_action : Bytes
  pub default_errno_ret : Option ℤ
  pub architectures : List Bytes
  pub syscalls : List Syscall

-- `host_arch`, on the name of the build's architecture.
unfoldable pub host_arch : Bytes → Option (Bytes × Bytes)
unfolding str_eq
host_arch arch =
    if str_eq arch (text "x86_64")
    then some (text "amd64", text "SCMP_ARCH_X86_64")
    else if str_eq arch (text "aarch64")
    then some (text "arm64", text "SCMP_ARCH_AARCH64")
    else none

-- A set of capabilities, by the `CAP_*` strings that it contains.
abbrev pub CapNames : Type 0
CapNames = Bytes → Bool

-- `cap_matches`
unfoldable pub cap_matches : CapNames → List Bytes → Bool
cap_matches caps [] = false
cap_matches caps (c ∷ cs) = caps c || cap_matches caps cs

unfoldable pub any_is : Bytes → List Bytes → Bool
any_is a [] = false
any_is a (x ∷ xs) = str_eq x a || any_is a xs

-- `arch_matches`
abbrev pub arch_matches : Option (Bytes × Bytes) → List Bytes → Bool
arch_matches none names = false
arch_matches (some (goarch, scmp)) names = any_is goarch names

-- The five tests of the loop, of which each drops the block.
unfoldable pub is_kept : Option (Bytes × Bytes) → CapNames → SyscallBlock → Bool
is_kept host caps block =
    if not (is_nil block.excludes.arches) && arch_matches host block.excludes.arches
    then false
    else if not (is_nil block.excludes.caps) && cap_matches caps block.excludes.caps
    then false
    else if not (is_nil block.includes.arches) && not (arch_matches host block.includes.arches)
    then false
    else if not (is_nil block.includes.caps) && not (cap_matches caps block.includes.caps)
    then false
    else not (is_some block.excludes.min_kernel)

abbrev pub entry : SyscallBlock → Syscall
entry b = record { names = b.names; action = b.action; errno_ret = b.errno_ret; args = b.args }

unfoldable pub kept_syscalls : Option (Bytes × Bytes) → CapNames → List SyscallBlock → List Syscall
unfolding is_kept
kept_syscalls host caps [] = []
kept_syscalls host caps (b ∷ bs) =
    let rest = kept_syscalls host caps bs in if is_kept host caps b then entry b ∷ rest else rest

abbrev pub with_subs : Bytes → Option (List Bytes) → List Bytes
with_subs a none = a ∷ []
with_subs a (some subs) = a ∷ subs

unfoldable pub find_arch : Bytes → List ArchMapEntry → List Bytes
find_arch scmp [] = []
find_arch scmp (e ∷ es) =
    let rest = find_arch scmp es in
    if str_eq e.architecture scmp then with_subs e.architecture e.sub_architectures else rest

abbrev pub architectures_of : Option (Bytes × Bytes) → List ArchMapEntry → List Bytes
architectures_of none entries = []
architectures_of (some (goarch, scmp)) entries = find_arch scmp entries

abbrev pub resolve : Option (Bytes × Bytes) → CapNames → DockerProfile → LinuxSeccomp
resolve host caps profile = record {
  default_action = profile.default_action;
  default_errno_ret = profile.default_errno_ret;
  architectures = architectures_of host profile.arch_map;
  syscalls = kept_syscalls host caps profile.syscalls;
}

abbrev pub resolved :
    (LinuxSeccomp → Result Bytes LinuxSeccomp)
    → Option (Bytes × Bytes)
    → CapNames
    → Result Bytes DockerProfile
    → Result Bytes LinuxSeccomp
resolved from_value host caps (err e) = err e
resolved from_value host caps (ok profile) = from_value (resolve host caps profile)

-- `runtime_default`
unfoldable pub runtime_default :
    Result Bytes DockerProfile
    → (LinuxSeccomp → Result Bytes LinuxSeccomp)
    → Bytes
    → CapNames
    → Result Bytes LinuxSeccomp
unfolding host_arch
runtime_default bundled from_value arch caps = resolved from_value (host_arch arch) caps bundled
