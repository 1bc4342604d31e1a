-- ===== src/Runtime/Bundle/Namespaces.antt =====
-- crates/runtime/src/bundle.rs: the namespaces that the container has of its own, joins or shares.
pub mod Steps
use containerd_rs.Base.{
  ℕ, ◌==◌, List, [], ◌∷◌, ◌++◌, Bytes, text, Bool, true, false, not, ◌&&◌, ◌||◌, Option, none, some,
  if◌then◌else◌, str_eq, is_nil, unwrap_or,
}
use containerd_rs.Runtime.Bundle.Request.{IdMapping}
use containerd_rs.Runtime.Bundle.Spec.{
  NamespaceType, mount_ns, cgroup_ns, uts_ns, ipc_ns, user_ns, pid_ns, network_ns, time_ns,
  LinuxNamespace, Linux, Spec, on_linux,
}

-- The place of a type in its enumeration, by which `==` tells types apart.
abbrev pub tag : NamespaceType → ℕ
tag mount_ns = 0
tag cgroup_ns = 1
tag uts_ns = 2
tag ipc_ns = 3
tag user_ns = 4
tag pid_ns = 5
tag network_ns = 6
tag time_ns = 7

abbrev pub same_type : NamespaceType → NamespaceType → Bool
same_type a b = tag a == tag b

-- `namespaces.retain(|n| n.typ() != t)`
unfoldable pub retain_not : NamespaceType → List LinuxNamespace → List LinuxNamespace
retain_not t [] = []
retain_not t (n ∷ ns) = let rest = retain_not t ns in if same_type n.typ t then rest else n ∷ rest

unfoldable pub has_type : NamespaceType → List LinuxNamespace → Bool
has_type t [] = false
has_type t (n ∷ ns) = same_type n.typ t || has_type t ns

abbrev pub change_namespaces : (List LinuxNamespace → List LinuxNamespace) → Linux → Linux
change_namespaces f linux = record linux { namespaces = some (f (unwrap_or [] linux.namespaces)) }

abbrev pub at_path : NamespaceType → Bytes → LinuxNamespace
at_path t path = record { typ = t; path = some path }

-- The match of `set_network_namespace` on the path.
unfoldable pub network_at : Option Bytes → List LinuxNamespace
unfolding str_eq
network_at none = []
network_at (some path) = if str_eq path (text "host") then [] else at_path network_ns path ∷ []

-- `set_network_namespace`
unfoldable pub set_network_namespace : Option Bytes → Spec → Spec
unfolding retain_not network_at
set_network_namespace path spec =
    on_linux (change_namespaces (λ ns. retain_not network_ns ns ++ network_at path)) spec

abbrev pub retain_if : Bool → NamespaceType → List LinuxNamespace → List LinuxNamespace
retain_if true t ns = retain_not t ns
retain_if false t ns = ns

-- `apply_host_namespaces`
unfoldable pub apply_host_namespaces : Bool → Bool → Spec → Spec
unfolding retain_not
apply_host_namespaces host_pid host_ipc spec =
    if not host_pid && not host_ipc
    then spec
    else on_linux
        (change_namespaces (λ ns. retain_if host_ipc ipc_ns (retain_if host_pid pid_ns ns))) spec

-- `join_namespace`
unfoldable pub join_namespace : NamespaceType → Option Bytes → Spec → Spec
unfolding retain_not
join_namespace t none spec = spec
join_namespace t (some path) spec =
    on_linux (change_namespaces (λ ns. retain_not t ns ++ at_path t path ∷ [])) spec

abbrev pub with_user : List LinuxNamespace → List LinuxNamespace
with_user ns = if has_type user_ns ns then ns else ns ++ record { typ = user_ns; path = none } ∷ []

-- `apply_user_namespace`
unfoldable pub apply_user_namespace : List IdMapping → List IdMapping → Spec → Spec
unfolding has_type
apply_user_namespace uid gid spec =
    if is_nil uid && is_nil gid
    then spec
    else on_linux
        (λ linux.
          change_namespaces with_user
            (record linux { uid_mappings = some uid; gid_mappings = some gid }))
        spec
