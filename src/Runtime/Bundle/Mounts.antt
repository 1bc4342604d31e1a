-- ===== src/Runtime/Bundle/Mounts.antt =====
-- crates/runtime/src/bundle.rs: bind mounts. The host's file system is the interface of two calls,
-- `Path::exists` and `create_dir_all`, whose error is only logged.
pub mod Propagated
use containerd_rs.Base.{
  List, [], ◌∷◌, ◌++◌, Bytes, text, Bool, Option, none, some, if◌then◌else◌, unwrap_or, or_else,
}
use containerd_rs.Runtime.Bundle.Request.{
  Propagation, private_mount, host_to_container, bidirectional, MountSpec,
}
use containerd_rs.Runtime.Bundle.Spec.{OciMount, Spec, on_linux}

abbrev pub propagation_option : Propagation → Bytes
propagation_option private_mount = text "rprivate"
propagation_option host_to_container = text "rslave"
propagation_option bidirectional = text "rshared"

-- What a mount makes of the propagation of the root file system.
abbrev pub next_rootfs_prop : Propagation → Option Bytes → Option Bytes
next_rootfs_prop private_mount prop = prop
next_rootfs_prop host_to_container prop = or_else prop (some (text "rslave"))
next_rootfs_prop bidirectional prop = some (text "rshared")

abbrev pub access_option : MountSpec → Bytes
access_option m =
    if m.readonly then if m.recursive_read_only then text "rro" else text "ro" else text "rw"

-- The mount that is pushed for a request.
unfoldable pub bind_of : MountSpec → OciMount
bind_of m = record {
  destination = m.destination;
  typ = text "bind";
  source = m.source;
  options = text "rbind" ∷ propagation_option m.propagation ∷ access_option m ∷ [];
}

abbrev pub with_propagation : Option Bytes → Spec → Spec
with_propagation none spec = spec
with_propagation (some prop) spec =
    on_linux (λ linux. record linux { rootfs_propagation = some prop }) spec

-- The variables of the loop over the mounts.
pub record Mounting (Host : Type 0) : Type 0 where
  pub all : List OciMount
  pub rootfs_prop : Option Bytes
  pub host : Host

module _ {Host : Type 0} (exists : Host → Bytes → Bool) (create_dir_all : Bytes → Host → Host) where
  -- The body of the loop.
  unfoldable pub add_mount : MountSpec → Mounting Host → Mounting Host
  unfolding bind_of
  add_mount m st = record {
    all = st.all ++ bind_of m ∷ [];
    rootfs_prop = next_rootfs_prop m.propagation st.rootfs_prop;
    host = if exists st.host m.source then st.host else create_dir_all m.source st.host;
  }

  unfoldable pub add_mounts : List MountSpec → Mounting Host → Mounting Host
  unfolding add_mount
  add_mounts [] st = st
  add_mounts (m ∷ ms) st = add_mounts ms (add_mount m st)

  -- `add_bind_mounts`
  unfoldable pub add_bind_mounts : List MountSpec → Spec → Host → Spec × Host
  unfolding add_mounts
  add_bind_mounts [] spec host = (spec, host)
  add_bind_mounts (m ∷ ms) spec host =
      let st =
        add_mounts (m ∷ ms)
          (record { all = unwrap_or [] spec.mounts; rootfs_prop = none; host = host }) in
      (with_propagation st.rootfs_prop (record spec { mounts = some st.all }), st.host)
