-- ===== src/Runtime/Bundle/Generate/Privileged.antt =====
-- crates/runtime/src/bundle.rs: a privileged container.
use containerd_rs.Base.{◌≡◌, List, [], ◌∷◌, Bytes, Option, none, some, is_some}
use containerd_rs.Runtime.Bundle.Request.{ImageConfig, ContainerRequest}
use containerd_rs.Runtime.Bundle.Spec.{Spec, Linux, LinuxResources, Process, DeviceRule}
use containerd_rs.Runtime.Bundle.Generate.Requested.{IsRequested, AreFull}
use containerd_rs.Runtime.Bundle.Mounts.{add_bind_mounts}
use containerd_rs.Runtime.Bundle.Security.{allow_all}
use containerd_rs.Runtime.Bundle.Generate.Kept.{filter_of}
use containerd_rs.Runtime.Bundle.Generate.{Host, isolated, with_cgroup}

abbrev pub rules_in : Option LinuxResources → Option (List DeviceRule)
rules_in none = none
rules_in (some r) = r.devices

-- No path is masked or read-only, and every device is allowed.
unfoldable pub IsOpen : Option Linux → Type 0
IsOpen none = Unit
IsOpen (some linux) =
    (linux.masked_paths ≡ none)
    × (linux.readonly_paths ≡ none)
    × (rules_in linux.resources ≡ some (allow_all ∷ []))

-- What stands of a privileged specification that is generated from a base.
abbrev pub IsPrivileged : Spec → ImageConfig → ContainerRequest → Spec → Type 0
IsPrivileged base image req spec =
    ((p : Process) × (spec.process ≡ some p) × IsRequested image req p × AreFull p.capabilities)
    × IsOpen spec.linux
    × (filter_of spec ≡ filter_of base)
    × (is_some spec.linux ≡ is_some base.linux)

module _ (host : Host) (image : ImageConfig) (req : ContainerRequest) (rootfs : Bytes)
    (files : host.Files) where
  -- What `confined` is given.
  abbrev placed : Spec
  placed = with_cgroup req req.cgroup_path (
      (add_bind_mounts host.path_exists host.create_dir_all req.mounts
        (isolated host image req rootfs) files).0)
