-- ===== src/Runtime/Bundle/Generate.antt =====
-- crates/runtime/src/bundle.rs: `generate_spec`. What it takes of oci-spec, the host and the other
-- files of the crate is the interface `Host`.
pub mod Kept
pub mod Joined
pub mod FailClosed
pub mod Requested
pub mod Privileged
use containerd_rs.Base.{
  ℕ, List, [], ◌∷◌, Bytes, text, Bool, Option, none, some, Result, ok, err, ◌>>=◌, if◌then◌else◌,
  unwrap_or, or_else,
}
use containerd_rs.Runtime.Seccomp.{LinuxSeccomp, DockerProfile, CapNames, runtime_default}
use containerd_rs.Runtime.Bundle.Request.{ImageConfig, ContainerRequest, Error}
use containerd_rs.Runtime.Bundle.Spec.{User, Process, Spec, on_linux, pid_ns, ipc_ns}
use containerd_rs.Runtime.Bundle.Capabilities.{
  default_capabilities, no_caps, build_caps, apply_capabilities,
}
use containerd_rs.Runtime.Bundle.ProcessArgs.{resolve_argv, merge_env, parse_user}
use containerd_rs.Runtime.Bundle.Namespaces.{
  set_network_namespace, apply_host_namespaces, apply_user_namespace, join_namespace,
}
use containerd_rs.Runtime.Bundle.Mounts.{add_bind_mounts}
use containerd_rs.Runtime.Bundle.Limits.{Stat, apply_resources, apply_sysctls, apply_devices}
use containerd_rs.Runtime.Bundle.Security.{apply_privileged, apply_security}

pub record Host : Type 1 where
  -- `Spec::default()` and `Spec::rootless(uid, gid)`
  pub default_spec : Spec
  pub rootless_spec : ℕ × ℕ → Spec
  pub trim_upper : Bytes → Bytes
  pub parse_capability : Bytes → Option Bytes
  pub read_file : Bytes → Result Bytes Bytes
  pub parse_profile : Bytes → Result Bytes LinuxSeccomp
  -- the bundled profile, parsed, the check of a resolved one, and the build's architecture
  pub bundled : Result Bytes DockerProfile
  pub from_value : LinuxSeccomp → Result Bytes LinuxSeccomp
  pub arch : Bytes
  pub stat : Bytes → Result Bytes Stat
  pub Files : Type 0
  pub path_exists : Files → Bytes → Bool
  pub create_dir_all : Bytes → Files → Files

abbrev pub gids : List ℕ → Option (List ℕ)
gids [] = none
gids (g ∷ gs) = some (g ∷ gs)

-- The user: the request's ids win over those of the image.
unfoldable pub user_of : ImageConfig → ContainerRequest → User
unfolding parse_user
user_of image req =
    let (img_uid, img_gid) = parse_user image.user in
    record {
      uid = unwrap_or img_uid req.run_as_user;
      gid = unwrap_or img_gid req.run_as_group;
      additional_gids = gids req.supplemental_groups;
    }

unfoldable pub process_of : ImageConfig → ContainerRequest → Process
unfolding resolve_argv merge_env user_of build_caps
process_of image req = record {
  terminal = req.terminal;
  args = resolve_argv image req;
  env = merge_env image req;
  cwd = unwrap_or (text "/") (or_else req.working_dir image.working_dir);
  user = user_of image req;
  capabilities = some (build_caps default_capabilities no_caps);
  no_new_privileges = some req.no_new_privileges;
  apparmor_profile = none;
  selinux_label = none;
}

-- Resource limits come with the cgroup path that they need.
abbrev pub with_cgroup : ContainerRequest → Option Bytes → Spec → Spec
with_cgroup req none spec = spec
with_cgroup req (some []) spec = spec
with_cgroup req (some (b ∷ bs)) spec =
    apply_resources req.resources
      (on_linux (λ linux. record linux { cgroups_path = some (b ∷ bs) }) spec)

module _ (host : Host) where
  abbrev pub base_spec : Option (ℕ × ℕ) → Spec
  base_spec none = host.default_spec
  base_spec (some ids) = host.rootless_spec ids

  -- The base, with process, root and hostname.
  abbrev pub framed : ImageConfig → ContainerRequest → Bytes → Spec
  framed image req rootfs = record (base_spec req.rootless_host_ids) {
    process = some (process_of image req);
    root = some (record { path = rootfs; readonly = req.readonly_rootfs });
    hostname = req.hostname;
  }

  -- The same in its namespaces.
  unfoldable pub isolated : ImageConfig → ContainerRequest → Bytes → Spec
  unfolding process_of
  isolated image req rootfs = join_namespace ipc_ns req.ipc_ns_path (
      join_namespace pid_ns req.pid_ns_path (
        apply_user_namespace req.userns_uid_mappings req.userns_gid_mappings (
          apply_host_namespaces req.host_pid req.host_ipc
            (set_network_namespace req.netns_path (framed image req rootfs)))))

  abbrev pub default_profile : CapNames → Result Bytes LinuxSeccomp
  default_profile = runtime_default host.bundled host.from_value host.arch

  -- Capabilities, security and devices of a container that is not privileged.
  unfoldable pub restricted : ContainerRequest → Spec → Result Error Spec
  restricted req spec = do
    secured ← apply_security host.read_file host.parse_profile default_profile req (
        apply_capabilities host.trim_upper host.parse_capability req.add_capabilities
          req.drop_capabilities spec)
    apply_devices host.stat req.devices secured

  unfoldable pub confined : ContainerRequest → Spec → Result Error Spec
  confined req spec =
      let rest = restricted req spec in if req.privileged then ok (apply_privileged spec) else rest

  abbrev pub with_sysctls : ContainerRequest → Result Error Spec → Result Error Spec
  with_sysctls req (err e) = err e
  with_sysctls req (ok spec) = ok (apply_sysctls req.sysctls spec)

  -- `generate_spec`, with the host's files before and behind it.
  unfoldable pub generate_spec :
      ImageConfig → ContainerRequest → Bytes → host.Files → Result Error Spec × host.Files
  unfolding isolated confined
  generate_spec image req rootfs files =
      let (mounted, files') =
        add_bind_mounts host.path_exists host.create_dir_all req.mounts (isolated image req rootfs)
          files in
      (with_sysctls req (confined req (with_cgroup req req.cgroup_path mounted)), files')
