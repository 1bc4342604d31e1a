-- ===== src/Runtime/Bundle/Generate/Kept.antt =====
-- crates/runtime/src/bundle.rs: the steps that leave the process and the system call filter alone.
use containerd_rs.Base.{
  ◌≡◌, refl, ◌∙◌, List, [], ◌∷◌, Bytes, Bool, true, false, Option, none, some, Result, ok, err,
  if◌then◌else◌, is_some, ok-injective, err_ne_ok, subst,
}
use containerd_rs.Metadata.Records.{Labels}
use containerd_rs.Runtime.Seccomp.{LinuxSeccomp}
use containerd_rs.Runtime.Bundle.Request.{ImageConfig, ContainerRequest, DeviceRequest, Error}
use containerd_rs.Runtime.Bundle.Spec.{
  NamespaceType, pid_ns, ipc_ns, Spec, Linux, LinuxDevice, DeviceRule, on_some, on_linux,
}
use containerd_rs.Runtime.Bundle.Limits.{
  Stat, apply_sysctls, apply_devices, devices_in, set_devices,
}
use containerd_rs.Runtime.Bundle.Namespaces.{
  join_namespace, set_network_namespace, apply_host_namespaces, apply_user_namespace,
}
use containerd_rs.Runtime.Bundle.Limits.{apply_resources}
use containerd_rs.Runtime.Bundle.Request.{IdMapping, MountSpec}
use containerd_rs.Runtime.Bundle.Mounts.{with_propagation, add_bind_mounts}
use containerd_rs.Runtime.Bundle.Generate.{Host, framed, isolated, with_cgroup}

abbrev pub filter_in : Option Linux → Option LinuxSeccomp
filter_in none = none
filter_in (some linux) = linux.seccomp

-- The filter of a specification.
unfoldable pub filter_of : Spec → Option LinuxSeccomp
filter_of spec = filter_in spec.linux

-- A later step leaves the process, the filter and the presence of `linux` alone.
abbrev pub Keeps : Spec → Spec → Type 0
Keeps s t =
    (t.process ≡ s.process) × (filter_of t ≡ filter_of s) × (is_some t.linux ≡ is_some s.linux)

on_some-filter :
    (f : Linux → Linux) (m : Option Linux)
    → ((linux : Linux) → (f linux).seccomp ≡ linux.seccomp)
    → (filter_in (on_some f m) ≡ filter_in m) × (is_some (on_some f m) ≡ is_some m)
on_some-filter f none h = (refl, refl)
on_some-filter f (some linux) h = (h linux, refl)

pub on_linux-Keeps :
    (f : Linux → Linux) (spec : Spec)
    → ((linux : Linux) → (f linux).seccomp ≡ linux.seccomp)
    → Keeps spec (on_linux f spec)
unfolding on_linux filter_of
on_linux-Keeps f spec h =
    let (filter, present) = on_some-filter f spec.linux h in (refl, filter, present)

pub apply_sysctls-Keeps : (kvs : Labels) (spec : Spec) → Keeps spec (apply_sysctls kvs spec)
unfolding apply_sysctls
apply_sysctls-Keeps [] spec = (refl, refl, refl)
apply_sysctls-Keeps (kv ∷ kvs) spec = on_linux-Keeps _ spec (λ linux. refl)

pub Keeps-trans : (a b c : Spec) → Keeps a b → Keeps b c → Keeps a c
Keeps-trans a b c (p, q, r) (p', q', r') = (p' ∙ p, q' ∙ q, r' ∙ r)

set_devices-Keeps :
    (stat : Bytes → Result Bytes Stat) (spec spec' : Spec) (linux : Linux)
    (pushed : Result Error (List LinuxDevice × List DeviceRule))
    → spec.linux ≡ some linux
    → set_devices stat spec linux pushed ≡ ok spec'
    → Keeps spec spec'
unfolding filter_of
set_devices-Keeps stat spec spec' linux (err e) here h = absurd (err_ne_ok h)
set_devices-Keeps stat spec spec' linux (ok (nodes, allow)) here h =
    subst (Keeps spec) (ok-injective h) (refl, rw here refl, rw here refl)

devices_in-Keeps :
    (stat : Bytes → Result Bytes Stat) (ds : List DeviceRequest) (spec spec' : Spec)
    (m : Option Linux)
    → spec.linux ≡ m
    → devices_in stat ds spec m ≡ ok spec'
    → Keeps spec spec'
devices_in-Keeps stat ds spec spec' none here h =
    subst (Keeps spec) (ok-injective h) (refl, refl, refl)
devices_in-Keeps stat ds spec spec' (some linux) here h =
    set_devices-Keeps stat spec spec' linux _ here h

pub apply_devices-Keeps :
    (stat : Bytes → Result Bytes Stat) (ds : List DeviceRequest) (spec spec' : Spec)
    → apply_devices stat ds spec ≡ ok spec'
    → Keeps spec spec'
unfolding apply_devices
apply_devices-Keeps stat [] spec spec' h = subst (Keeps spec) (ok-injective h) (refl, refl, refl)
apply_devices-Keeps stat (d ∷ ds) spec spec' h =
    devices_in-Keeps stat (d ∷ ds) spec spec' spec.linux refl h

pub join_namespace-Keeps :
    (t : NamespaceType) (path : Option Bytes) (spec : Spec)
    → Keeps spec (join_namespace t path spec)
unfolding join_namespace
join_namespace-Keeps t none spec = (refl, refl, refl)
join_namespace-Keeps t (some path) spec = on_linux-Keeps _ spec (λ linux. refl)

unless-Keeps :
    (b : Bool) (spec spec' : Spec) → Keeps spec spec' → Keeps spec (if b then spec else spec')
unless-Keeps true spec spec' h = (refl, refl, refl)
unless-Keeps false spec spec' h = h

pub set_network_namespace-Keeps :
    (path : Option Bytes) (spec : Spec) → Keeps spec (set_network_namespace path spec)
unfolding set_network_namespace
set_network_namespace-Keeps path spec = on_linux-Keeps _ spec (λ linux. refl)

pub apply_host_namespaces-Keeps :
    (host_pid host_ipc : Bool) (spec : Spec)
    → Keeps spec (apply_host_namespaces host_pid host_ipc spec)
unfolding apply_host_namespaces
apply_host_namespaces-Keeps host_pid host_ipc spec =
    unless-Keeps _ spec _ (on_linux-Keeps _ spec (λ linux. refl))

pub apply_user_namespace-Keeps :
    (uid gid : List IdMapping) (spec : Spec) → Keeps spec (apply_user_namespace uid gid spec)
unfolding apply_user_namespace
apply_user_namespace-Keeps uid gid spec =
    unless-Keeps _ spec _ (on_linux-Keeps _ spec (λ linux. refl))

pub isolated-Keeps :
    (host : Host) (image : ImageConfig) (req : ContainerRequest) (rootfs : Bytes)
    → Keeps (framed host image req rootfs) (isolated host image req rootfs)
unfolding isolated
isolated-Keeps host image req rootfs =
    let start = framed host image req rootfs in
    let networked = set_network_namespace req.netns_path start in
    let shared = apply_host_namespaces req.host_pid req.host_ipc networked in
    let mapped = apply_user_namespace req.userns_uid_mappings req.userns_gid_mappings shared in
    let in_pid = join_namespace pid_ns req.pid_ns_path mapped in
    Keeps-trans start networked _ (set_network_namespace-Keeps req.netns_path start) (
      Keeps-trans networked shared _
        (apply_host_namespaces-Keeps req.host_pid req.host_ipc networked)
        (Keeps-trans shared mapped _
          (apply_user_namespace-Keeps req.userns_uid_mappings req.userns_gid_mappings shared)
          (Keeps-trans mapped in_pid _ (join_namespace-Keeps pid_ns req.pid_ns_path mapped)
            (join_namespace-Keeps ipc_ns req.ipc_ns_path in_pid))))

with_propagation-Keeps :
    (prop : Option Bytes) (spec : Spec) → Keeps spec (with_propagation prop spec)
with_propagation-Keeps none spec = (refl, refl, refl)
with_propagation-Keeps (some prop) spec = on_linux-Keeps _ spec (λ linux. refl)

pub add_bind_mounts-Keeps :
    {Files : Type 0} (exists : Files → Bytes → Bool) (create_dir_all : Bytes → Files → Files)
    (ms : List MountSpec) (spec : Spec) (files : Files)
    → Keeps spec ((add_bind_mounts exists create_dir_all ms spec files).0)
unfolding add_bind_mounts filter_of on_linux
add_bind_mounts-Keeps exists create_dir_all [] spec files = (refl, refl, refl)
add_bind_mounts-Keeps exists create_dir_all (m ∷ ms) spec files = with_propagation-Keeps _ _

pub with_cgroup-Keeps :
    (req : ContainerRequest) (path : Option Bytes) (spec : Spec)
    → Keeps spec (with_cgroup req path spec)
unfolding apply_resources
with_cgroup-Keeps req none spec = (refl, refl, refl)
with_cgroup-Keeps req (some []) spec = (refl, refl, refl)
with_cgroup-Keeps req (some (b ∷ bs)) spec =
    let placed = on_linux (λ linux. record linux { cgroups_path = some (b ∷ bs) }) spec in
    Keeps-trans spec placed _ (on_linux-Keeps _ spec (λ linux. refl))
      (unless-Keeps _ placed _ (on_linux-Keeps _ placed (λ linux. refl)))
