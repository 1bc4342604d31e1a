-- ===== src/Runtime/Bundle/Generate/Joined.antt =====
-- crates/runtime/src/bundle.rs: which namespaces of a type a container ends up with.
use containerd_rs.Base.{
  ◌≡◌, refl, ap, ◌∙◌, List, [], ◌∷◌, Bytes, Bool, true, false, Option, none, some, if◌then◌else◌,
  is_some, unwrap_or, arith,
}
use containerd_rs.Runtime.Bundle.Request.{IdMapping, ImageConfig, ContainerRequest}
use containerd_rs.Runtime.Bundle.Generate.{Host, base_spec, isolated, framed}
use containerd_rs.Runtime.Bundle.Generate.Kept.{
  set_network_namespace-Keeps, apply_host_namespaces-Keeps, apply_user_namespace-Keeps,
  join_namespace-Keeps,
}
use containerd_rs.Runtime.Bundle.Spec.{
  NamespaceType, ipc_ns, user_ns, pid_ns, network_ns, LinuxNamespace, Linux, Spec, on_some,
  on_linux,
}
use containerd_rs.Runtime.Bundle.Namespaces.{
  same_type, network_at, set_network_namespace, apply_host_namespaces, join_namespace, with_user,
  apply_user_namespace,
}
use containerd_rs.Runtime.Bundle.Namespaces.Steps.{
  only, joined, after_network, after_host, after_user, after_join, only-after_join,
  only-after_network, only-after_host, only-after_user,
}

abbrev pub namespaces_in : Option Linux → List LinuxNamespace
namespaces_in none = []
namespaces_in (some linux) = unwrap_or [] linux.namespaces

-- The namespaces of a specification, and those of one type.
unfoldable pub namespaces_of : Spec → List LinuxNamespace
namespaces_of spec = namespaces_in spec.linux

on_linux-namespaces :
    (g : List LinuxNamespace → List LinuxNamespace) (f : Linux → Linux) (spec : Spec)
    → ((linux : Linux) → namespaces_in (some (f linux)) ≡ g (namespaces_in (some linux)))
    → is_some spec.linux ≡ true
    → namespaces_of (on_linux f spec) ≡ g (namespaces_of spec)
unfolding on_linux namespaces_of
on_linux-namespaces g f spec each h = in_linux spec.linux h
  where
    in_linux :
        (m : Option Linux) → is_some m ≡ true → namespaces_in (on_some f m) ≡ g (namespaces_in m)
    in_linux none h = cc
    in_linux (some linux) h = each linux

join_namespace-namespaces :
    (t : NamespaceType) (path : Option Bytes) (spec : Spec)
    → is_some spec.linux ≡ true
    → namespaces_of (join_namespace t path spec) ≡ after_join t path (namespaces_of spec)
unfolding join_namespace
join_namespace-namespaces t none spec h = refl
join_namespace-namespaces t (some path) spec h =
    on_linux-namespaces (after_join t (some path)) _ spec (λ linux. refl) h

apply_host_namespaces-namespaces :
    (host_pid host_ipc : Bool) (spec : Spec)
    → is_some spec.linux ≡ true
    → namespaces_of (apply_host_namespaces host_pid host_ipc spec)
      ≡ after_host host_pid host_ipc (namespaces_of spec)
unfolding apply_host_namespaces
apply_host_namespaces-namespaces true host_ipc spec h =
    on_linux-namespaces (after_host true host_ipc) _ spec (λ linux. refl) h
apply_host_namespaces-namespaces false true spec h =
    on_linux-namespaces (after_host false true) _ spec (λ linux. refl) h
apply_host_namespaces-namespaces false false spec h = refl

apply_user_namespace-namespaces :
    (uid gid : List IdMapping) (spec : Spec)
    → is_some spec.linux ≡ true
    → namespaces_of (apply_user_namespace uid gid spec) ≡ after_user uid gid (namespaces_of spec)
unfolding apply_user_namespace
apply_user_namespace-namespaces [] [] spec h = refl
apply_user_namespace-namespaces [] (g ∷ gs) spec h =
    on_linux-namespaces with_user _ spec (λ linux. refl) h
apply_user_namespace-namespaces (u ∷ us) gid spec h =
    on_linux-namespaces with_user _ spec (λ linux. refl) h

-- The namespaces that `generate_spec` gives, from those of its base.
abbrev pub chain : ContainerRequest → List LinuxNamespace → List LinuxNamespace
chain req ns = after_join ipc_ns req.ipc_ns_path (
    after_join pid_ns req.pid_ns_path (
      after_user req.userns_uid_mappings req.userns_gid_mappings
        (after_host req.host_pid req.host_ipc (after_network req.netns_path ns))))

isolated-namespaces :
    (host : Host) (image : ImageConfig) (req : ContainerRequest) (rootfs : Bytes)
    → is_some (base_spec host req.rootless_host_ids).linux ≡ true
    → namespaces_of (isolated host image req rootfs)
      ≡ chain req (namespaces_of (base_spec host req.rootless_host_ids))
unfolding isolated set_network_namespace namespaces_of
isolated-namespaces host image req rootfs h =
    let start = framed host image req rootfs in
    let networked = set_network_namespace req.netns_path start in
    let shared = apply_host_namespaces req.host_pid req.host_ipc networked in
    let mapped = apply_user_namespace req.userns_uid_mappings req.userns_gid_mappings shared in
    let in_pid = join_namespace pid_ns req.pid_ns_path mapped in
    let h1 = (set_network_namespace-Keeps req.netns_path start).2 ∙ h in
    let h2 = (apply_host_namespaces-Keeps req.host_pid req.host_ipc networked).2 ∙ h1 in
    let h3 =
      (apply_user_namespace-Keeps req.userns_uid_mappings req.userns_gid_mappings shared).2 ∙ h2 in
    let h4 = (join_namespace-Keeps pid_ns req.pid_ns_path mapped).2 ∙ h3 in
    join_namespace-namespaces ipc_ns req.ipc_ns_path in_pid h4
    ∙ ap (after_join ipc_ns req.ipc_ns_path) (
        join_namespace-namespaces pid_ns req.pid_ns_path mapped h3
        ∙ ap (after_join pid_ns req.pid_ns_path) (
            apply_user_namespace-namespaces req.userns_uid_mappings req.userns_gid_mappings shared
              h2
            ∙ ap (after_user req.userns_uid_mappings req.userns_gid_mappings) (
                apply_host_namespaces-namespaces req.host_pid req.host_ipc networked h1
                ∙ ap (after_host req.host_pid req.host_ipc) (
                    on_linux-namespaces (after_network req.netns_path) _ start (λ linux. refl) h))))

module _ (req : ContainerRequest) (ns : List LinuxNamespace) where
  abbrev networked : List LinuxNamespace
  networked = after_network req.netns_path ns

  abbrev shared : List LinuxNamespace
  shared = after_host req.host_pid req.host_ipc networked

  abbrev mapped : List LinuxNamespace
  mapped = after_user req.userns_uid_mappings req.userns_gid_mappings shared

  -- The two joins, the last one first.
  only-chain :
      (t : NamespaceType)
      → same_type user_ns t ≡ false
      → only t (chain req ns) ≡ (
          if same_type t ipc_ns
          then joined ipc_ns req.ipc_ns_path (
              if same_type t pid_ns
              then joined pid_ns req.pid_ns_path (only t shared)
              else only t shared)
          else (if same_type t pid_ns
              then joined pid_ns req.pid_ns_path (only t shared)
              else only t shared))
  only-chain t other =
      rw
        (
          only-after_join t ipc_ns req.ipc_ns_path (after_join pid_ns req.pid_ns_path mapped),
          only-after_join t pid_ns req.pid_ns_path mapped,
          only-after_user t req.userns_uid_mappings req.userns_gid_mappings shared other,
        )
        refl

  only_network : only network_ns (chain req ns) ≡ network_at req.netns_path
  only_network =
      only-chain network_ns refl
      ∙ (only-after_host network_ns req.host_pid req.host_ipc networked
          ∙ ground (arith, only-after_network network_ns req.netns_path ns))

  only_pid :
      only pid_ns (chain req ns)
      ≡ joined pid_ns req.pid_ns_path (if req.host_pid then [] else only pid_ns ns)
  only_pid =
      only-chain pid_ns refl
      ∙ ap (joined pid_ns req.pid_ns_path) (
          only-after_host pid_ns req.host_pid req.host_ipc networked
          ∙ ground (arith, only-after_network pid_ns req.netns_path ns))

  only_ipc :
      only ipc_ns (chain req ns)
      ≡ joined ipc_ns req.ipc_ns_path (if req.host_ipc then [] else only ipc_ns ns)
  only_ipc =
      only-chain ipc_ns refl
      ∙ ap (joined ipc_ns req.ipc_ns_path) (
          only-after_host ipc_ns req.host_pid req.host_ipc networked
          ∙ ground (arith, only-after_network ipc_ns req.netns_path ns))

-- The network, PID and IPC namespaces that generating gives a container: the network namespace is the
-- one at the requested path, and there is none where no path or `host` is given; a PID or IPC
-- namespace is the one that is joined by a path, else none where the host's is shared, else the
-- base's. Condition: the base has a `linux` part.
pub isolated-joined :
    (host : Host) (image : ImageConfig) (req : ContainerRequest) (rootfs : Bytes)
    → is_some (base_spec host req.rootless_host_ids).linux ≡ true
    → (only network_ns (namespaces_of (isolated host image req rootfs)) ≡ network_at req.netns_path)
      × (only pid_ns (namespaces_of (isolated host image req rootfs))
          ≡ joined pid_ns req.pid_ns_path (
              if req.host_pid
              then []
              else only pid_ns (namespaces_of (base_spec host req.rootless_host_ids))))
      × (only ipc_ns (namespaces_of (isolated host image req rootfs))
          ≡ joined ipc_ns req.ipc_ns_path (
              if req.host_ipc
              then []
              else only ipc_ns (namespaces_of (base_spec host req.rootless_host_ids))))
isolated-joined host image req rootfs h =
    rw (isolated-namespaces host image req rootfs h)
      (only_network req _, only_pid req _, only_ipc req _)
