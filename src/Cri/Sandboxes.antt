-- ===== src/Cri/Sandboxes.antt =====
-- crates/cri/src/server.rs: the calls that change a sandbox: `run_pod_sandbox`, `stop_pod_sandbox`
-- and `remove_pod_sandbox`.
pub mod Request
pub mod Stored
pub mod Users
pub mod Demotions
pub mod Ready
use containerd_rs.Base.{
  ℕ, ℤ, List, [], ◌∷◌, ◌++◌, map, Bytes, text, Bool, true, false, not, ◌&&◌, ◌||◌, Option, none,
  some, Result, ok, err, if◌then◌else◌, str_eq, is_nil, and_some, unwrap_or,
}
use containerd_rs.Metadata.Records.{Labels, SandboxState, ready, not_ready, SandboxRecord}
use containerd_rs.Metadata.Store.{Store, Error, sandbox, list, delete}
use containerd_rs.Cri.Convert.{join_path}
use containerd_rs.Cri.Service.{
  Status, invalid_argument, unavailable, internal, Env, World, internal_of, read_sandbox,
  put_sandbox, written, gen_id, bundle_dir,
}
use containerd_rs.Cri.Sandboxes.Request.{
  PodSandboxMetadata, DnsConfig, PodSandboxConfig, LinuxPodSandboxConfig, no_metadata, Modes,
  modes_of, Mappings, userns_of, ns_options, port_mapping, resolv_conf,
}

abbrev pub is_ready : SandboxState → Bool
is_ready ready = true
is_ready not_ready = false

-- A sandbox that stands for the same pod, and is ready.
unfoldable pub is_superseded : SandboxRecord → SandboxRecord → Bool
unfolding str_eq
is_superseded r other =
    not (str_eq other.id r.id)
    && is_ready other.state
    && str_eq other.name r.name
    && str_eq other.k8s_namespace r.k8s_namespace
    && str_eq other.uid r.uid

abbrev pub demoted : SandboxRecord → SandboxRecord
demoted other = record other { state = not_ready }

module _ (env : Env) where
  open env use {
    Host, namespace, sandbox_to_vec, sandbox_from_slice, error_text, reads_ok, deletes_ok,
    unix_nanos, create_dir_all, kill_holder, teardown, ensure_pod_cgroup, create_network,
    netns_path, host_ip, write_file, node_resolv_conf, spawn_holder,
  }

  -- `write_sandbox_resolv_conf`
  abbrev pub resolv_written : Bytes → Result Bytes Unit × Host → Option Bytes × Host
  resolv_written path (err e, h) = (none, h)
  resolv_written path (ok done, h) = (some path, h)

  abbrev pub in_made_dir : Bytes → Option DnsConfig → Result Bytes Unit × Host → Option Bytes × Host
  in_made_dir dir dns (err e, h) = (none, h)
  in_made_dir dir dns (ok done, h) =
      let path = join_path dir (text "resolv.conf") in
      resolv_written path (write_file path (resolv_conf dns (node_resolv_conf h)) h)

  unfoldable pub write_sandbox_resolv_conf : Bytes → Option DnsConfig → Host → Option Bytes × Host
  unfolding resolv_conf join_path
  write_sandbox_resolv_conf id dns h =
      in_made_dir (bundle_dir env id) dns (create_dir_all (bundle_dir env id) h)

  -- The network: that of the node, or a new one, whose failure is torn down.
  abbrev pub plugged : Bytes → Result Bytes Bytes × Host → Result Status (Bytes × Bytes) × Host
  plugged id (err e, h) = (
    err (unavailable (text "CNI network setup failed for sandbox " ++ (id ++ (text ": " ++ e)))),
    teardown id h,
  )
  plugged id (ok ip, h) = (ok (netns_path id, ip), h)

  unfoldable pub network_of :
      Bytes → Modes → PodSandboxConfig → Host → Result Status (Bytes × Bytes) × Host
  unfolding port_mapping
  network_of id m c h =
      if m.host_network
      then (ok (text "host", host_ip h), h)
      else plugged id (create_network id (map port_mapping c.port_mappings) h)

  -- The holder of the shared namespaces, where the pod has some and it can be started.
  abbrev pub held : Result Bytes ℤ × Host → Option ℤ × Host
  held (err e, h) = (none, h)
  held (ok pid, h) = (some pid, h)

  abbrev pub holder_of : Bytes → Modes → Host → Option ℤ × Host
  holder_of id m h = if m.shared_pid || m.shared_ipc then held (spawn_holder id h) else (none, h)

  abbrev pub sysctls_of : Option LinuxPodSandboxConfig → Labels
  sysctls_of none = []
  sysctls_of (some l) = l.sysctls

  abbrev pub cgroup_parent_of : Option LinuxPodSandboxConfig → Bytes
  cgroup_parent_of none = []
  cgroup_parent_of (some l) = l.cgroup_parent

  -- The new record.
  unfoldable pub new_sandbox :
      Bytes
      → Bytes
      → PodSandboxConfig
      → (Bool × Mappings × Mappings)
      → (Bytes × Bytes)
      → Option Bytes
      → Option ℤ
      → ℕ
      → SandboxRecord
  unfolding modes_of
  new_sandbox id handler c (userns, uids, gids) (netns, ip) resolv holder now =
      let meta = unwrap_or no_metadata c.metadata in
      let m = modes_of (ns_options c) in
      record {
        id = id;
        name = meta.name;
        k8s_namespace = meta.namespace;
        uid = meta.uid;
        attempt = meta.attempt;
        state = ready;
        netns_path = some netns;
        ip = some ip;
        runtime_handler = handler;
        pause_container_id = none;
        snapshot_key = none;
        created_at = now;
        labels = c.labels;
        annotations = c.annotations;
        log_directory = c.log_directory;
        host_network = m.host_network;
        host_pid = m.host_pid;
        host_ipc = m.host_ipc;
        shared_pid = m.shared_pid;
        shared_ipc = m.shared_ipc;
        pid_holder_pid = holder;
        userns_mode_pod = userns;
        userns_uid_mappings = uids;
        userns_gid_mappings = gids;
        resolv_conf_path = resolv;
        sysctls = sysctls_of c.linux;
        cgroup_parent = cgroup_parent_of c.linux;
        hostname = c.hostname;
      }

  -- The loop that demotes the sandboxes the new one stands for; its writes may fail.
  unfoldable pub demote_all : SandboxRecord → List SandboxRecord → Store → Store
  unfolding is_superseded put_sandbox
  demote_all r [] s = s
  demote_all r (other ∷ others) s =
      let s' = (put_sandbox env other.id (demoted other) s).1 in
      demote_all r others (if is_superseded r other then s' else s)

  abbrev pub demote_listed : SandboxRecord → Result Error (List SandboxRecord) → Store → Store
  demote_listed r (err e) s = s
  demote_listed r (ok others) s = demote_all r others s

  abbrev pub with_id : Bytes → Result Status Unit × World env → Result Status Bytes × World env
  with_id id (err e, w) = (err e, w)
  with_id id (ok done, w) = (ok id, w)

  unfoldable pub record_sandbox : SandboxRecord → World env → Result Status Bytes × World env
  unfolding demote_all put_sandbox
  record_sandbox r w =
      let others = list sandbox_to_vec sandbox_from_slice reads_ok sandbox namespace w.store in
      with_id r.id (written env w (put_sandbox env r.id r (demote_listed r others w.store)))

  -- Behind the network: resolv.conf, the holder and the record.
  abbrev pub connected :
      Bytes
      → Bytes
      → PodSandboxConfig
      → (Bool × Mappings × Mappings)
      → World env
      → Result Status (Bytes × Bytes) × Host
      → Result Status Bytes × World env
  connected id handler c userns w (err e, h) = (err e, record w { host = h })
  connected id handler c userns w (ok net, h) =
      let (resolv, h1) = write_sandbox_resolv_conf id c.dns_config h in
      let (holder, h2) = holder_of id (modes_of (ns_options c)) h1 in
      record_sandbox (new_sandbox id handler c userns net resolv holder (unix_nanos h2))
        (record w { host = h2 })

  abbrev pub mapped :
      Bytes
      → Bytes
      → PodSandboxConfig
      → World env
      → Result Status (Bool × Mappings × Mappings)
      → Result Status Bytes × World env
  mapped id handler c w (err e) = (err e, w)
  mapped id handler c w (ok userns) =
      connected id handler c userns w (network_of id (modes_of (ns_options c)) c w.host)

  unfoldable pub sandbox_seed : PodSandboxMetadata → Bytes
  sandbox_seed m = m.namespace ++ (b'/' ∷ (m.name ++ (b'/' ∷ m.uid)))

  -- `run_pod_sandbox`
  unfoldable pub run_pod_sandbox :
      Option PodSandboxConfig → Bytes → World env → Result Status Bytes × World env
  unfolding gen_id sandbox_seed userns_of modes_of network_of new_sandbox record_sandbox
      write_sandbox_resolv_conf
  run_pod_sandbox none handler w = (err (invalid_argument (text "pod sandbox config required")), w)
  run_pod_sandbox (some c) handler w =
      let id = gen_id env (sandbox_seed (unwrap_or no_metadata c.metadata)) w.host in
      let parent = cgroup_parent_of c.linux in
      let h = if is_nil parent then w.host else ensure_pod_cgroup parent w.host in
      mapped id handler c (record w { host = h })
        (userns_of (and_some (ns_options c) (λ ns. ns.userns_options)))

  abbrev pub released : Option ℤ → Host → Host
  released none h = h
  released (some pid) h = kill_holder pid h

  -- `stop_pod_sandbox`
  abbrev pub stop_found :
      Bytes → World env → Result Status (Option SandboxRecord) → Result Status Unit × World env
  stop_found id w (err e) = (err e, w)
  stop_found id w (ok none) = (ok tt, w)
  stop_found id w (ok (some r)) =
      written env (record w { host = released r.pid_holder_pid w.host })
        (put_sandbox env id (record r { state = not_ready; pid_holder_pid = none }) w.store)

  unfoldable pub stop_pod_sandbox : Bytes → World env → Result Status Unit × World env
  unfolding read_sandbox put_sandbox
  stop_pod_sandbox id w = stop_found id w (internal_of env (read_sandbox env id w.store))

  -- `remove_pod_sandbox`; a sandbox that cannot be read is deleted all the same.
  abbrev pub has_netns : Option Bytes → Bool
  has_netns none = false
  has_netns (some p) = not (str_eq p (text "host"))

  abbrev pub torn_down : Bytes → Result Error (Option SandboxRecord) → Host → Host
  torn_down id (err e) h = h
  torn_down id (ok none) h = h
  torn_down id (ok (some r)) h =
      released r.pid_holder_pid (if has_netns r.netns_path then teardown id h else h)

  abbrev pub removed : World env → Result Error Bool × Store → Result Status Unit × World env
  removed w (err e, s) = (err (internal (error_text e)), record w { store = s })
  removed w (ok was, s) = (ok tt, record w { store = s })

  unfoldable pub remove_pod_sandbox : Bytes → World env → Result Status Unit × World env
  unfolding read_sandbox str_eq
  remove_pod_sandbox id w =
      removed (record w { host = torn_down id (read_sandbox env id w.store) w.host })
        (delete deletes_ok sandbox namespace id w.store)
