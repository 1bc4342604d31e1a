-- ===== src/Cri/Service.antt =====
-- crates/cri/src/server.rs: what the calls of the runtime service share. Everything outside of the
-- database (crun, namespaces, files, processes, the streams of a container) is the `Host`.
use containerd_rs.Base.{
  ℕ, ℤ, List, [], ◌∷◌, ◌++◌, Bytes, text, Bool, Option, none, some, Result, ok, err, decimal,
}
use containerd_rs.CoreTypes.{Sha256, sha256}
use containerd_rs.Metadata.Records.{ContainerRecord, SandboxRecord}
use containerd_rs.Metadata.Store.{Store, Error, container, sandbox, get, put}
use containerd_rs.Runtime.Bundle.Request.{Resources}
use containerd_rs.Cri.Convert.{join_path}

-- `tonic::Status`, by its code, with its message.
pub data Status : Type 0 where
  invalid_argument unauthenticated not_found failed_precondition unavailable internal :
      Bytes → Status

-- `v1::ContainerEventType`
pub data ContainerEventType : Type 0 where
  created_event started_event stopped_event deleted_event : ContainerEventType

-- What `supervise_container` is called with.
pub record Launch : Type 0 where
  pub crun_root : Bytes
  pub bundle_dir : Bytes
  pub cid : Bytes
  pub log_path : Bytes
  pub terminal : Bool
  pub stdin_open : Bool

-- `sandbox::cni::PortMapping`
pub record PortMapping : Type 0 where
  pub host_port : ℤ
  pub container_port : ℤ
  pub protocol : Bytes
  pub host_ip : Bytes

-- `Context`, as far as the calls read it, with the JSON of the records, the clock and the calls of
-- the host: those of crun, of files, and of the namespaces of a sandbox. The flags say which calls of
-- the database succeed.
pub record Env : Type 1 where
  pub Host : Type 0
  pub namespace : Bytes
  pub state_dir : Bytes
  pub to_vec : ContainerRecord → Result Error Bytes
  pub from_slice : Bytes → Result Error ContainerRecord
  pub sandbox_to_vec : SandboxRecord → Result Error Bytes
  pub sandbox_from_slice : Bytes → Result Error SandboxRecord
  pub error_text : Error → Bytes
  pub reads_ok : Bool
  pub puts_ok : Bool
  pub deletes_ok : Bool
  pub sha : Sha256
  pub unix_nanos : Host → ℕ
  pub kill : Bytes → Bytes → Host → Host
  pub crun_delete : Bytes → Host → Host
  pub crun_update : Bytes → Resources → Host → Result Bytes Unit × Host
  pub launch : Launch → Host → Host
  pub await_registered : Bytes → Host → Host
  pub close_streams : Bytes → Host → Host
  pub has_config : Bytes → Host → Bool
  pub is_terminal : Bytes → Host → Bool
  pub create_dir_all : Bytes → Host → Result Bytes Unit × Host
  pub remove_bundle : Bytes → Host → Host
  pub kill_holder : ℤ → Host → Host
  pub teardown : Bytes → Host → Host
  pub ensure_pod_cgroup : Bytes → Host → Host
  pub create_network : Bytes → List PortMapping → Host → Result Bytes Bytes × Host
  pub netns_path : Bytes → Bytes
  pub host_ip : Host → Bytes
  pub write_file : Bytes → Bytes → Host → Result Bytes Unit × Host
  pub node_resolv_conf : Host → Option Bytes
  pub spawn_holder : Bytes → Host → Result Bytes ℤ × Host

module _ (env : Env) where
  open env use {
    sha, unix_nanos, Host, namespace, state_dir, to_vec, from_slice, sandbox_to_vec,
    sandbox_from_slice, error_text, reads_ok, puts_ok,
  }

  -- What a call works on, with the events that it sends.
  pub record World : Type 0 where
    pub store : Store
    pub host : Host
    pub events : List (Bytes × ContainerEventType)

  abbrev pub internal_of : {A : Type 0} → Result Error A → Result Status A
  internal_of (ok a) = ok a
  internal_of (err e) = err (internal (error_text e))

  abbrev pub or_missing : {A : Type 0} → Bytes → Result Status (Option A) → Result Status A
  or_missing message (err e) = err e
  or_missing message (ok none) = err (not_found message)
  or_missing message (ok (some a)) = ok a

  -- The database's calls on the two tables.
  unfoldable pub read_container : Bytes → Store → Result Error (Option ContainerRecord)
  read_container id s = get to_vec from_slice reads_ok container namespace id s

  unfoldable pub put_container : Bytes → ContainerRecord → Store → Result Error Unit × Store
  put_container id r s = put to_vec from_slice puts_ok container namespace id r s

  unfoldable pub read_sandbox : Bytes → Store → Result Error (Option SandboxRecord)
  read_sandbox id s = get sandbox_to_vec sandbox_from_slice reads_ok sandbox namespace id s

  unfoldable pub put_sandbox : Bytes → SandboxRecord → Store → Result Error Unit × Store
  put_sandbox id r s = put sandbox_to_vec sandbox_from_slice puts_ok sandbox namespace id r s

  -- `gen_id`
  unfoldable pub gen_id : Bytes → Host → Bytes
  unfolding decimal
  gen_id seed h = (sha256 sha (seed ++ (b'/' ∷ decimal (unix_nanos h)))).hex

  -- `get_container`
  unfoldable pub get_container : Bytes → Store → Result Status (Option ContainerRecord)
  unfolding read_container
  get_container id s = internal_of (read_container id s)

  -- A write whose failure is the answer.
  abbrev pub written : World → Result Error Unit × Store → Result Status Unit × World
  written w (err e, s) = (err (internal (error_text e)), record w { store = s })
  written w (ok done, s) = (ok tt, record w { store = s })

  abbrev pub emitted : Bytes → ContainerEventType → World → World
  emitted id event w = record w { events = w.events ++ (id, event) ∷ [] }

  -- `emit_container_event`, where the call has succeeded so far.
  abbrev pub emit_ok :
      Bytes → ContainerEventType → Result Status Unit × World → Result Status Unit × World
  emit_ok id event (err e, w) = (err e, w)
  emit_ok id event (ok done, w) = (ok tt, emitted id event w)

  -- `Bundle::new(..).dir()` and the root of crun.
  abbrev pub bundle_dir : Bytes → Bytes
  bundle_dir id = join_path (join_path state_dir namespace) id

  abbrev pub crun_root : Bytes
  crun_root = join_path state_dir (text "crun")
