-- ===== src/Cri/Sessions.antt =====
-- crates/cri/src/streaming.rs: the registry of pending sessions and of the handles of running
-- containers. A broadcast bus, a log file and a stdin pipe are what the parameters say; each call holds
-- the mutex of its table, so it is one step.
pub mod Tokens
use containerd_rs.Base.{
  ℕ, ◌+◌, ◌%◌, ◌^◌, List, [], ◌∷◌, ◌++◌, Bytes, Bool, Option, none, some, lookup, insert, remove,
  decimal, length,
}
use containerd_rs.CoreTypes.{Sha256, sha256}

-- `struct ExecSession`
pub record ExecSession : Type 0 where
  pub container_id : Bytes
  pub cmd : List Bytes
  pub tty : Bool
  pub stdin : Bool
  pub stdout : Bool
  pub stderr : Bool

-- `struct PortForwardSession`
pub record PortForwardSession : Type 0 where
  pub pod_sandbox_id : Bytes
  pub host : Bytes

-- `struct AttachSession`
pub record AttachSession : Type 0 where
  pub container_id : Bytes
  pub stdin : Bool
  pub stdout : Bool
  pub stderr : Bool
  pub tty : Bool
  pub stdin_once : Bool

module _ (Bus LogHandle StdinHandle : Type 0) where
  -- `struct Sessions`
  pub record Sessions : Type 0 where
    pub exec : List (Bytes × ExecSession)
    pub portforward : List (Bytes × PortForwardSession)
    pub attach : List (Bytes × AttachSession)
    pub live : List (Bytes × Bus)
    pub logs : List (Bytes × LogHandle)
    pub stdins : List (Bytes × StdinHandle)
    pub crun_root : Bytes
    pub crun_bin : Bytes
    pub counter : ℕ

  -- `Sessions::new`
  abbrev pub new : Bytes → Bytes → Sessions
  new crun_root default_bin = record {
    exec = [];
    portforward = [];
    attach = [];
    live = [];
    logs = [];
    stdins = [];
    crun_root = crun_root;
    crun_bin = default_bin;
    counter = 0;
  }

  -- `live_channel`; `bus` is the channel that is made where there is none.
  abbrev pub or_made : Bytes → Bus → Option Bus → Sessions → Bus × Sessions
  or_made id bus (some b) s = (b, s)
  or_made id bus none s = (bus, record s { live = insert id bus s.live })

  unfoldable pub live_channel : Bytes → Bus → Sessions → Bus × Sessions
  unfolding lookup insert
  live_channel id bus s = or_made id bus (lookup id s.live) s

  -- `subscribe_live`, `log_handle` and `stdin_handle`
  unfoldable pub subscribe_live : Bytes → Sessions → Option Bus
  unfolding lookup
  subscribe_live id s = lookup id s.live

  unfoldable pub log_handle : Bytes → Sessions → Option LogHandle
  unfolding lookup
  log_handle id s = lookup id s.logs

  unfoldable pub stdin_handle : Bytes → Sessions → Option StdinHandle
  unfolding lookup
  stdin_handle id s = lookup id s.stdins

  -- `close_live`, `close_log` and `close_stdin`
  unfoldable pub close_live : Bytes → Sessions → Sessions
  unfolding remove
  close_live id s = record s { live = remove id s.live }

  unfoldable pub close_log : Bytes → Sessions → Sessions
  unfolding remove
  close_log id s = record s { logs = remove id s.logs }

  unfoldable pub close_stdin : Bytes → Sessions → Sessions
  unfolding remove
  close_stdin id s = record s { stdins = remove id s.stdins }

  -- `register_log` and `register_stdin`
  unfoldable pub register_log : Bytes → LogHandle → Sessions → Sessions
  unfolding insert
  register_log id handle s = record s { logs = insert id handle s.logs }

  unfoldable pub register_stdin : Bytes → StdinHandle → Sessions → Sessions
  unfolding insert
  register_stdin id handle s = record s { stdins = insert id handle s.stdins }

  -- `pending`
  abbrev pub pending : Sessions → ℕ
  pending s = length s.exec

  -- `take_exec`, `take_attach` and `take_portforward`
  unfoldable pub take_exec : Bytes → Sessions → Option ExecSession × Sessions
  unfolding lookup remove
  take_exec token s = (lookup token s.exec, record s { exec = remove token s.exec })

  unfoldable pub take_attach : Bytes → Sessions → Option AttachSession × Sessions
  unfolding lookup remove
  take_attach token s = (lookup token s.attach, record s { attach = remove token s.attach })

  unfoldable pub take_portforward : Bytes → Sessions → Option PortForwardSession × Sessions
  unfolding lookup remove
  take_portforward token s =
      (lookup token s.portforward, record s { portforward = remove token s.portforward })

  module _ (sha : Sha256) where
    -- `token`; `nanos` is what the clock says.
    unfoldable pub token : ℕ → Sessions → Bytes × Sessions
    unfolding sha256 decimal
    token nanos s = (
      (sha256 sha (decimal s.counter ++ (b'/' ∷ decimal nanos))).hex,
      record s { counter = (s.counter + 1) % 2 ^ 64 },
    )

    -- `register_exec`, `register_attach` and `register_portforward`
    unfoldable pub register_exec : ℕ → ExecSession → Sessions → Bytes × Sessions
    unfolding token insert
    register_exec nanos session s =
        let (t, s') = token nanos s in (t, record s' { exec = insert t session s'.exec })

    unfoldable pub register_attach : ℕ → AttachSession → Sessions → Bytes × Sessions
    unfolding token insert
    register_attach nanos session s =
        let (t, s') = token nanos s in (t, record s' { attach = insert t session s'.attach })

    unfoldable pub register_portforward : ℕ → PortForwardSession → Sessions → Bytes × Sessions
    unfolding token insert
    register_portforward nanos session s =
        let (t, s') = token nanos s in
        (t, record s' { portforward = insert t session s'.portforward })
