-- ===== src/Cri/Sandboxes/Request.antt =====
-- crates/cri/src/server.rs: the request for a sandbox, and what `run_pod_sandbox` reads off it before
-- it touches the host.
use containerd_rs.Base.{
  ℕ, ℤ, is_num, List, [], ◌∷◌, ◌++◌, Bytes, text, Bool, true, false, not, ◌&&◌, ◌||◌, Option, none,
  some, Result, ok, err, ◌>>=◌, if◌then◌else◌, ◌==◌, is_nil, and_some, unwrap_or,
}
use containerd_rs.Metadata.Records.{Labels}
use containerd_rs.Cri.Service.{Status, invalid_argument, PortMapping}

-- The messages of the protocol, as far as they are read.
pub record IdMapping : Type 0 where
  pub host_id : ℕ
  pub container_id : ℕ
  pub length : ℕ

pub record UserNamespace : Type 0 where
  pub mode : ℤ
  pub uids : List IdMapping
  pub gids : List IdMapping

pub record NamespaceOption : Type 0 where
  pub network : ℤ
  pub pid : ℤ
  pub ipc : ℤ
  pub userns_options : Option UserNamespace

pub record PodSandboxMetadata : Type 0 where
  pub name : Bytes
  pub uid : Bytes
  pub namespace : Bytes
  pub attempt : ℕ

pub record DnsConfig : Type 0 where
  pub servers : List Bytes
  pub searches : List Bytes
  pub options : List Bytes

-- `v1::PortMapping`
pub record PortRequest : Type 0 where
  pub protocol : ℤ
  pub container_port : ℤ
  pub host_port : ℤ
  pub host_ip : Bytes

-- `security_context` stands for the namespace options that it holds.
pub record LinuxPodSandboxConfig : Type 0 where
  pub cgroup_parent : Bytes
  pub security_context : Option (Option NamespaceOption)
  pub sysctls : Labels

pub record PodSandboxConfig : Type 0 where
  pub metadata : Option PodSandboxMetadata
  pub hostname : Bytes
  pub log_directory : Bytes
  pub dns_config : Option DnsConfig
  pub port_mappings : List PortRequest
  pub labels : Labels
  pub annotations : Labels
  pub linux : Option LinuxPodSandboxConfig

abbrev pub no_metadata : PodSandboxMetadata
no_metadata = record { name = []; uid = []; namespace = []; attempt = 0 }

-- The namespaces that the pod shares with the host, and those that its containers share.
pub record Modes : Type 0 where
  pub host_network : Bool
  pub host_pid : Bool
  pub host_ipc : Bool
  pub shared_pid : Bool
  pub shared_ipc : Bool

unfoldable pub modes_of : Option NamespaceOption → Modes
modes_of none = record {
  host_network = false;
  host_pid = false;
  host_ipc = false;
  shared_pid = false;
  shared_ipc = false;
}
modes_of (some ns) = record {
  host_network = is_num 2 ns.network;
  host_pid = is_num 2 ns.pid;
  host_ipc = is_num 2 ns.ipc;
  shared_pid = not (is_num 2 ns.pid) && is_num 0 ns.pid;
  shared_ipc = not (is_num 2 ns.ipc) && is_num 0 ns.ipc;
}

-- `validate_userns_map`
unfoldable pub validate_userns_map : List IdMapping → Result Status (List (ℕ × ℕ × ℕ))
validate_userns_map [] =
    err (invalid_argument (text "user namespace requires exactly one uid/gid mapping"))
validate_userns_map (m ∷ []) =
    if m.container_id == 0
    then ok ((m.container_id, m.host_id, m.length) ∷ [])
    else err (invalid_argument (text "user namespace mapping must start at container ID 0"))
validate_userns_map (m ∷ n ∷ ms) =
    err (invalid_argument (text "user namespace requires exactly one uid/gid mapping"))

abbrev pub Mappings : Type 0
Mappings = List (ℕ × ℕ × ℕ)

-- The match on the mode of the user namespace.
unfoldable pub userns_of : Option UserNamespace → Result Status (Bool × Mappings × Mappings)
unfolding validate_userns_map
userns_of none = ok (false, [], [])
userns_of (some u) =
    if is_num 0 u.mode
    then validate_userns_map u.uids
      >>= (λ uids. validate_userns_map u.gids >>= λ gids. ok (true, uids, gids))
    else if is_num 1 u.mode || is_num 3 u.mode
    then err
        (invalid_argument (text "unsupported user namespace mode: only NODE and POD are supported"))
    else ok (false, [], [])

abbrev pub ns_options : PodSandboxConfig → Option NamespaceOption
ns_options c = and_some c.linux (λ l. and_some l.security_context (λ sc. sc))

-- The protocol of a host port.
abbrev pub protocol_of : ℤ → Bytes
protocol_of p = if is_num 1 p then text "udp" else if is_num 2 p then text "sctp" else text "tcp"

unfoldable pub port_mapping : PortRequest → PortMapping
port_mapping pm = record {
  host_port = pm.host_port;
  container_port = pm.container_port;
  protocol = protocol_of pm.protocol;
  host_ip = pm.host_ip;
}

-- `l.join(" ")`
unfoldable pub join_words : List Bytes → Bytes
join_words [] = []
join_words (w ∷ []) = w
join_words (w ∷ v ∷ ws) = w ++ (32 ∷ join_words (v ∷ ws))

unfoldable pub nameservers : List Bytes → Bytes
nameservers [] = []
nameservers (s ∷ ss) = text "nameserver " ++ (s ++ (10 ∷ nameservers ss))

-- A line with a list of words, where there are any.
abbrev pub words_line : Bytes → List Bytes → Bytes
words_line word [] = []
words_line word (w ∷ ws) = word ++ (32 ∷ (join_words (w ∷ ws) ++ (10 ∷ [])))

-- The content of resolv.conf: that of the pod, or else that of the node.
unfoldable pub resolv_conf : Option DnsConfig → Option Bytes → Bytes
unfolding join_words nameservers
resolv_conf none of_node = unwrap_or [] of_node
resolv_conf (some d) of_node =
    if not (is_nil d.servers) || not (is_nil d.searches) || not (is_nil d.options)
    then words_line (text "search") d.searches
      ++ (nameservers d.servers ++ words_line (text "options") d.options)
    else unwrap_or [] of_node
