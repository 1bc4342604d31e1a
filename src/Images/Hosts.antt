-- ===== src/Images/Hosts.antt =====
-- crates/images/src/pull.rs: which registries a `hosts.toml` lets be used over plain HTTP.
-- Reading and parsing the file is the parameter `read_hosts`, from the path to its contents.
use containerd_rs.Base.{
  is_some, is_nil, List, [], ◌∷◌, ◌++◌, Bytes, text, Bool, true, false, not, ◌&&◌, ◌||◌, Option,
  none, some, ◌==◌, if◌then◌else◌, str_eq, strip_prefix,
}
use containerd_rs.Snapshots.Paths.{PathBuf, normal, join, components}

-- `struct HostToml` and `struct HostsToml`; the table of hosts is in the order of its keys.
pub record HostToml : Type 0 where
  pub capabilities : List Bytes

pub record HostsToml : Type 0 where
  pub server : Option Bytes
  pub host : List (Bytes × HostToml)

-- `s.rsplit_once(c)`
unfoldable pub rsplit_once : Bytes → Option (Bytes × Bytes)
rsplit_once [] = none
rsplit_once (x ∷ xs) = elim (rsplit_once xs) [
  | none ↦ if x == b':' then some ([], xs) else none
  | some (a, b) ↦ some (x ∷ a, b)
]

abbrev pub port_namespace : Option (Bytes × Bytes) → List Bytes
port_namespace none = []
port_namespace (some (host, port)) =
    if not (is_nil host) && not (is_nil port)
    then (host ++ (b'_' ∷ (port ++ text "_"))) ∷ []
    else []

-- `registry_namespaces`
unfoldable pub registry_namespaces : Bytes → List Bytes
unfolding rsplit_once
registry_namespaces registry =
    port_namespace (rsplit_once registry) ++ registry ∷ text "_default" ∷ []

-- `s.starts_with("http://")`
unfoldable pub is_http : Bytes → Bool
unfolding strip_prefix
is_http s = is_some (strip_prefix (text "http://") s)

abbrev pub server_is_http : Option Bytes → Bool
server_is_http none = false
server_is_http (some s) = is_http s

-- The capabilities of a host let it serve pulls: none listed, or `pull` or `resolve` among them.
unfoldable pub has_pull : List Bytes → Bool
unfolding str_eq
has_pull [] = false
has_pull (c ∷ cs) = str_eq c (text "pull") || str_eq c (text "resolve") || has_pull cs

abbrev pub can_pull : List Bytes → Bool
can_pull [] = true
can_pull (c ∷ cs) = has_pull (c ∷ cs)

unfoldable pub any_http : List (Bytes × HostToml) → Bool
unfolding is_http has_pull
any_http [] = false
any_http ((url, host) ∷ hosts) = is_http url && can_pull host.capabilities || any_http hosts

abbrev pub hosts_use_http : Option HostsToml → Bool
hosts_use_http none = false
hosts_use_http (some hosts) = server_is_http hosts.server || any_http hosts.host

module _ (read_hosts : PathBuf → Option HostsToml) where
  unfoldable pub any_namespace : PathBuf → List Bytes → Bool
  unfolding any_http
  any_namespace root [] = false
  any_namespace root (namespace ∷ namespaces) =
      let path = join (join root (components namespace)) (normal (text "hosts.toml") ∷ []) in
      hosts_use_http (read_hosts path) || any_namespace root namespaces

  -- `hosts_toml_uses_http`, on the option `registry_config_path`.
  unfoldable pub hosts_toml_uses_http : Bytes → Option PathBuf → Bool
  unfolding any_namespace registry_namespaces
  hosts_toml_uses_http registry none = false
  hosts_toml_uses_http registry (some root) = any_namespace root (registry_namespaces registry)
