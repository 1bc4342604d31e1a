-- ===== src/Images/Credentials.antt =====
-- crates/images/src/dockercfg.rs, and the credentials of crates/images/src/pull.rs: what a pull logs
-- in with. Base64, UTF-8, JSON, the credential helpers and the node's files are the interface `Node`;
-- a map of the configuration is the list of its entries in the order of the iteration.
pub mod Hosts
use containerd_rs.Base.{
  List, [], ◌∷◌, Bytes, text, Option, none, some, if◌then◌else◌, str_eq, ◌||◌, split_once,
  strip_prefix, is_nil, or_else, unwrap_or, and_some,
}

-- `enum Auth`
pub data Auth : Type 0 where
  anonymous : Auth
  basic : Bytes → Bytes → Auth
  bearer : Bytes → Auth

-- `struct AuthEntry`
pub record AuthEntry : Type 0 where
  pub auth : Bytes
  pub username : Bytes
  pub password : Bytes
  pub identity_token : Bytes

-- `struct DockerConfig`
pub record DockerConfig : Type 0 where
  pub auths : List (Bytes × AuthEntry)
  pub cred_helpers : List (Bytes × Bytes)
  pub creds_store : Option Bytes

-- `struct HelperOutput`
pub record HelperOutput : Type 0 where
  pub username : Bytes
  pub secret : Bytes

abbrev pub first_part : Bytes → Option (Bytes × Bytes) → Bytes
first_part s none = s
first_part s (some (a, b)) = a

-- The text in front of the scheme's, or the text itself.
unfoldable pub without_scheme : Bytes → Bytes
unfolding strip_prefix
without_scheme s =
    unwrap_or s (or_else (strip_prefix (text "https://") s) (strip_prefix (text "http://") s))

-- `s.split('/').next()`
unfoldable pub before_slash : Bytes → Bytes
unfolding split_once
before_slash s = first_part s (split_once b'/' s)

-- The match on the host.
unfoldable pub hub_name : Bytes → Bytes
unfolding str_eq
hub_name h =
    if str_eq h (text "index.docker.io")
      || str_eq h (text "registry-1.docker.io")
      || str_eq h (text "docker.io")
    then text "docker.io"
    else h

-- `norm_host`
unfoldable pub norm_host : Bytes → Bytes
unfolding without_scheme before_slash hub_name
norm_host s = hub_name (before_slash (without_scheme s))

-- The first entry of a map for a host.
unfoldable pub find_host {ℓ} : {A : Type ℓ} → Bytes → List (Bytes × A) → Option A
unfolding norm_host
find_host host [] = none
find_host host ((k, v) ∷ entries) =
    let rest = find_host host entries in if str_eq (norm_host k) host then some v else rest

abbrev pub basic_of : Option (Bytes × Bytes) → Option Auth
basic_of none = none
basic_of (some (u, p)) = some (basic u p)

-- `parse_helper_output`, behind the parser of JSON.
unfoldable pub helper_auth : HelperOutput → Option Auth
unfolding str_eq
helper_auth out =
    if is_nil out.secret
    then none
    else if str_eq out.username (text "<token>")
    then some (bearer out.secret)
    else some (basic out.username out.secret)

-- What is asked of the node.
pub record Node : Type 0 where
  -- `decode(s.trim())` and `String::from_utf8`
  pub decode_trimmed : Bytes → Option Bytes
  pub from_utf8 : Bytes → Option Bytes
  pub parse_output : Bytes → Option HelperOutput
  -- `docker-credential-<helper> get` with its input, where it succeeds
  pub helper_output : Bytes → Bytes → Option Bytes
  pub docker_config_dir : Option Bytes
  pub join : Bytes → Bytes → Bytes
  pub read : Bytes → Option Bytes
  pub parse_config : Bytes → Option DockerConfig

module _ (node : Node) where
  open node use {
    decode_trimmed, from_utf8, parse_output, helper_output, docker_config_dir, join, read,
    parse_config,
  }

  -- The decoding of `user:password`.
  unfoldable pub decoded_auth : Bytes → Option Auth
  unfolding split_once
  decoded_auth auth =
      and_some (decode_trimmed auth)
        (λ bytes. and_some (from_utf8 bytes) (λ s. basic_of (split_once b':' s)))

  -- `AuthEntry::to_auth`
  unfoldable pub to_auth : AuthEntry → Option Auth
  unfolding decoded_auth
  to_auth e =
      if is_nil e.identity_token
      then if is_nil e.username
        then if is_nil e.auth then none else decoded_auth e.auth
        else some (basic e.username e.password)
      else some (bearer e.identity_token)

  -- `parse_helper_output`
  unfoldable pub parse_helper_output : Bytes → Option Auth
  unfolding helper_auth
  parse_helper_output bytes = and_some (parse_output bytes) helper_auth

  -- `run_helper`
  unfoldable pub run_helper : Bytes → Bytes → Option Auth
  unfolding parse_helper_output norm_host
  run_helper helper registry =
      and_some (helper_output helper (norm_host registry)) parse_helper_output

  -- `DockerConfig::resolve`
  unfoldable pub resolve : DockerConfig → Bytes → Option Auth
  unfolding run_helper find_host to_auth
  resolve c registry =
      or_else
        (and_some (find_host (norm_host registry) c.cred_helpers) (λ h. run_helper h registry))
        (or_else (and_some c.creds_store (λ store. run_helper store registry))
          (and_some (find_host (norm_host registry) c.auths) to_auth))

  -- `config_paths`
  unfoldable pub config_paths : List Bytes
  config_paths =
      let fixed = text "/var/lib/kubelet/config.json" ∷ text "/root/.docker/config.json" ∷ [] in
      unwrap_or fixed
        (and_some docker_config_dir (λ dir. some (join dir (text "config.json") ∷ fixed)))

  -- The loop of `load_default`.
  unfoldable pub load_from : List Bytes → Option DockerConfig
  load_from [] = none
  load_from (p ∷ ps) = or_else (and_some (read p) parse_config) (load_from ps)

  unfoldable pub load_default : Option DockerConfig
  unfolding load_from config_paths
  load_default = load_from config_paths

  -- `resolve_auth`
  unfoldable pub resolve_auth : Bytes → Auth → Auth
  unfolding load_default resolve
  resolve_auth reference anonymous =
      unwrap_or anonymous (and_some load_default (λ c. resolve c reference))
  resolve_auth reference provided = provided
