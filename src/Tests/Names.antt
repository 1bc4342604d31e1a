-- ===== src/Tests/Names.antt =====
-- Image references of crates/cri/src/server.rs and registries of crates/images/src/pull.rs at
-- concrete inputs.
use containerd_rs.Base.{
  ◌≡◌, refl, [], ◌∷◌, Bytes, text, true, Option, none, some, str_eq, strip_prefix,
}
use containerd_rs.Snapshots.Paths.{PathBuf, root_dir, normal, join, components}
use containerd_rs.Images.Hosts.{HostsToml, registry_namespaces, hosts_toml_uses_http}
use containerd_rs.Cri.References.{normalize_image_ref}

abbrev busybox : Bytes
busybox = text "host:5000/busybox"

busybox_latest : normalize_image_ref busybox ≡ text "host:5000/busybox:latest"
unfolding normalize_image_ref str_eq
busybox_latest = refl

port_namespaces :
    registry_namespaces (text "host:5000")
    ≡ text "host_5000_" ∷ text "host:5000" ∷ text "_default" ∷ []
unfolding registry_namespaces
port_namespaces = refl

-- The file of the namespace `_default` allows plain HTTP.
abbrev default_http : PathBuf → Option HostsToml
default_http (root_dir ∷ normal d ∷ p) =
    some (record { server = some (text "http://mirror"); host = [] })
default_http p = none

http_allowed : hosts_toml_uses_http default_http (text "r") (some (root_dir ∷ [])) ≡ true
unfolding hosts_toml_uses_http strip_prefix join components
http_allowed = refl
