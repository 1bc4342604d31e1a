-- ===== src/Runtime/Bundle/Limits.antt =====
-- crates/runtime/src/bundle.rs: resource limits, sysctls and devices. `stat` is what the system says
-- of a device node.
use containerd_rs.Base.{
  ℕ, ◌-◌, ◌%◌, ◌^◌, ℤ, pos, negsuc, List, [], ◌∷◌, ◌++◌, Bytes, text, Bool, true, ◌||◌, Option,
  none, some, Result, ok, err, if◌then◌else◌, ltb, ◌==◌, insert, unwrap_or, or_else,
}
use containerd_rs.Metadata.Records.{Labels}
use containerd_rs.Runtime.Bundle.Request.{
  Resources, has_no_resources, DeviceRequest, Error, builder,
}
use containerd_rs.Runtime.Bundle.Spec.{
  LinuxResources, LinuxCpu, LinuxDevice, DeviceRule, DeviceType, Linux, Spec, on_linux,
}

abbrev pub no_resources : LinuxResources
no_resources = record {
  devices = none;
  memory_limit = none;
  cpu = none;
  hugepage_limits = none;
  unified = none;
}

-- `n as i64` of a u64.
abbrev pub as_i64 : ℕ → ℤ
as_i64 n = if ltb n (2 ^ 63) then pos n else negsuc (2 ^ 64 - 1 - n)

-- `.filter(|s| !s.is_empty())`
abbrev pub non_empty : Option Bytes → Option Bytes
non_empty none = none
non_empty (some []) = none
non_empty (some (b ∷ bs)) = some (b ∷ bs)

unfoldable pub cpu_of : Resources → LinuxCpu
cpu_of res = record {
  shares = res.cpu_shares;
  quota = res.cpu_quota;
  period = res.cpu_period;
  cpus = non_empty res.cpuset_cpus;
  mems = non_empty res.cpuset_mems;
}

unfoldable pub hugepages : List (Bytes × ℕ) → List (Bytes × ℤ)
hugepages [] = []
hugepages ((page, limit) ∷ ls) = (page, as_i64 limit) ∷ hugepages ls

abbrev pub hugepages_or : Option (List (Bytes × ℤ)) → List (Bytes × ℕ) → Option (List (Bytes × ℤ))
hugepages_or old [] = old
hugepages_or old (l ∷ ls) = some (hugepages (l ∷ ls))

-- Inserts the pairs of one map into another.
unfoldable pub extend_map : Labels → Labels → Labels
unfolding insert
extend_map m [] = m
extend_map m ((k, v) ∷ kvs) = extend_map (insert k v m) kvs

abbrev pub unified_or : Option Labels → Labels → Option Labels
unified_or old [] = old
unified_or old (kv ∷ kvs) = some (extend_map (unwrap_or [] old) (kv ∷ kvs))

unfoldable pub limited : Resources → LinuxResources → LinuxResources
unfolding cpu_of hugepages extend_map
limited res r = record r {
  cpu = some (cpu_of res);
  memory_limit = or_else res.memory_limit r.memory_limit;
  hugepage_limits = hugepages_or r.hugepage_limits res.hugepage_limits;
  unified = unified_or r.unified res.unified;
}

-- `apply_resources`
unfoldable pub apply_resources : Resources → Spec → Spec
unfolding has_no_resources limited
apply_resources res spec =
    if has_no_resources res
    then spec
    else on_linux
        (λ linux. record linux {
          resources = some (limited res (unwrap_or no_resources linux.resources));
        })
        spec

-- `apply_sysctls`
unfoldable pub apply_sysctls : Labels → Spec → Spec
unfolding extend_map
apply_sysctls [] spec = spec
apply_sysctls (kv ∷ kvs) spec =
    on_linux
      (λ linux. record linux { sysctl = some (extend_map (unwrap_or [] linux.sysctl) (kv ∷ kvs)) })
      spec

abbrev pub is_access : ℕ → Bool
is_access c = c == b'r' || c == b'w' || c == b'm'

unfoldable pub access_chars : Bytes → Bytes
access_chars [] = []
access_chars (c ∷ cs) = let rest = access_chars cs in if is_access c then c ∷ rest else rest

abbrev pub or_rwm : Bytes → Bytes
or_rwm [] = text "rwm"
or_rwm (c ∷ cs) = c ∷ cs

-- `sanitize_device_access`
unfoldable pub sanitize_device_access : Bytes → Bytes
unfolding access_chars
sanitize_device_access perms = or_rwm (access_chars perms)

-- What `stat` returns of a node; `kind` is `none` for what is no device.
pub record Stat : Type 0 where
  pub kind : Option DeviceType
  pub mode : ℕ
  pub major : ℤ
  pub minor : ℤ

-- `struct StatedDevice`
pub record StatedDevice : Type 0 where
  pub typ : DeviceType
  pub major : ℤ
  pub minor : ℤ
  pub file_mode : ℕ

module _ (stat : Bytes → Result Bytes Stat) where
  abbrev pub stated_kind : Bytes → Stat → Option DeviceType → Result Error StatedDevice
  stated_kind path st none = err (builder (path ++ text " is not a character or block device"))
  stated_kind path st (some typ) =
      ok (record { typ = typ; major = st.major; minor = st.minor; file_mode = st.mode % 4096 })

  abbrev pub stated : Bytes → Result Bytes Stat → Result Error StatedDevice
  stated path (err e) =
      err (builder (text "device not found on node: " ++ (path ++ (text ": " ++ e))))
  stated path (ok st) = stated_kind path st st.kind

  -- `stat_device`
  unfoldable pub stat_device : Bytes → Result Error StatedDevice
  stat_device path = stated path (stat path)

  -- The device node and the rule that are pushed for a device.
  abbrev pub node_of : DeviceRequest → StatedDevice → LinuxDevice
  node_of d dev = record {
    path = d.container_path;
    typ = dev.typ;
    major = dev.major;
    minor = dev.minor;
    file_mode = dev.file_mode;
    uid = 0;
    gid = 0;
  }

  abbrev pub rule_of : DeviceRequest → StatedDevice → DeviceRule
  rule_of d dev = record {
    allow = true;
    typ = some dev.typ;
    major = some dev.major;
    minor = some dev.minor;
    access = sanitize_device_access d.permissions;
  }

  abbrev pub push_device :
      DeviceRequest
      → Result Error StatedDevice
      → List LinuxDevice × List DeviceRule
      → Result Error (List LinuxDevice × List DeviceRule)
  push_device d (err e) st = err e
  push_device d (ok dev) (nodes, allow) =
      ok (nodes ++ node_of d dev ∷ [], allow ++ rule_of d dev ∷ [])

  -- The loop of `apply_devices`; the first device that fails ends it.
  unfoldable pub push_devices :
      List DeviceRequest
      → Result Error (List LinuxDevice × List DeviceRule)
      → Result Error (List LinuxDevice × List DeviceRule)
  unfolding stat_device sanitize_device_access
  push_devices [] st = st
  push_devices (d ∷ ds) (err e) = err e
  push_devices (d ∷ ds) (ok st) = push_devices ds (push_device d (stat_device d.host_path) st)

  abbrev pub set_devices :
      Spec → Linux → Result Error (List LinuxDevice × List DeviceRule) → Result Error Spec
  set_devices spec linux (err e) = err e
  set_devices spec linux (ok (nodes, allow)) = ok (record spec {
    linux = some (record linux {
      devices = some nodes;
      resources = some (record (unwrap_or no_resources linux.resources) { devices = some allow });
    });
  })

  abbrev pub devices_in : List DeviceRequest → Spec → Option Linux → Result Error Spec
  devices_in ds spec none = ok spec
  devices_in ds spec (some linux) = set_devices spec linux (
      push_devices ds (
        ok (
          unwrap_or [] linux.devices,
          unwrap_or [] (unwrap_or no_resources linux.resources).devices,
        )))

  -- `apply_devices`
  unfoldable pub apply_devices : List DeviceRequest → Spec → Result Error Spec
  unfolding push_devices
  apply_devices [] spec = ok spec
  apply_devices (d ∷ ds) spec = devices_in (d ∷ ds) spec spec.linux
