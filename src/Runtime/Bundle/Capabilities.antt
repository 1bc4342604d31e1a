-- ===== src/Runtime/Bundle/Capabilities.antt =====
-- crates/runtime/src/bundle.rs: the capability sets. A capability is known by oci-spec's name of it;
-- `trim_upper` is `s.trim().to_uppercase()` and `parse` is oci-spec's parser of names.
pub mod Sets
use containerd_rs.Base.{
  List, [], ◌∷◌, Bytes, text, Bool, false, ◌||◌, Option, none, some, if◌then◌else◌, str_eq,
  and_some, unwrap_or,
}
use containerd_rs.Runtime.Bundle.Spec.{CapSet, LinuxCapabilities, Process, Spec, on_process}

unfoldable pub member : List Bytes → CapSet
unfolding str_eq
member [] c = false
member (n ∷ ns) c = str_eq n c || member ns c

-- `all_capabilities`
abbrev pub all_names : List Bytes
all_names =
    text "AUDIT_CONTROL"
    ∷ text "AUDIT_READ"
    ∷ text "AUDIT_WRITE"
    ∷ text "BLOCK_SUSPEND"
    ∷ text "BPF"
    ∷ text "CHECKPOINT_RESTORE"
    ∷ text "CHOWN"
    ∷ text "DAC_OVERRIDE"
    ∷ text "DAC_READ_SEARCH"
    ∷ text "FOWNER"
    ∷ text "FSETID"
    ∷ text "IPC_LOCK"
    ∷ text "IPC_OWNER"
    ∷ text "KILL"
    ∷ text "LEASE"
    ∷ text "LINUX_IMMUTABLE"
    ∷ text "MAC_ADMIN"
    ∷ text "MAC_OVERRIDE"
    ∷ text "MKNOD"
    ∷ text "NET_ADMIN"
    ∷ text "NET_BIND_SERVICE"
    ∷ text "NET_BROADCAST"
    ∷ text "NET_RAW"
    ∷ text "PERFMON"
    ∷ text "SETFCAP"
    ∷ text "SETGID"
    ∷ text "SETPCAP"
    ∷ text "SETUID"
    ∷ text "SYS_ADMIN"
    ∷ text "SYS_BOOT"
    ∷ text "SYS_CHROOT"
    ∷ text "SYS_MODULE"
    ∷ text "SYS_NICE"
    ∷ text "SYS_PACCT"
    ∷ text "SYS_PTRACE"
    ∷ text "SYS_RAWIO"
    ∷ text "SYS_RESOURCE"
    ∷ text "SYS_TIME"
    ∷ text "SYS_TTY_CONFIG"
    ∷ text "SYSLOG"
    ∷ text "WAKE_ALARM"
    ∷ []

unfoldable pub all_capabilities : CapSet
unfolding member
all_capabilities = member all_names

-- `default_capabilities`
abbrev pub default_names : List Bytes
default_names =
    text "AUDIT_WRITE"
    ∷ text "CHOWN"
    ∷ text "DAC_OVERRIDE"
    ∷ text "FOWNER"
    ∷ text "FSETID"
    ∷ text "KILL"
    ∷ text "MKNOD"
    ∷ text "NET_BIND_SERVICE"
    ∷ text "NET_RAW"
    ∷ text "SETFCAP"
    ∷ text "SETGID"
    ∷ text "SETPCAP"
    ∷ text "SETUID"
    ∷ text "SYS_CHROOT"
    ∷ []

unfoldable pub default_capabilities : CapSet
unfolding member
default_capabilities = member default_names

-- The loop `while let Some(s) = key.strip_prefix("CAP_")`.
unfoldable pub strip_caps : Bytes → Bytes
unfolding str_eq
strip_caps (c ∷ a ∷ p ∷ u ∷ rest) =
    let inner = strip_caps rest in
    if str_eq (c ∷ a ∷ p ∷ u ∷ []) (text "CAP_") then inner else c ∷ a ∷ p ∷ u ∷ rest
strip_caps s = s

abbrev pub no_caps : CapSet
no_caps c = false

-- `build_caps`
unfoldable pub build_caps : CapSet → CapSet → LinuxCapabilities
build_caps caps ambient = record {
  bounding = some caps;
  effective = some caps;
  permitted = some caps;
  inheritable = some caps;
  ambient = some ambient;
}

-- `spec.process().capabilities().bounding()`, or the empty set.
unfoldable pub bounding_of : Spec → CapSet
bounding_of spec =
    unwrap_or no_caps (and_some spec.process (λ p. and_some p.capabilities (λ c. c.bounding)))

abbrev pub set_capabilities : CapSet → CapSet → Process → Process
set_capabilities caps ambient p = record p { capabilities = some (build_caps caps ambient) }

module _ (trim_upper : Bytes → Bytes) (parse : Bytes → Option Bytes) where
  abbrev pub cap_key : Bytes → Bytes
  cap_key name = strip_caps (trim_upper name)

  abbrev pub is_all : Bytes → Bool
  is_all name = str_eq (cap_key name) (text "ALL")

  -- `parse_cap`
  unfoldable pub parse_cap : Bytes → Option Bytes
  parse_cap name = if is_all name then none else parse (cap_key name)

  abbrev pub without_cap : CapSet → Option Bytes → CapSet
  without_cap set none = set
  without_cap set (some cap) = λ c. if str_eq cap c then false else set c

  abbrev pub with_cap : CapSet → Option Bytes → CapSet
  with_cap set none = set
  with_cap set (some cap) = λ c. str_eq cap c || set c

  -- The loop over the drops.
  unfoldable pub drop_caps : CapSet → List Bytes → CapSet
  drop_caps set [] = set
  drop_caps set (name ∷ names) =
      drop_caps (if is_all name then no_caps else without_cap set (parse_cap name)) names

  -- The loop over the adds.
  unfoldable pub add_caps : CapSet → List Bytes → CapSet
  add_caps set [] = set
  add_caps set (name ∷ names) =
      add_caps
        (if is_all name then (λ c. all_capabilities c || set c) else with_cap set (parse_cap name))
        names

  -- `apply_capabilities`
  unfoldable pub apply_capabilities : List Bytes → List Bytes → Spec → Spec
  unfolding drop_caps add_caps bounding_of
  apply_capabilities [] [] spec = spec
  apply_capabilities adds drops spec =
      let caps = add_caps (drop_caps (bounding_of spec) drops) adds in
      on_process (set_capabilities caps caps) spec
