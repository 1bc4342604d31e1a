-- ===== src/Runtime/Bundle/Security.antt =====
-- crates/runtime/src/bundle.rs: privileged containers, and the security context of the others.
-- `read_file` reads a file of the node and `parse_profile` is serde_json's parser; `default_profile`
-- is `runtime_default` of crates/runtime/src/seccomp.rs on the host.
use containerd_rs.Base.{
  List, [], ◌∷◌, ◌++◌, Bytes, text, Bool, true, false, Option, none, some, Result, ok, err,
  if◌then◌else◌, strip_prefix, unwrap_or, or_else,
}
use containerd_rs.Runtime.Seccomp.{LinuxSeccomp, CapNames}
use containerd_rs.Runtime.Bundle.Request.{
  ContainerRequest, SeccompProfile, unconfined, runtime_default_profile, localhost, Error, builder,
}
use containerd_rs.Runtime.Bundle.Spec.{
  CapSet, Process, DeviceRule, Linux, Spec, on_linux, on_process,
}
use containerd_rs.Runtime.Bundle.Capabilities.{all_capabilities, build_caps, bounding_of}
use containerd_rs.Runtime.Bundle.Limits.{no_resources}

-- The rule `a *:* rwm`.
abbrev pub allow_all : DeviceRule
allow_all = record { allow = true; typ = none; major = none; minor = none; access = text "rwm" }

unfoldable pub with_all_capabilities : Process → Process
unfolding build_caps
with_all_capabilities p = record p {
  capabilities = some (build_caps all_capabilities all_capabilities);
}

abbrev pub opened : Linux → Linux
opened linux = record linux {
  masked_paths = none;
  readonly_paths = none;
  resources =
      some (record (unwrap_or no_resources linux.resources) { devices = some (allow_all ∷ []) });
}

-- `apply_privileged`
unfoldable pub apply_privileged : Spec → Spec
unfolding build_caps
apply_privileged spec = on_linux opened (on_process with_all_capabilities spec)

-- `effective_capabilities`: oci-spec writes a capability as `CAP_` and its name.
abbrev pub named_in : CapSet → Option Bytes → Bool
named_in caps none = false
named_in caps (some name) = caps name

unfoldable pub effective_capabilities : Spec → CapNames
unfolding strip_prefix
effective_capabilities spec s = named_in (bounding_of spec) (strip_prefix (text "CAP_") s)

abbrev pub paths_or : Option (List Bytes) → List Bytes → Option (List Bytes)
paths_or old [] = old
paths_or old (p ∷ ps) = some (p ∷ ps)

abbrev pub loaded : Bytes → Result Bytes LinuxSeccomp → Result Error (Option LinuxSeccomp)
loaded what (err e) = err (builder (what ++ (text ": " ++ e)))
loaded what (ok s) = ok (some s)

abbrev pub secure_linux : ContainerRequest → Option LinuxSeccomp → Linux → Linux
secure_linux req filter linux = record linux {
  masked_paths = paths_or linux.masked_paths req.masked_paths;
  readonly_paths = paths_or linux.readonly_paths req.readonly_paths;
  seccomp = or_else filter linux.seccomp;
}

abbrev pub secure_process : ContainerRequest → Process → Process
secure_process req p = record p {
  no_new_privileges = if req.no_new_privileges then some true else p.no_new_privileges;
  apparmor_profile = or_else req.apparmor_profile p.apparmor_profile;
  selinux_label = or_else req.selinux_label p.selinux_label;
}

abbrev pub set_filter :
    ContainerRequest → Spec → Linux → Result Error (Option LinuxSeccomp) → Result Error Spec
set_filter req spec linux (err e) = err e
set_filter req spec linux (ok filter) =
    ok (record spec { linux = some (secure_linux req filter linux) })

module _ (read_file : Bytes → Result Bytes Bytes)
    (parse_profile : Bytes → Result Bytes LinuxSeccomp)
    (default_profile : CapNames → Result Bytes LinuxSeccomp) where
  abbrev pub parsed : Bytes → Result Bytes Bytes → Result Error (Option LinuxSeccomp)
  parsed path (err e) = err (builder (text "read seccomp profile " ++ (path ++ (text ": " ++ e))))
  parsed path (ok bytes) = loaded (text "parse seccomp profile " ++ path) (parse_profile bytes)

  -- The filter that the match on `req.seccomp` sets; `none` leaves what is there.
  unfoldable pub seccomp_for : CapNames → SeccompProfile → Result Error (Option LinuxSeccomp)
  seccomp_for caps unconfined = ok none
  seccomp_for caps runtime_default_profile =
      loaded (text "build RuntimeDefault seccomp profile") (default_profile caps)
  seccomp_for caps (localhost path) = parsed path (read_file path)

  abbrev pub secure_in : ContainerRequest → Spec → Option Linux → Result Error Spec
  secure_in req spec none = ok spec
  secure_in req spec (some linux) =
      set_filter req spec linux (seccomp_for (effective_capabilities spec) req.seccomp)

  -- `apply_security`
  unfoldable pub apply_security : ContainerRequest → Spec → Result Error Spec
  unfolding seccomp_for
  apply_security req spec = let s = on_process (secure_process req) spec in secure_in req s s.linux
