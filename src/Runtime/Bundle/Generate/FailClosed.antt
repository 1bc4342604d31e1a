-- ===== src/Runtime/Bundle/Generate/FailClosed.antt =====
-- crates/runtime/src/bundle.rs: the system call filter of a container that is not privileged.
use containerd_rs.Base.{
  ◌≡◌, if_false, refl, ap, sym, ◌∙◌, Bytes, text, ◌++◌, true, false, Option, none, some, Result, ok,
  err, is_some, ok-injective, bind-eq-ok, err_ne_ok, subst, or_else,
}
use mathlib.Core.Bool.{false≢true}
use containerd_rs.Runtime.Seccomp.{LinuxSeccomp, CapNames}
use containerd_rs.Runtime.Bundle.Request.{
  ImageConfig, ContainerRequest, SeccompProfile, unconfined, runtime_default_profile, localhost,
  Error,
}
use containerd_rs.Runtime.Bundle.Spec.{Spec, Linux, on_process}
use containerd_rs.Runtime.Bundle.Capabilities.{bounding_of, apply_capabilities}
use containerd_rs.Runtime.Bundle.Limits.{apply_sysctls, apply_devices}
use containerd_rs.Runtime.Bundle.Security.{
  effective_capabilities, apply_security, secure_in, set_filter, seccomp_for, secure_process,
  loaded, parsed,
}
use containerd_rs.Runtime.Bundle.Generate.Kept.{
  filter_of, Keeps, apply_sysctls-Keeps, apply_devices-Keeps,
}
use containerd_rs.Runtime.Bundle.Generate.{
  Host, default_profile, restricted, generate_spec, confined, with_sysctls,
}

filled :
    {f : LinuxSeccomp} {filter : Option LinuxSeccomp}
    → filter ≡ some f
    → (old : Option LinuxSeccomp) → or_else filter old ≡ some f
filled h old = ap (λ o. or_else o old) h

-- The filter is the one that a profile asks for, resolved for these capabilities; nothing is asked
-- of an unconfined container.
unfoldable pub IsFiltered : Host → CapNames → SeccompProfile → Option LinuxSeccomp → Type 0
IsFiltered host caps unconfined filter = Unit
IsFiltered host caps runtime_default_profile filter =
    (f : LinuxSeccomp) × (default_profile host caps ≡ ok f) × (filter ≡ some f)
IsFiltered host caps (localhost path) filter =
    (bytes : Bytes) × (f : LinuxSeccomp) × (host.read_file path ≡ ok bytes)
    × (host.parse_profile bytes ≡ ok f)
    × (filter ≡ some f)

-- What is asked of a specification that has a `linux` part.
abbrev pub Fulfils : Host → SeccompProfile → Spec → Type 0
Fulfils host profile spec =
    is_some spec.linux ≡ true
    → IsFiltered host (effective_capabilities spec) profile (filter_of spec)

Keeps-Fulfils :
    (host : Host) (profile : SeccompProfile) (s t : Spec)
    → Keeps s t
    → Fulfils host profile s
    → Fulfils host profile t
unfolding effective_capabilities bounding_of IsFiltered filter_of
Keeps-Fulfils host profile s t (p, q, r) h present = rw (p, q) (h (sym r ∙ present))

loaded_ok :
    (what : Bytes) (r : Result Bytes LinuxSeccomp) (filter : Option LinuxSeccomp)
    → ◌≡◌ {A = Result Error (Option LinuxSeccomp)} (loaded what r) (ok filter)
    → (f : LinuxSeccomp) × (r ≡ ok f) × (filter ≡ some f)
loaded_ok what (err e) filter h = absurd (err_ne_ok h)
loaded_ok what (ok f) filter h = (f, refl, sym (ok-injective h))

module _ (host : Host) where
  parsed_ok :
      (path : Bytes) (r : Result Bytes Bytes) (filter : Option LinuxSeccomp)
      → parsed host.read_file host.parse_profile (default_profile host) path r ≡ ok filter
      → (bytes : Bytes) × (f : LinuxSeccomp) × (r ≡ ok bytes)
        × (host.parse_profile bytes ≡ ok f)
        × (filter ≡ some f)
  parsed_ok path (err e) filter h = absurd (err_ne_ok h)
  parsed_ok path (ok bytes) filter h =
      let (f, e, same) =
        loaded_ok (text "parse seccomp profile " ++ path) (host.parse_profile bytes) filter h in
      (bytes, f, refl, e, same)

  -- The filter that is found is the one that is asked for.
  seccomp_for-IsFiltered :
      (caps : CapNames) (profile : SeccompProfile) (filter old : Option LinuxSeccomp)
      → seccomp_for host.read_file host.parse_profile (default_profile host) caps profile
        ≡ ok filter
      → IsFiltered host caps profile (or_else filter old)
  unfolding seccomp_for IsFiltered
  seccomp_for-IsFiltered caps unconfined filter old h = tt
  seccomp_for-IsFiltered caps runtime_default_profile filter old h =
      let (f, e, same) =
        loaded_ok (text "build RuntimeDefault seccomp profile") (default_profile host caps) filter
          h in
      (f, e, filled same old)
  seccomp_for-IsFiltered caps (localhost path) filter old h =
      let (bytes, f, read, e, same) = parsed_ok path (host.read_file path) filter h in
      (bytes, f, read, e, filled same old)

  set_filter-Fulfils :
      (req : ContainerRequest) (spec spec' : Spec) (linux : Linux)
      (found : Result Error (Option LinuxSeccomp))
      → seccomp_for host.read_file host.parse_profile
          (default_profile host)
          (effective_capabilities spec)
          req.seccomp
        ≡ found
      → set_filter req spec linux found ≡ ok spec'
      → Fulfils host req.seccomp spec'
  unfolding effective_capabilities bounding_of filter_of
  set_filter-Fulfils req spec spec' linux (err e) found h = absurd (err_ne_ok h)
  set_filter-Fulfils req spec spec' linux (ok filter) found h =
      subst (Fulfils host req.seccomp) (ok-injective h) (λ present.
        seccomp_for-IsFiltered (effective_capabilities spec) req.seccomp filter linux.seccomp found)

  secure_in-Fulfils :
      (req : ContainerRequest) (spec spec' : Spec) (m : Option Linux)
      → spec.linux ≡ m
      → secure_in host.read_file host.parse_profile (default_profile host) req spec m ≡ ok spec'
      → Fulfils host req.seccomp spec'
  secure_in-Fulfils req spec spec' none here h =
      subst (Fulfils host req.seccomp) (ok-injective h)
        (λ present. absurd (false≢true (sym (ap is_some here) ∙ present)))
  secure_in-Fulfils req spec spec' (some linux) here h =
      set_filter-Fulfils req spec spec' linux _ refl h

  restricted-Fulfils :
      (req : ContainerRequest) (spec spec' : Spec)
      → restricted host req spec ≡ ok spec'
      → Fulfils host req.seccomp spec'
  unfolding restricted apply_security
  restricted-Fulfils req spec spec' h =
      let capable = on_process (secure_process req) (
        apply_capabilities host.trim_upper host.parse_capability req.add_capabilities
          req.drop_capabilities spec) in
      let (secured, e, rest) =
        bind-eq-ok
          (secure_in host.read_file host.parse_profile (default_profile host) req capable
            capable.linux)
          (apply_devices host.stat req.devices) h in
      Keeps-Fulfils host req.seccomp secured spec'
        (apply_devices-Keeps host.stat req.devices secured spec' rest)
        (secure_in-Fulfils req capable secured capable.linux refl e)

  confined-Fulfils :
      (req : ContainerRequest) (spec spec' : Spec)
      → req.privileged ≡ false
      → confined host req spec ≡ ok spec'
      → Fulfils host req.seccomp spec'
  unfolding confined
  confined-Fulfils req spec spec' plain h =
      restricted-Fulfils req spec spec' (sym (if_false _ _ req.privileged plain) ∙ h)

  with_sysctls-Fulfils :
      (req : ContainerRequest) (r : Result Error Spec) (spec' : Spec)
      → ((spec : Spec) → r ≡ ok spec → Fulfils host req.seccomp spec)
      → with_sysctls host req r ≡ ok spec'
      → Fulfils host req.seccomp spec'
  with_sysctls-Fulfils req (err e) spec' each h = absurd (err_ne_ok h)
  with_sysctls-Fulfils req (ok spec) spec' each h =
      subst (Fulfils host req.seccomp) (ok-injective h) (
        Keeps-Fulfils host req.seccomp spec (apply_sysctls req.sysctls spec)
          (apply_sysctls-Keeps req.sysctls spec) (each spec refl))

  -- A specification that is generated for a container without `privileged` has the filter that its
  -- profile asks for: for RuntimeDefault the one that is resolved for the capabilities which the
  -- specification ends up with, for Localhost the file's. Where it cannot be had, generating fails.
  -- Conditions: a specification is returned, and it has a `linux` part.
  pub generate_spec-IsFiltered :
      (image : ImageConfig) (req : ContainerRequest) (rootfs : Bytes) (files files' : host.Files)
      (spec : Spec)
      → req.privileged ≡ false
      → generate_spec host image req rootfs files ≡ (ok spec, files')
      → is_some spec.linux ≡ true
      → IsFiltered host (effective_capabilities spec) req.seccomp (filter_of spec)
  unfolding generate_spec
  generate_spec-IsFiltered image req rootfs files files' spec plain h =
      with_sysctls-Fulfils req _ spec (λ s e. confined-Fulfils req _ s plain e) (ap (λ q. q.0) h)
