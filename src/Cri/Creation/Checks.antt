-- ===== src/Cri/Creation/Checks.antt =====
-- crates/cri/src/server.rs: what the checks of `create_container` and `run_pod_sandbox` let pass.
use containerd_rs.Base.{
  ◌≡◌, ◌≢◌, ◌↔◌, ◌⊎◌, refl, ℤ, pos, negsuc, is_num, List, [], ◌∷◌, ◌++◌, map, Bytes, text, Bool,
  true, false, not, ◌&&◌, ◌||◌, Option, none, some, Result, ok, err, if◌then◌else◌, is_nil, is_some,
  All, All-append, arith, Bool-cases,
}
use containerd_rs.Metadata.Records.{SandboxRecord}
use containerd_rs.Runtime.Bundle.Request.{MountSpec, private_mount}
use containerd_rs.Cri.Service.{Status}
use containerd_rs.Cri.Convert.{propagation_from}
use containerd_rs.Cri.Creation.Request.{
  Mount, ContainerConfig, Facts, SecurityContext, sec_ctx, has_lone_group, check_mounts,
  check_config, mount_spec, has_destination, resolv_mount, with_resolv, container_request,
}

-- A mount that is recursively read-only, where it says so: it is read-only and nothing propagates.
abbrev pub IsConsistent : Mount → Type 0
IsConsistent m = m.recursive_read_only ≡ true → (m.readonly ≡ true) × (m.propagation ≡ pos 0)

-- What the checks ask of a request.
abbrev pub IsAcceptable : ContainerConfig → Type 0
IsAcceptable c =
    (((sec_ctx c).run_as_group ≡ none)
      ⊎ (((sec_ctx c).run_as_user ≢ none) ⊎ ((sec_ctx c).run_as_username ≢ [])))
    × All IsConsistent c.mounts

is_num_zero : (i : ℤ) → (is_num 0 i ≡ true) ↔ (i ≡ pos 0)
is_num_zero (pos n) = ground arith
is_num_zero (negsuc n) = (λ h. cc, λ h. cc)

check_mount :
    (m : Mount) (e e' : Status) (rest : Result Status Unit)
    → ((if not m.recursive_read_only
          then rest
          else if not m.readonly
          then err e
          else if not (is_num 0 m.propagation)
          then err e'
          else rest)
        ≡ ok tt)
      ↔ (IsConsistent m × (rest ≡ ok tt))
check_mount m e e' rest = ground (arith, is_num_zero m.propagation)

check_mounts_iff : (ms : List Mount) → (check_mounts ms ≡ ok tt) ↔ All IsConsistent ms
unfolding check_mounts
check_mounts_iff [] = (λ h. tt, λ h. refl)
check_mounts_iff (m ∷ ms) = ground (arith, check_mount m _ _ (check_mounts ms), check_mounts_iff ms)

nonempty_iff : (s : Bytes) → (not (is_nil s) ≡ true) ↔ (s ≢ [])
nonempty_iff [] = (λ h. cc, λ h. absurd (h refl))
nonempty_iff (b ∷ bs) = (λ h. λ e. cc, λ h. refl)

is_some_iff : (o : Option ℤ) → (is_some o ≡ true) ↔ (o ≢ none)
is_some_iff none = (λ h. cc, λ h. absurd (h refl))
is_some_iff (some i) = (λ h. λ e. cc, λ h. refl)

is_none_iff : (o : Option ℤ) → (is_some o ≡ false) ↔ (o ≡ none)
is_none_iff none = (λ h. refl, λ h. refl)
is_none_iff (some i) = (λ h. cc, λ h. cc)

lone_group_iff :
    (sc : SecurityContext)
    → (has_lone_group sc ≡ false)
      ↔ ((sc.run_as_group ≡ none) ⊎ ((sc.run_as_user ≢ none) ⊎ (sc.run_as_username ≢ [])))
unfolding has_lone_group
lone_group_iff sc =
    tests (is_some sc.run_as_group) (is_some sc.run_as_user) (not (is_nil sc.run_as_username))
      (is_none_iff sc.run_as_group) (is_some_iff sc.run_as_user) (nonempty_iff sc.run_as_username)
  where
    tests :
        (a b c : Bool) {A B C : Type 0}
        → ((a ≡ false) ↔ A)
        → ((b ≡ true) ↔ B)
        → ((c ≡ true) ↔ C)
        → ((a && not (b || c)) ≡ false) ↔ (A ⊎ (B ⊎ C))
    tests a b c ha hb hc = ground (arith, Bool-cases a, Bool-cases b, Bool-cases c)

-- The checks of a request for a container pass exactly if it names no group, or also a user by id or by
-- name, and each mount that is to be read-only recursively is read-only and private.
pub check_config_iff : (c : ContainerConfig) → (check_config c ≡ ok tt) ↔ IsAcceptable c
unfolding check_config
check_config_iff c = ground (
  arith,
  lone_group_iff (sec_ctx c),
  check_mounts_iff c.mounts,
  Bool-cases (has_lone_group (sec_ctx c)),
)

-- The same of a mount of the bundle.
abbrev pub IsSealed : MountSpec → Type 0
IsSealed m = m.recursive_read_only ≡ true → (m.readonly ≡ true) × (m.propagation ≡ private_mount)

mount_spec-IsSealed : (m : Mount) → IsConsistent m → IsSealed (mount_spec m)
unfolding mount_spec propagation_from
mount_spec-IsSealed m h r = ((h r).0, rw (h r).1 refl)

mounts-IsSealed : (ms : List Mount) → All IsConsistent ms → All IsSealed (map mount_spec ms)
mounts-IsSealed [] h = tt
mounts-IsSealed (m ∷ ms) (h, hs) = (mount_spec-IsSealed m h, mounts-IsSealed ms hs)

with_resolv-IsSealed :
    (is_file : Bytes → Bool) (rc : Option Bytes) (ms : List MountSpec)
    → All IsSealed ms
    → All IsSealed (with_resolv is_file rc ms)
unfolding with_resolv
with_resolv-IsSealed is_file none ms h = h
with_resolv-IsSealed is_file (some rc) ms h =
    added (not (has_destination (text "/etc/resolv.conf") ms) && is_file rc)
  where
    added : (b : Bool) → All IsSealed (if b then ms ++ resolv_mount rc ∷ [] else ms)
    added true = All-append IsSealed ms (resolv_mount rc ∷ []) h ((λ e. cc), tt)
    added false = h

-- Of a request that passes the checks, every mount of the bundle that is read-only recursively is
-- read-only and private, that of the pod's resolv.conf included.
pub container_request-IsSealed :
    (facts : Facts) (id : Bytes) (sandbox : SandboxRecord) (c : ContainerConfig)
    → check_config c ≡ ok tt
    → All IsSealed (container_request facts id sandbox c).mounts
unfolding container_request
container_request-IsSealed facts id sandbox c h =
    with_resolv-IsSealed facts.is_file sandbox.resolv_conf_path (map mount_spec c.mounts)
      (mounts-IsSealed c.mounts ((check_config_iff c).0 h).1)
