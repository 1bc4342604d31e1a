-- ===== src/Runtime/Bundle/Mounts/Propagated.antt =====
-- crates/runtime/src/bundle.rs: the mounts and the root propagation behind `add_bind_mounts`.
use containerd_rs.Base.{
  ◌≡◌, or_else-none, refl, ap, sym, ◌∙◌, List, [], ◌∷◌, ◌++◌, map, append_assoc, append-nil, Bytes,
  text, Bool, true, false, ◌||◌, Option, none, some, if◌then◌else◌, unwrap_or, or_else, is_some,
}
use containerd_rs.Runtime.Bundle.Request.{
  Propagation, private_mount, host_to_container, bidirectional, MountSpec,
}
use containerd_rs.Runtime.Bundle.Spec.{OciMount, Linux, Spec, on_some, on_linux}
use containerd_rs.Runtime.Bundle.Mounts.{
  bind_of, next_rootfs_prop, with_propagation, Mounting, add_mount, add_mounts, add_bind_mounts,
}

abbrev pub is_shared : Propagation → Bool
is_shared private_mount = false
is_shared host_to_container = false
is_shared bidirectional = true

abbrev pub is_slave : Propagation → Bool
is_slave private_mount = false
is_slave host_to_container = true
is_slave bidirectional = false

-- Some mount asks for a kind of propagation.
unfoldable pub any_mount : (Propagation → Bool) → List MountSpec → Bool
any_mount p [] = false
any_mount p (m ∷ ms) = p m.propagation || any_mount p ms

-- The root propagation that mounts need: the strongest one asked for.
unfoldable pub needed : List MountSpec → Option Bytes
unfolding any_mount
needed ms =
    if any_mount is_shared ms
    then some (text "rshared")
    else if any_mount is_slave ms
    then some (text "rslave")
    else none

abbrev pub propagation_in : Option Linux → Option Bytes
propagation_in none = none
propagation_in (some linux) = linux.rootfs_propagation

unfoldable pub propagation_of : Spec → Option Bytes
propagation_of spec = propagation_in spec.linux

-- The loop's variable: what it held stays unless a later mount is shared.
prop_step :
    (p : Propagation) (prop : Option Bytes) (shared slave : Bool)
    → (if shared
        then some (text "rshared")
        else or_else (next_rootfs_prop p prop) (if slave then some (text "rslave") else none))
      ≡ (if is_shared p || shared
          then some (text "rshared")
          else or_else prop (if is_slave p || slave then some (text "rslave") else none))
prop_step private_mount prop shared slave = refl
prop_step host_to_container prop true slave = refl
prop_step host_to_container none false true = refl
prop_step host_to_container none false false = refl
prop_step host_to_container (some p) false slave = refl
prop_step bidirectional prop true slave = refl
prop_step bidirectional prop false slave = refl

with_propagation-propagation :
    (prop : Option Bytes) (spec : Spec)
    → is_some spec.linux ≡ true
    → propagation_of (with_propagation prop spec) ≡ or_else prop (propagation_of spec)
unfolding on_linux propagation_of
with_propagation-propagation none spec h = refl
with_propagation-propagation (some p) spec h = in_linux spec.linux h
  where
    in_linux :
        (m : Option Linux)
        → is_some m ≡ true
        → propagation_in (on_some (λ linux. record linux { rootfs_propagation = some p }) m)
          ≡ some p
    in_linux none h = cc
    in_linux (some linux) h = refl

with_propagation-mounts :
    (prop : Option Bytes) (spec : Spec) → (with_propagation prop spec).mounts ≡ spec.mounts
unfolding on_linux
with_propagation-mounts none spec = refl
with_propagation-mounts (some p) spec = refl

abbrev pub appended : List MountSpec → Option (List OciMount) → Option (List OciMount)
appended [] old = old
appended (m ∷ ms) old = some (unwrap_or [] old ++ map bind_of (m ∷ ms))

module _ {Host : Type 0} (exists : Host → Bytes → Bool) (create_dir_all : Bytes → Host → Host) where
  add_mounts-all :
      (ms : List MountSpec) (st : Mounting Host)
      → (add_mounts exists create_dir_all ms st).all ≡ st.all ++ map bind_of ms
  unfolding add_mounts add_mount
  add_mounts-all [] st = sym (append-nil st.all)
  add_mounts-all (m ∷ ms) st =
      add_mounts-all ms (add_mount exists create_dir_all m st)
      ∙ append_assoc st.all (bind_of m ∷ []) (map bind_of ms)

  add_mounts-rootfs_prop :
      (ms : List MountSpec) (st : Mounting Host)
      → (add_mounts exists create_dir_all ms st).rootfs_prop ≡ (
          if any_mount is_shared ms
          then some (text "rshared")
          else or_else st.rootfs_prop
              (if any_mount is_slave ms then some (text "rslave") else none))
  unfolding add_mounts add_mount any_mount
  add_mounts-rootfs_prop [] st = sym (or_else-none st.rootfs_prop)
  add_mounts-rootfs_prop (m ∷ ms) st =
      add_mounts-rootfs_prop ms (add_mount exists create_dir_all m st)
      ∙ prop_step m.propagation st.rootfs_prop (any_mount is_shared ms) (any_mount is_slave ms)

  -- Behind `add_bind_mounts` the requested mounts follow those of the base, in their order and with
  -- their options, and the root propagation is shared when a mount is bidirectional, else slave
  -- when one goes from host to container, else as before. Condition: there is a `linux` part.
  pub add_bind_mounts-propagated :
      (ms : List MountSpec) (spec : Spec) (host : Host)
      → is_some spec.linux ≡ true
      → ((add_bind_mounts exists create_dir_all ms spec host).0.mounts ≡ appended ms spec.mounts)
        × (propagation_of ((add_bind_mounts exists create_dir_all ms spec host).0)
            ≡ or_else (needed ms) (propagation_of spec))
  unfolding add_bind_mounts needed propagation_of any_mount
  add_bind_mounts-propagated [] spec host h = (refl, refl)
  add_bind_mounts-propagated (m ∷ ms) spec host h =
      let start : Mounting Host = record {
        all = unwrap_or [] spec.mounts;
        rootfs_prop = none;
        host = host;
      } in
      let st = add_mounts exists create_dir_all (m ∷ ms) start in
      let mounted : Spec = record spec { mounts = some st.all } in
      (
        with_propagation-mounts st.rootfs_prop mounted ∙ ap some (add_mounts-all (m ∷ ms) start),
        with_propagation-propagation st.rootfs_prop mounted h
            ∙ ap (λ p. or_else p (propagation_of spec)) (add_mounts-rootfs_prop (m ∷ ms) start),
      )
