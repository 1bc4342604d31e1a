-- ===== src/Metadata/Records/Lifecycle.antt =====
-- crates/metadata/src/records.rs: the legal lives of a container.
use containerd_rs.Base.{◌≡◌, ◌≢◌, refl, true}
use containerd_rs.Metadata.Records.{
  ContainerState, created, running, exited, unknown, can_transition_to,
}

-- A sequence of legal transitions.
pub data Life : ContainerState → ContainerState → Type 0 where
  stay : {s : ContainerState} → Life s s
  go : {s t u : ContainerState} → can_transition_to s t ≡ true → Life t u → Life s u

no_return : (s t : ContainerState) → s ≢ created → can_transition_to s t ≡ true → t ≢ created
unfolding can_transition_to
no_return created t ne h e = ne refl
no_return running created ne h e = cc
no_return exited created ne h e = cc
no_return unknown created ne h e = cc
no_return running running ne h e = cc
no_return running exited ne h e = cc
no_return running unknown ne h e = cc
no_return exited running ne h e = cc
no_return exited exited ne h e = cc
no_return exited unknown ne h e = cc
no_return unknown running ne h e = cc
no_return unknown exited ne h e = cc
no_return unknown unknown ne h e = cc

-- A container that has left `Created` never comes back to it by legal transitions.
pub Life-created : {s t : ContainerState} → Life s t → s ≢ created → t ≢ created
Life-created stay ne = ne
Life-created (go {s = s} {t = t} h life) ne = Life-created life (no_return s t ne h)
