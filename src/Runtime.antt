-- ===== src/Runtime.antt =====
-- crates/runtime/src/crun.rs: the state that crun reports of a container. crun itself, and the JSON
-- that it prints, belong to others. The other files of the crate are modelled in the children.
pub mod Seccomp
pub mod Bundle
pub mod Cgroup
use containerd_rs.Base.{Bytes, text, Option, ℤ, Bool, str_eq}

-- `struct RuntimeState`
pub record RuntimeState : Type 0 where
  pub status : Bytes
  pub pid : Option ℤ

-- `RuntimeState::is_running`
unfoldable pub is_running : RuntimeState → Bool
unfolding str_eq
is_running s = str_eq s.status (text "running")
