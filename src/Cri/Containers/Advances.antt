-- ===== src/Cri/Containers/Advances.antt =====
-- crates/cri/src/server.rs: how the state of a container may go on between two reads of its record.
use containerd_rs.Base.{◌≡◌, refl, subst, ◌⊎◌, inl, inr, true, Option, none, some, Result, ok, err}
use containerd_rs.Metadata.Records.{
  ContainerState, created, running, exited, unknown, can_transition_to, ContainerRecord,
}
use containerd_rs.Metadata.Store.{Error}

-- How a state may go on.
pub data Advances : ContainerState → ContainerState → Type 0 where
  stays : {s : ContainerState} → Advances s s
  starts : Advances created running
  exits : {s : ContainerState} → Advances s exited

Advances-trans : {s t u : ContainerState} → Advances s t → Advances t u → Advances s u
Advances-trans stays k = k
Advances-trans h stays = h
Advances-trans h exits = exits

-- Such a step is one of those that `can_transition_to` documents.
pub Advances-can_transition_to :
    {s t : ContainerState} → Advances s t → can_transition_to s t ≡ true
unfolding can_transition_to
Advances-can_transition_to (stays {s = created}) = refl
Advances-can_transition_to (stays {s = running}) = refl
Advances-can_transition_to (stays {s = exited}) = refl
Advances-can_transition_to (stays {s = unknown}) = refl
Advances-can_transition_to starts = refl
Advances-can_transition_to (exits {s = created}) = refl
Advances-can_transition_to (exits {s = running}) = refl
Advances-can_transition_to (exits {s = exited}) = refl
Advances-can_transition_to (exits {s = unknown}) = refl

-- What a later read finds, by what an earlier one did: a record goes on, or it is gone for good.
abbrev pub Follows :
    Result Error (Option ContainerRecord) → Result Error (Option ContainerRecord) → Type 0
Follows (err e) later = (later ≡ err e) ⊎ (later ≡ ok none)
Follows (ok none) later = later ≡ ok none
Follows (ok (some r)) later =
    (later ≡ ok none)
    ⊎ ((r' : ContainerRecord) × (later ≡ ok (some r')) × Advances r.state r'.state)

pub Follows-refl : (x : Result Error (Option ContainerRecord)) → Follows x x
Follows-refl (err e) = inl refl
Follows-refl (ok none) = refl
Follows-refl (ok (some r)) = inr (r, refl, stays)

pub Follows-none : (x : Result Error (Option ContainerRecord)) → Follows x (ok none)
Follows-none (err e) = inr refl
Follows-none (ok none) = refl
Follows-none (ok (some r)) = inl refl

-- What follows what is followed.
advanced :
    (r r' : ContainerRecord) (z : Result Error (Option ContainerRecord))
    → Advances r.state r'.state
    → Follows (ok (some r')) z
    → Follows (ok (some r)) z
advanced r r' z a (inl h) = inl h
advanced r r' z a (inr (r'', h, b)) = inr (r'', h, Advances-trans a b)

pub Follows-trans :
    (x y z : Result Error (Option ContainerRecord)) → Follows x y → Follows y z → Follows x z
Follows-trans (err e) y z (inl h) k = subst (λ q. Follows q z) h k
Follows-trans (err e) y z (inr h) k = inr (subst (λ q. Follows q z) h k)
Follows-trans (ok none) y z h k = subst (λ q. Follows q z) h k
Follows-trans (ok (some r)) y z (inl h) k = inl (subst (λ q. Follows q z) h k)
Follows-trans (ok (some r)) y z (inr (r', h, a)) k =
    advanced r r' z a (subst (λ q. Follows q z) h k)
