-- ===== src/Cri/Sandboxes/Users.antt =====
-- crates/cri/src/server.rs: the user namespaces that a sandbox is run with.
use containerd_rs.Base.{
  ◌≡◌, refl, ap, sym, ◌∙◌, ℕ, List, [], ◌∷◌, Bool, true, false, ◌||◌, Option, none, some, Result,
  ok, err, ◌>>=◌, ok-injective, err_ne_ok, if◌then◌else◌, ◌==◌, is_num, ==_iff,
}
use containerd_rs.Cri.Service.{Status}
use containerd_rs.Cri.Sandboxes.Request.{
  IdMapping, UserNamespace, Mappings, validate_userns_map, userns_of,
}

-- One mapping, which starts at the container's id 0.
abbrev pub IsRootMap : Mappings → Type 0
IsRootMap m = (host : ℕ) × (length : ℕ) × (m ≡ (0, host, length) ∷ [])

-- A pod with a user namespace maps its users and its groups from 0 on, and one without maps nothing.
abbrev pub IsMapped : Bool → Mappings → Mappings → Type 0
IsMapped true uids gids = IsRootMap uids × IsRootMap gids
IsMapped false uids gids = (uids ≡ []) × (gids ≡ [])

validate-IsRootMap :
    (ms : List IdMapping) (m : Mappings) → validate_userns_map ms ≡ ok m → IsRootMap m
unfolding validate_userns_map
validate-IsRootMap [] m h = absurd (err_ne_ok h)
validate-IsRootMap (x ∷ y ∷ ms) m h = absurd (err_ne_ok h)
validate-IsRootMap (x ∷ []) m h = started (x.container_id == 0) _ refl h
  where
    started :
        (b : Bool) (e : Status)
        → (x.container_id == 0) ≡ b
        → (if b then ok ((x.container_id, x.host_id, x.length) ∷ []) else err e) ≡ ok m
        → IsRootMap m
    started false f e h = absurd (err_ne_ok h)
    started true f e h = (
      x.host_id,
      x.length,
      sym (ok-injective h)
          ∙ ap (λ i. (i, x.host_id, x.length) ∷ []) ((==_iff x.container_id 0).0 e),
    )

abbrev pub OfMapped : Result Status (Bool × Mappings × Mappings) → Type 0
OfMapped (err e) = Unit
OfMapped (ok (b, uids, gids)) = IsMapped b uids gids

both :
    (us gs : List IdMapping)
    → OfMapped (
        validate_userns_map us
        >>= (λ uids. validate_userns_map gs >>= λ gids. ok (true, uids, gids)))
both us gs =
    bound (validate_userns_map us) (validate_userns_map gs) (validate-IsRootMap us)
      (validate-IsRootMap gs)
  where
    bound :
        (p q : Result Status Mappings)
        → ((m : Mappings) → p ≡ ok m → IsRootMap m)
        → ((m : Mappings) → q ≡ ok m → IsRootMap m)
        → OfMapped (p >>= (λ uids. q >>= λ gids. ok (true, uids, gids)))
    bound (err e) q h k = tt
    bound (ok uids) (err e) h k = tt
    bound (ok uids) (ok gids) h k = (h uids refl, k gids refl)

-- What `userns_of` accepts.
pub userns_of-OfMapped : (o : Option UserNamespace) → OfMapped (userns_of o)
unfolding userns_of
userns_of-OfMapped none = (refl, refl)
userns_of-OfMapped (some u) =
    chosen (is_num 0 u.mode) (is_num 1 u.mode || is_num 3 u.mode) _ _ (both u.uids u.gids)
  where
    chosen :
        (b c : Bool) (q : Result Status (Bool × Mappings × Mappings)) (e : Status)
        → OfMapped q
        → OfMapped (if b then q else if c then err e else ok (false, [], []))
    chosen true c q e h = h
    chosen false true q e h = tt
    chosen false false q e h = (refl, refl)
