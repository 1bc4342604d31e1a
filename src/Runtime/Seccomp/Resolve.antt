-- ===== src/Runtime/Seccomp/Resolve.antt =====
-- crates/runtime/src/seccomp.rs: which blocks of the default profile are emitted.
use containerd_rs.Base.{
  ◌≡◌, refl, List, [], ◌∷◌, map, Bytes, Bool, true, false, not, ◌&&◌, ◌||◌, Option, none, some,
  if◌then◌else◌, is_nil, is_some, arith,
}
use containerd_rs.Runtime.Seccomp.{
  SyscallBlock, CapNames, cap_matches, arch_matches, any_is, is_kept, entry, kept_syscalls,
}

-- What a block asks of the host and of the capabilities: none of what it excludes, some of what it
-- includes where it includes anything, and no kernel version.
unfoldable pub applies : Option (Bytes × Bytes) → CapNames → SyscallBlock → Bool
applies host caps b =
    not (arch_matches host b.excludes.arches)
    && not (cap_matches caps b.excludes.caps)
    && (is_nil b.includes.arches || arch_matches host b.includes.arches)
    && (is_nil b.includes.caps || cap_matches caps b.includes.caps)
    && not (is_some b.excludes.min_kernel)

arch_matches_nil :
    (host : Option (Bytes × Bytes)) (l : List Bytes) → is_nil l ≡ true → arch_matches host l ≡ false
unfolding any_is
arch_matches_nil none l h = refl
arch_matches_nil (some (goarch, scmp)) [] h = refl
arch_matches_nil (some (goarch, scmp)) (x ∷ l) h = cc

cap_matches_nil : (caps : CapNames) (l : List Bytes) → is_nil l ≡ true → cap_matches caps l ≡ false
unfolding cap_matches
cap_matches_nil caps [] h = refl
cap_matches_nil caps (x ∷ l) h = cc

-- The five tests of the loop.
tests :
    (a n b m c k d l e : Bool)
    → (n ≡ true → a ≡ false)
    → (m ≡ true → b ≡ false)
    → (if not n && a
        then false
        else (if not m && b
            then false
            else (if not k && not c then false else (if not l && not d then false else not e))))
      ≡ (not a && not b && (k || c) && (l || d) && not e)
tests a n b m c k d l e h h' = ground (arith, h, h')

pub is_kept-applies :
    (host : Option (Bytes × Bytes)) (caps : CapNames) (b : SyscallBlock)
    → is_kept host caps b ≡ applies host caps b
unfolding is_kept applies
is_kept-applies host caps b =
    tests (arch_matches host b.excludes.arches) (is_nil b.excludes.arches)
      (cap_matches caps b.excludes.caps) (is_nil b.excludes.caps)
      (arch_matches host b.includes.arches) (is_nil b.includes.arches)
      (cap_matches caps b.includes.caps) (is_nil b.includes.caps) (is_some b.excludes.min_kernel)
      (arch_matches_nil host b.excludes.arches) (cap_matches_nil caps b.excludes.caps)

-- The blocks that apply, and the entries of the rest of a list behind them.
unfoldable pub chosen : Option (Bytes × Bytes) → CapNames → List SyscallBlock → List SyscallBlock
unfolding applies
chosen host caps [] = []
chosen host caps (b ∷ bs) =
    let rest = chosen host caps bs in if applies host caps b then b ∷ rest else rest

entry_if :
    (keep : Bool) (b : SyscallBlock) (bs : List SyscallBlock)
    → (if keep then entry b ∷ map entry bs else map entry bs)
      ≡ map entry (if keep then b ∷ bs else bs)
entry_if true b bs = refl
entry_if false b bs = refl

-- The emitted entries are those of the blocks that apply to the host and the capabilities, in the
-- profile's order.
pub kept_syscalls-chosen :
    (host : Option (Bytes × Bytes)) (caps : CapNames) (bs : List SyscallBlock)
    → kept_syscalls host caps bs ≡ map entry (chosen host caps bs)
unfolding kept_syscalls chosen
kept_syscalls-chosen host caps [] = refl
kept_syscalls-chosen host caps (b ∷ bs) =
    rw (is_kept-applies host caps b, kept_syscalls-chosen host caps bs)
      (entry_if (applies host caps b) b (chosen host caps bs))

cap_matches-grows :
    (caps caps' : CapNames) (l : List Bytes)
    → ((c : Bytes) → caps c ≡ true → caps' c ≡ true)
    → cap_matches caps l ≡ true
    → cap_matches caps' l ≡ true
unfolding cap_matches
cap_matches-grows caps caps' [] more h = h
cap_matches-grows caps caps' (x ∷ l) more h =
    ground (arith, more x, cap_matches-grows caps caps' l more)

-- More capabilities never take a block away that excludes none.
pub applies-grows :
    (host : Option (Bytes × Bytes)) (caps caps' : CapNames) (b : SyscallBlock)
    → ((c : Bytes) → caps c ≡ true → caps' c ≡ true)
    → b.excludes.caps ≡ []
    → applies host caps b ≡ true
    → applies host caps' b ≡ true
unfolding applies
applies-grows host caps caps' b more free h =
    let has = cap_matches-grows caps caps' b.includes.caps more in
    let free' = cap_matches_nil caps' b.excludes.caps (rw free refl) in ground (arith, has, free')
