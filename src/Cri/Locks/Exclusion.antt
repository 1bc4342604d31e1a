-- ===== src/Cri/Locks/Exclusion.antt =====
-- crates/cri/src/locks.rs: one guard for a key, and no waiting for the guards of other keys.
use containerd_rs.Base.{
  ◌≡◌, refl, sym, ◌∙◌, subst, ℕ, suc, ◌≤◌, ◌<◌, List, [], ◌∷◌, ◌++◌, Bytes, true, ◌==◌, Option,
  none, some, if◌then◌else◌, lookup, insert, lookup-insert, str_eq, str_eq_iff, All, arith,
  Bool-cases, inl, inr, ◌⊎◌, str_eq_refl,
}
use containerd_rs.Cri.Locks.{
  Ticket, State, start, with_entry, guard, is_free, Step, called, locked, given_up, dropped, Reach,
  at_start, next,
}

module _ {A : Type 0} (P : A → Type 0) where
  All-middle : (ts us : List A) (t : A) → All P (ts ++ (t ∷ us)) → P t × All P (ts ++ us)
  All-middle [] us t h = h
  All-middle (x ∷ ts) us t (p, h) = let (q, rest) = All-middle ts us t h in (q, (p, rest))

  All-front : (ts us : List A) → All P (ts ++ us) → All P ts
  All-front [] us h = tt
  All-front (x ∷ ts) us (p, h) = (p, All-front ts us h)

  All-append : (ts us : List A) → All P ts → All P us → All P (ts ++ us)
  All-append [] us h k = k
  All-append (x ∷ ts) us (p, h) k = (p, All-append ts us h k)

  All-map : (Q : A → Type 0) (ts : List A) → ((t : A) → P t → Q t) → All P ts → All Q ts
  All-map Q [] f h = tt
  All-map Q (t ∷ ts) f (p, h) = (f t p, All-map Q ts f h)

-- No two guards are for one mutex.
unfoldable pub Apart : List Ticket → Type 0
unfolding is_free
Apart [] = Unit
Apart (t ∷ ts) = (is_free t.mutex ts ≡ true) × Apart ts

is_free-middle :
    (m : ℕ) (ts us : List Ticket) (t : Ticket)
    → is_free m (ts ++ (t ∷ us)) ≡ true
    → is_free m (ts ++ us) ≡ true
unfolding is_free
is_free-middle m [] us t h = ground arith
is_free-middle m (x ∷ ts) us t h = ground (arith, is_free-middle m ts us t)

Apart-middle : (ts us : List Ticket) (t : Ticket) → Apart (ts ++ (t ∷ us)) → Apart (ts ++ us)
unfolding Apart
Apart-middle [] us t (p, h) = h
Apart-middle (x ∷ ts) us t (p, h) = (is_free-middle x.mutex ts us t p, Apart-middle ts us t h)

-- A ticket is for the mutex that the map holds under its key.
abbrev pub IsRegistered : List (Bytes × ℕ) → Ticket → Type 0
IsRegistered inner t = lookup t.key inner ≡ some t.mutex

-- Every ticket is registered, no key shares its mutex with another, and no guard with another.
pub record IsProper (s : State) : Type 0 where
  pub waits_registered : All (IsRegistered s.inner) s.waits
  pub holds_registered : All (IsRegistered s.inner) s.holds
  pub below : (k : Bytes) (m : ℕ) → lookup k s.inner ≡ some m → m < s.made
  pub own : (k j : Bytes) (m : ℕ) → lookup k s.inner ≡ some m → lookup j s.inner ≡ some m → k ≡ j
  pub apart : Apart s.holds

-- A new key keeps the tickets of the others registered.
IsRegistered-insert :
    (k : Bytes) (m : ℕ) (inner : List (Bytes × ℕ)) (t : Ticket)
    → lookup k inner ≡ none
    → IsRegistered inner t
    → IsRegistered (insert k m inner) t
IsRegistered-insert k m inner t absent h =
    ground (arith, lookup-insert k t.key m inner, str_eq_iff k t.key)

lookup-insert_cases :
    (k j : Bytes) (m n : ℕ) (inner : List (Bytes × ℕ))
    → lookup j (insert k m inner) ≡ some n
    → ((k ≡ j) × (n ≡ m)) ⊎ (lookup j inner ≡ some n)
lookup-insert_cases k j m n inner h = elim (Bool-cases (str_eq k j)) [
  | inl e ↦ inl ((str_eq_iff k j).0 e, ground (arith, lookup-insert k j m inner))
  | inr e ↦ inr (ground (arith, lookup-insert k j m inner))
]

-- The keys with a new one among them still have mutexes of their own.
own-insert :
    (k i j : Bytes) (n : ℕ) (s : State)
    → IsProper s
    → lookup i (insert k s.made s.inner) ≡ some n
    → lookup j (insert k s.made s.inner) ≡ some n
    → i ≡ j
own-insert k i j n s h e e' = elim (lookup-insert_cases k i s.made n s.inner e) [
  | inl (p, q) ↦ elim (lookup-insert_cases k j s.made n s.inner e') [
    | inl (p', q') ↦ sym p ∙ p'
    | inr old ↦ absurd (omega (arith, h.below j n old))
  ]
  | inr old ↦ elim (lookup-insert_cases k j s.made n s.inner e') [
    | inl (p', q') ↦ absurd (omega (arith, h.below i n old))
    | inr old' ↦ h.own i j n old old'
  ]
]

below-insert :
    (k j : Bytes) (n : ℕ) (s : State)
    → IsProper s
    → lookup j (insert k s.made s.inner) ≡ some n
    → n < suc s.made
below-insert k j n s h e = elim (lookup-insert_cases k j s.made n s.inner e) [
  | inl (p, q) ↦ omega arith
  | inr old ↦ omega (arith, h.below j n old)
]

with_entry-IsProper :
    (k : Bytes) (s : State) (o : Option ℕ)
    → lookup k s.inner ≡ o
    → IsProper s
    → IsProper (with_entry k o s)
with_entry-IsProper k s (some m) here h = record {
  waits_registered = All-append (IsRegistered s.inner) s.waits _ h.waits_registered (here, tt);
  holds_registered = h.holds_registered;
  below = h.below;
  own = h.own;
  apart = h.apart;
}
with_entry-IsProper k s none here h = record {
  waits_registered =
      All-append (IsRegistered (insert k s.made s.inner)) s.waits _
        (All-map (IsRegistered s.inner) _ s.waits (λ t. IsRegistered-insert k s.made s.inner t here)
          h.waits_registered)
        (rw (lookup-insert k k s.made s.inner, str_eq_refl k) refl, tt);
  holds_registered =
      All-map (IsRegistered s.inner) _ s.holds (λ t. IsRegistered-insert k s.made s.inner t here)
        h.holds_registered;
  below = λ j m e. below-insert k j m s h e;
  own = λ i j m e e'. own-insert k i j m s h e e';
  apart = h.apart;
}

Step-IsProper : {s t : State} → Step s t → IsProper s → IsProper t
unfolding guard Apart
Step-IsProper (called k) h = with_entry-IsProper k _ _ refl h
Step-IsProper {s} (locked ts us t there free first) h =
    let (mine, rest) =
      All-middle (IsRegistered s.inner) ts us t
        (subst (All (IsRegistered s.inner)) there h.waits_registered) in
    record {
      waits_registered = rest;
      holds_registered = (mine, h.holds_registered);
      below = h.below;
      own = h.own;
      apart = (free, h.apart);
    }
Step-IsProper {s} (given_up ts us t there) h = record {
  waits_registered =
      (All-middle (IsRegistered s.inner) ts us t
        (subst (All (IsRegistered s.inner)) there h.waits_registered)).1;
  holds_registered = h.holds_registered;
  below = h.below;
  own = h.own;
  apart = h.apart;
}
Step-IsProper {s} (dropped ts us t there) h = record {
  waits_registered = h.waits_registered;
  holds_registered =
      (All-middle (IsRegistered s.inner) ts us t
        (subst (All (IsRegistered s.inner)) there h.holds_registered)).1;
  below = h.below;
  own = h.own;
  apart = Apart-middle ts us t (subst Apart there h.apart);
}

start-IsProper : IsProper start
unfolding Apart lookup
start-IsProper = record {
  waits_registered = tt;
  holds_registered = tt;
  below = λ k m e. cc;
  own = λ k j m e e'. cc;
  apart = tt;
}

Reach-IsProper : {s : State} → Reach s → IsProper s
Reach-IsProper at_start = start-IsProper
Reach-IsProper (next r st) = Step-IsProper st (Reach-IsProper r)

-- The guards that are out for a key.
unfoldable pub guards : Bytes → List Ticket → ℕ
guards k [] = 0
guards k (t ∷ ts) = let rest = guards k ts in if str_eq t.key k then suc rest else rest

-- Guards of a key with a free mutex: none.
guards-is_free :
    (inner : List (Bytes × ℕ)) (k : Bytes) (m : ℕ) (ts : List Ticket)
    → lookup k inner ≡ some m
    → All (IsRegistered inner) ts
    → is_free m ts ≡ true
    → guards k ts ≡ 0
unfolding guards is_free
guards-is_free inner k m [] here h free = refl
guards-is_free inner k m (t ∷ ts) here (p, h) free = elim (Bool-cases (str_eq t.key k)) [
  | inl e ↦
      let same : lookup k inner ≡ some t.mutex =
        subst (λ j. lookup j inner ≡ some t.mutex) ((str_eq_iff t.key k).0 e) p in
      ground arith
  | inr e ↦ ground (arith, guards-is_free inner k m ts here h)
]

guards_le :
    (inner : List (Bytes × ℕ)) (k : Bytes) (ts : List Ticket)
    → All (IsRegistered inner) ts
    → Apart ts
    → guards k ts ≤ 1
unfolding guards Apart
guards_le inner k [] h a = omega arith
guards_le inner k (t ∷ ts) (p, h) (free, a) = elim (Bool-cases (str_eq t.key k)) [
  | inl e ↦
      let others : guards k ts ≡ 0 =
        subst (λ j. guards j ts ≡ 0) ((str_eq_iff t.key k).0 e)
          (guards-is_free inner t.key t.mutex ts p h free) in
      ground arith
  | inr e ↦ ground (arith, guards_le inner k ts h a)
]

is_free-guards :
    (s : State) (k : Bytes) (m : ℕ) (ts : List Ticket)
    → IsProper s
    → lookup k s.inner ≡ some m
    → All (IsRegistered s.inner) ts
    → guards k ts ≡ 0
    → is_free m ts ≡ true
unfolding guards is_free
is_free-guards s k m [] h here r none_out = refl
is_free-guards s k m (t ∷ ts) h here (p, r) none_out = elim (Bool-cases (t.mutex == m)) [
  | inl e ↦
      let at_m : lookup t.key s.inner ≡ some m =
        subst (λ n. lookup t.key s.inner ≡ some n) (ground arith) p in
      let same : str_eq t.key k ≡ true = (str_eq_iff t.key k).1 (h.own t.key k m at_m here) in
      ground arith
  | inr e ↦ ground (arith, is_free-guards s k m ts h here r)
]

-- Whatever the callers do, in any order, one guard at most is out for a key.
pub Reach-exclusive : (s : State) (k : Bytes) → Reach s → guards k s.holds ≤ 1
Reach-exclusive s k r =
    let h = Reach-IsProper r in guards_le s.inner k s.holds h.holds_registered h.apart

-- A caller never waits for the callers of other keys: where no guard is out for its key, and no one
-- has waited for that key longer, it can get its own in the next step.
pub Reach-grants :
    (s : State) (ts us : List Ticket) (t : Ticket)
    → Reach s
    → s.waits ≡ ts ++ (t ∷ us)
    → guards t.key s.holds ≡ 0
    → guards t.key ts ≡ 0
    → Step s (record s { waits = ts ++ us; holds = t ∷ s.holds })
Reach-grants s ts us t r there none_out none_before =
    let h = Reach-IsProper r in
    let registered = subst (All (IsRegistered s.inner)) there h.waits_registered in
    let (mine, rest) = All-middle (IsRegistered s.inner) ts us t registered in
    locked ts us t there (is_free-guards s t.key t.mutex s.holds h mine h.holds_registered none_out)
      (is_free-guards s t.key t.mutex ts h mine
        (All-front (IsRegistered s.inner) ts (t ∷ us) registered) none_before)
