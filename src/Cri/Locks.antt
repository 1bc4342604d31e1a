-- ===== src/Cri/Locks.antt =====
-- crates/cri/src/locks.rs: the registry of locks by key, with its callers as the steps of one system.
-- The asynchronous mutex is tokio's: of it the model has that one guard at most is out at a time, and
-- that those who wait for it get it in the order in which they came.
pub mod Exclusion
use containerd_rs.Base.{
  ◌≡◌, ℕ, suc, List, [], ◌∷◌, ◌++◌, Bytes, Bool, true, not, ◌&&◌, Option, none, some, ◌==◌, lookup,
  insert, if◌then◌else◌,
}

-- A caller of `guard`, with the mutex that it got for its key.
pub record Ticket : Type 0 where
  pub key : Bytes
  pub mutex : ℕ

-- `struct KeyedLocks`, the number of mutexes made so far, and the callers: those that wait for their
-- mutex, the first first, and those that hold their guard.
pub record State : Type 0 where
  pub inner : List (Bytes × ℕ)
  pub made : ℕ
  pub waits : List Ticket
  pub holds : List Ticket

abbrev pub start : State
start = record { inner = []; made = 0; waits = []; holds = [] }

-- `map.entry(key).or_default().clone()`
abbrev pub waiting : Bytes → ℕ → State → State
waiting k m s = record s { waits = s.waits ++ record { key = k; mutex = m } ∷ [] }

abbrev pub with_entry : Bytes → Option ℕ → State → State
with_entry k (some m) s = waiting k m s
with_entry k none s =
    waiting k s.made (record s { inner = insert k s.made s.inner; made = suc s.made })

-- `KeyedLocks::guard` up to its wait.
unfoldable pub guard : Bytes → State → State
unfolding lookup insert
guard k s = with_entry k (lookup k s.inner) s

-- Whether no caller of these has or awaits a mutex.
unfoldable pub is_free : ℕ → List Ticket → Bool
is_free m [] = true
is_free m (t ∷ ts) = not (t.mutex == m) && is_free m ts

-- The steps of the callers, in any order: a call, a wait that ends in a guard, where no other
-- caller holds the mutex or has waited for it longer, a wait that is given up since its future is dropped, and a guard that is dropped.
pub data Step (s : State) : State → Type 0 where
  called : (k : Bytes) → Step s (guard k s)
  locked :
      (ts us : List Ticket) (t : Ticket)
      → s.waits ≡ ts ++ (t ∷ us)
      → is_free t.mutex s.holds ≡ true
      → is_free t.mutex ts ≡ true
      → Step s (record s { waits = ts ++ us; holds = t ∷ s.holds })
  given_up :
      (ts us : List Ticket) (t : Ticket)
      → s.waits ≡ ts ++ (t ∷ us)
      → Step s (record s { waits = ts ++ us })
  dropped :
      (ts us : List Ticket) (t : Ticket)
      → s.holds ≡ ts ++ (t ∷ us)
      → Step s (record s { holds = ts ++ us })

pub data Reach : State → Type 0 where
  at_start : Reach start
  next : {s t : State} → Reach s → Step s t → Reach t
