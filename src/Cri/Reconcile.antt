-- ===== src/Cri/Reconcile.antt =====
-- crates/cri/src/server.rs: `reconcile`, the recovery after a restart of the daemon.
-- What it uses of other programs and libraries is the interface `Env`.
pub mod Survivors
pub mod Report
pub mod Records
use containerd_rs.Base.{
  or_else, ℕ, suc, List, [], ◌∷◌, Bytes, text, length, Bool, true, false, not, Option, none, some,
  Result, ok, err, if◌then◌else◌, ◌≡◌, ◌≢◌, ℤ, negsuc,
}
use containerd_rs.Metadata.Records.{
  ContainerState, running, exited, unknown, SandboxRecord, ContainerRecord,
}
use containerd_rs.Metadata.Store.{Store, Error, container, sandbox, put, list}
use containerd_rs.Runtime.{RuntimeState, is_running}

-- `struct ReconcileReport`
pub record ReconcileReport : Type 0 where
  pub sandboxes : ℕ
  pub containers : ℕ
  pub readopted : ℕ
  pub reaped : ℕ
  pub marked_unknown : ℕ

-- The branches of the `match` on the probe.
pub data Verdict : Type 0 where
  readopt : RuntimeState → Verdict
  reap mark_unknown : Verdict

abbrev pub is_running_state : ContainerState → Bool
is_running_state running = true
is_running_state s = false

-- The exit code and the reason of a container that is reaped.
abbrev pub exit_of : Option ℤ → Option Bytes → Option ℤ × Option Bytes
exit_of none reason = (some (negsuc 0), some (text "Unknown"))
exit_of (some code) reason = (some code, reason)

-- What each branch makes of the record.
unfoldable pub updated : Bytes → ℕ → Verdict → ContainerRecord → ContainerRecord
updated root now (readopt st) c = record c { crun_root = some root; pid = or_else st.pid c.pid }
updated root now reap c = record c {
  state = exited;
  finished_at = or_else c.finished_at (some now);
  exit_code = (exit_of c.exit_code c.reason).0;
  reason = (exit_of c.exit_code c.reason).1;
}
updated root now mark_unknown c = record c { state = unknown }

abbrev pub counted : Verdict → ReconcileReport → ReconcileReport
counted (readopt st) r = record r { readopted = suc r.readopted }
counted reap r = record r { reaped = suc r.reaped }
counted mark_unknown r = record r { marked_unknown = suc r.marked_unknown }

-- What a pass uses of the others: crun, whose deletion of one container spares the others, the JSON
-- of the records, the clock and the database's writes by container id, and the daemon's settings.
pub record Env : Type 1 where
  pub Crun : Type 0
  pub IoError : Type 0
  pub probe : Crun → Bytes → Result IoError (Option RuntimeState)
  pub delete : Crun → Bytes → Crun
  pub probe-delete : (w : Crun) (i j : Bytes) → i ≢ j → probe (delete w i) j ≡ probe w j
  pub to_vec : ContainerRecord → Result Error Bytes
  pub from_slice : Bytes → Result Error ContainerRecord
  pub sandbox_to_vec : SandboxRecord → Result Error Bytes
  pub sandbox_from_slice : Bytes → Result Error SandboxRecord
  pub namespace : Bytes
  pub root : Bytes
  pub now : Bytes → ℕ
  pub db_ok : Bytes → Bool

module _ (env : Env) where
  open env use {
    Crun, IoError, probe, delete, to_vec, from_slice, sandbox_to_vec, sandbox_from_slice, namespace,
    root, now, db_ok,
  }

  unfoldable pub judge : Result IoError (Option RuntimeState) → Verdict
  judge (ok (some st)) = if is_running st then readopt st else reap
  judge (ok none) = mark_unknown
  judge (err e) = mark_unknown

  -- The containers that are not re-adopted are deleted first.
  abbrev pub deleted : Verdict → Bytes → Crun → Crun
  deleted (readopt st) id w = w
  deleted reap id w = delete w id
  deleted mark_unknown id w = delete w id

  -- What a pass works on: the store, crun and the report.
  pub record State : Type 0 where
    pub store : Store
    pub crun : Crun
    pub report : ReconcileReport

  abbrev pub recorded : Verdict → State → Result Error Unit × Store → Result Error Unit × State
  recorded v s (err e, store) = (err e, record s { store = store })
  recorded v s (ok done, store) = (ok tt, record s { store = store; report = counted v s.report })

  unfoldable pub settle : ContainerRecord → Verdict → State → Result Error Unit × State
  unfolding updated
  settle c v s =
      recorded v (record s { crun = deleted v c.id s.crun })
        (put to_vec from_slice (db_ok c.id) container namespace c.id (updated root (now c.id) v c)
          s.store)

  -- The body of the loop.
  unfoldable pub reconcile_container : ContainerRecord → State → Result Error Unit × State
  unfolding settle judge
  reconcile_container c s =
      if not (is_running_state c.state) then (ok tt, s) else settle c (judge (probe s.crun c.id)) s

  -- The loop; an error of the database ends it.
  abbrev pub and_then :
      Result Error Unit × State → (State → Result Error Unit × State) → Result Error Unit × State
  and_then (err e, s) more = (err e, s)
  and_then (ok done, s) more = more s

  unfoldable pub reconcile_all : List ContainerRecord → State → Result Error Unit × State
  unfolding reconcile_container
  reconcile_all [] s = (ok tt, s)
  reconcile_all (c ∷ cs) s = and_then (reconcile_container c s) (reconcile_all cs)

  abbrev pub start : ℕ → ℕ → Store → Crun → State
  start sandboxes containers store crun = record {
    store = store;
    crun = crun;
    report = record {
      sandboxes = sandboxes;
      containers = containers;
      readopted = 0;
      reaped = 0;
      marked_unknown = 0;
    };
  }

  abbrev pub reported : Result Error Unit × State → Result Error ReconcileReport × State
  reported (err e, s) = (err e, s)
  reported (ok done, s) = (ok s.report, s)

  abbrev pub reconcile_listed :
      Result Error (List SandboxRecord)
      → Result Error (List ContainerRecord)
      → Store
      → Crun
      → Result Error ReconcileReport × State
  reconcile_listed (err e) listed store crun = (err e, start 0 0 store crun)
  reconcile_listed (ok sandboxes) (err e) store crun =
      (err e, start (length sandboxes) 0 store crun)
  reconcile_listed (ok sandboxes) (ok containers) store crun =
      reported (reconcile_all containers (start (length sandboxes) (length containers) store crun))

  -- `reconcile`; `read_ok` says whether the database can be read.
  unfoldable pub reconcile : Bool → Store → Crun → Result Error ReconcileReport × State
  unfolding reconcile_all
  reconcile read_ok store crun =
      reconcile_listed (list sandbox_to_vec sandbox_from_slice read_ok sandbox namespace store)
        (list to_vec from_slice read_ok container namespace store) store crun
