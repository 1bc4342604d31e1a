-- ===== src/Images/Gc.antt =====
-- crates/images/src/gc.rs: reclaiming what a removed image referenced.
-- The state is the content store and the file tree of the snapshots; `unlink_ok` and `rmdir_ok` say
-- for which digests and directories the system's removal succeeds.
pub mod Blobs
pub mod Trees
use containerd_rs.Base.{
  is_some, ℕ, suc, ◌+◌, List, [], ◌∷◌, ◌++◌, Bytes, Bool, false, ◌&&◌, ◌||◌, Result, ok, err,
  if◌then◌else◌, str_eq,
}
use containerd_rs.CoreTypes.{Digest, from_str}
use containerd_rs.CoreTypes
use containerd_rs.Content.{Io, remove_blob}
use containerd_rs.Content
use containerd_rs.Snapshots.{snapshot_dirs}
use containerd_rs.Snapshots.Paths.{PathBuf, parent}
use containerd_rs.Snapshots.Files.{Names, Fs, resolve, without}
use containerd_rs.Snapshots.Diff.{names}
use containerd_rs.Metadata.Records.{ImageRecord}

-- `HashSet::contains`, of a set that is collected from a list.
unfoldable pub contains : List Bytes → Bytes → Bool
contains [] b = false
contains (c ∷ cs) b = str_eq c b || contains cs b

-- `referenced_blobs`
unfoldable pub referenced_blobs : ImageRecord → List Bytes
referenced_blobs r = r.image_id ∷ r.layer_digests

unfoldable pub live_blobs : List ImageRecord → List Bytes
unfolding referenced_blobs
live_blobs [] = []
live_blobs (r ∷ rs) = referenced_blobs r ++ live_blobs rs

unfoldable pub live_chains : List ImageRecord → List Bytes
live_chains [] = []
live_chains (r ∷ rs) = r.chain_ids ++ live_chains rs

-- `struct ReclaimReport`
pub record ReclaimReport : Type 0 where
  pub blobs_removed : ℕ
  pub snapshots_removed : ℕ

abbrev pub was_removed : Result Content.Error Bool → Bool
was_removed (ok b) = b
was_removed (err e) = false

module _ (io : Digest → Io) where
  -- The body of the first loop: the number of blobs removed, and the store.
  abbrev pub remove_counted : Result CoreTypes.Error Digest → ℕ × Content.Store → ℕ × Content.Store
  remove_counted (err e) (n, s) = (n, s)
  remove_counted (ok d) (n, s) =
      let (removed, s') = remove_blob (io d) s d in (if was_removed removed then suc n else n, s')

  unfoldable pub reclaim_blob : List Bytes → Bytes → ℕ × Content.Store → ℕ × Content.Store
  reclaim_blob live blob st = if contains live blob then st else remove_counted (from_str blob) st

  unfoldable pub reclaim_blobs : List Bytes → List Bytes → ℕ × Content.Store → ℕ × Content.Store
  unfolding reclaim_blob
  reclaim_blobs live [] st = st
  reclaim_blobs live (blob ∷ blobs) st = reclaim_blobs live blobs (reclaim_blob live blob st)

-- `snapshot_dirs(root, chain).0.parent()`
unfoldable pub snapshot_dir : PathBuf → Bytes → PathBuf
snapshot_dir root chain = parent ((snapshot_dirs root chain).0)

module _ (bound : ℕ) (rmdir_ok : Names → Bool) where
  -- `is_dir() && remove_dir_all(..).is_ok()`, and the tree behind it; a removal that fails is taken
  -- to leave the tree as it was.
  abbrev pub remove_dir : Names → ℕ × Fs → ℕ × Fs
  remove_dir dir (n, fs) =
      if is_some (resolve bound fs [] dir) && rmdir_ok dir then (suc n, without dir fs) else (n, fs)

  -- The body of the second loop.
  unfoldable pub reclaim_chain : PathBuf → List Bytes → Bytes → ℕ × Fs → ℕ × Fs
  unfolding snapshot_dir
  reclaim_chain root live chain st =
      if contains live chain then st else remove_dir (names (snapshot_dir root chain)) st

  unfoldable pub reclaim_chains : PathBuf → List Bytes → List Bytes → ℕ × Fs → ℕ × Fs
  unfolding reclaim_chain
  reclaim_chains root live [] st = st
  reclaim_chains root live (chain ∷ chains) st =
      reclaim_chains root live chains (reclaim_chain root live chain st)

-- `reclaim`
unfoldable pub reclaim :
    (Digest → Io)
    → ℕ
    → (Names → Bool)
    → PathBuf
    → ImageRecord
    → List ImageRecord
    → Content.Store × Fs
    → ReclaimReport × (Content.Store × Fs)
unfolding reclaim_blobs reclaim_chains live_blobs live_chains referenced_blobs
reclaim io bound rmdir_ok root removed live (s, fs) =
    let (blobs, s') = reclaim_blobs io (live_blobs live) (referenced_blobs removed) (0, s) in
    let (snapshots, fs') =
      reclaim_chains bound rmdir_ok root (live_chains live) removed.chain_ids (0, fs) in
    (record { blobs_removed = blobs; snapshots_removed = snapshots }, (s', fs'))
