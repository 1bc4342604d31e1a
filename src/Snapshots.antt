-- ===== src/Snapshots.antt =====
-- crates/snapshots: the overlay mounts of src/lib.rs and the layer application of src/diff.rs.
pub mod Paths
pub mod Files
pub mod Diff
use containerd_rs.Base.{is_nil, List, [], ◌∷◌, ◌++◌, Bytes, text, if◌then◌else◌}
use containerd_rs.CoreTypes.{Mount}
use containerd_rs.Snapshots.Paths.{PathBuf, normal, join, components}

-- `[..].join(":")`
unfoldable pub join_colon : List Bytes → Bytes
join_colon [] = []
join_colon (p ∷ []) = p
join_colon (p ∷ q ∷ ps) = p ++ (b':' ∷ join_colon (q ∷ ps))

-- `overlay_mount`, on the displayed paths.
unfoldable pub overlay_mount : List Bytes → Bytes → Bytes → Mount
unfolding join_colon
overlay_mount parents_fs upper work =
    let lower = join_colon parents_fs in
    let dirs = (text "upperdir=" ++ upper) ∷ (text "workdir=" ++ work) ∷ [] in
    record {
      mount_type = text "overlay";
      source = text "overlay";
      options = if is_nil lower then dirs else (text "lowerdir=" ++ lower) ∷ dirs;
    }

-- `bind_mount`
unfoldable pub bind_mount : Bytes → Mount
bind_mount parent_fs = record {
  mount_type = text "bind";
  source = parent_fs;
  options = text "rbind" ∷ text "ro" ∷ [];
}

-- `snapshot_dirs`: the `fs` and the `work` directory of a snapshot.
unfoldable pub snapshot_dirs : PathBuf → Bytes → PathBuf × PathBuf
snapshot_dirs root id =
    let base = join (join root (normal (text "snapshots") ∷ [])) (components id) in
    (join base (normal (text "fs") ∷ []), join base (normal (text "work") ∷ []))
