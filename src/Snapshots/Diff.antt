-- ===== src/Snapshots/Diff.antt =====
-- crates/snapshots/src/diff.rs: compression detection, whiteouts and `apply_layer`.
-- The tar crate's `Entry::unpack_in` is the parameter `unpack_in`.
pub mod Whiteouts
pub mod Removal
use containerd_rs.Base.{
  is_some, ℕ, ◌+◌, List, [], ◌∷◌, ◌++◌, Bytes, text, Bool, true, false, ◌&&◌, Option, none, some,
  Result, ok, err, if◌then◌else◌, str_eq, strip_prefix,
}
use mathlib.Core.List.{reverse}
use containerd_rs.Snapshots.Paths.{
  PathBuf, root_dir, cur_dir, parent_dir, normal, components, join, file_name, parent,
}
use containerd_rs.Snapshots.Files.{Names, Fs, is_prefix, resolve, without}

-- `enum Compression`; `Compression::None` is `uncompressed`.
pub data Compression : Type 0 where
  uncompressed gzip zstd : Compression

-- `s.ends_with(p)`
unfoldable pub ends_with : Bytes → Bytes → Bool
ends_with s p = is_some (strip_prefix (reverse p) (reverse s))

-- `Compression::from_media_type`
unfoldable pub from_media_type : Bytes → Compression
unfolding ends_with strip_prefix
from_media_type media_type =
    if ends_with media_type (text "gzip")
    then gzip
    else if ends_with media_type (text "zstd")
    then zstd
    else uncompressed

-- `Compression::detect`
unfoldable pub detect : Bytes → Compression
unfolding strip_prefix
detect bytes =
    if is_some (strip_prefix (0x1f ∷ 0x8b ∷ []) bytes)
    then gzip
    else if is_some (strip_prefix (0x28 ∷ 0xb5 ∷ 0x2f ∷ 0xfd ∷ []) bytes)
    then zstd
    else uncompressed

-- `enum Whiteout`; `Whiteout::None` is `not_whiteout`.
pub data Whiteout : Type 0 where
  not_whiteout : Whiteout
  remove opaque : PathBuf → Whiteout

abbrev pub whiteout_prefix : Bytes
whiteout_prefix = text ".wh."

abbrev pub opaque_marker : Bytes
opaque_marker = text ".wh..wh..opq"

unfoldable pub classify_name : PathBuf → Bytes → Whiteout
unfolding str_eq strip_prefix
classify_name up n =
    if str_eq n opaque_marker then opaque up else elim (strip_prefix whiteout_prefix n) [
      | some stripped ↦ remove (join up (components stripped))
      | none ↦ not_whiteout
    ]

-- `safe_join`
unfoldable pub is_inside : PathBuf → Bool
is_inside [] = true
is_inside (normal n ∷ p) = is_inside p
is_inside (cur_dir ∷ p) = is_inside p
is_inside (c ∷ p) = false

unfoldable pub safe_join : PathBuf → PathBuf → Option PathBuf
unfolding is_inside
safe_join target rel = if is_inside rel then some (join target rel) else none

abbrev pub drop_last : Names → Names
drop_last [] = []
drop_last (n ∷ []) = []
drop_last (n ∷ m ∷ p) = n ∷ drop_last (m ∷ p)

-- Where a path leads from a directory: `..` goes up, and stays at the root.
abbrev pub walk : Names → PathBuf → Names
walk at [] = at
walk at (normal n ∷ p) = walk (at ++ n ∷ []) p
walk at (parent_dir ∷ p) = walk (drop_last at) p
walk at (cur_dir ∷ p) = walk at p
walk at (root_dir ∷ p) = walk [] p

-- The names of an absolute path, as the kernel reads them where no link stands in front of a `..`.
abbrev pub names : PathBuf → Names
names p = walk [] p

-- A path's directory part and its last name.
abbrev pub split_last : Names → Option (Names × Bytes)
split_last [] = none
split_last (n ∷ []) = some ([], n)
split_last (n ∷ m ∷ ns) = elim (split_last (m ∷ ns)) [
  | none ↦ none
  | some (up, last) ↦ some (n ∷ up, last)
]

-- `q` is shorter than `p`.
abbrev pub is_longer : Names → Names → Bool
is_longer [] [] = false
is_longer [] (m ∷ p) = true
is_longer (n ∷ q) [] = false
is_longer (n ∷ q) (m ∷ p) = is_longer q p

-- The tree without what is below `q`; `q` itself stays.
unfoldable pub without_children : Names → Fs → Fs
unfolding is_prefix
without_children q fs = λ p. if is_prefix q p && is_longer q p then none else fs p

-- What stands under a name of a resolved directory, and the children of one.
abbrev pub remove_at : Option Names → Bytes → Fs → Fs
remove_at none last fs = fs
remove_at (some at) last fs = without (at ++ last ∷ []) fs

abbrev pub clear_at : Option Names → Fs → Fs
clear_at none fs = fs
clear_at (some at) fs = without_children at fs

-- `remove_path`: the directory part is resolved; what stands under the last name is removed with
-- all below it, and a link itself rather than what it leads to. Errors are ignored.
module _ (bound : ℕ) where
  abbrev pub remove_split : Option (Names × Bytes) → Fs → Fs
  remove_split none fs = fs
  remove_split (some (up, last)) fs = remove_at (resolve bound fs [] up) last fs

  unfoldable pub remove_path : Names → Fs → Fs
  remove_path p fs = remove_split (split_last p) fs

  -- The `Whiteout::Remove` branch of `apply_layer`.
  abbrev pub remove_victim : Option PathBuf → Fs → Fs
  remove_victim none fs = fs
  remove_victim (some victim) fs = remove_path (names victim) fs

  -- The `Whiteout::Opaque` branch: `is_dir` follows links, and `read_dir` lists what is there.
  abbrev pub clear_dir : Option PathBuf → Fs → Fs
  clear_dir none fs = fs
  clear_dir (some d) fs = clear_at (resolve bound fs [] (names d)) fs

  module _ {Entry IoError : Type 0} (is_utf8 : Bytes → Bool) (path : Entry → Result IoError PathBuf)
      (unpack_in : PathBuf → Entry → Fs → Fs × Result IoError Unit) where
    -- `classify`; a name that is not UTF-8 has no `to_str`.
    abbrev pub classify_file : PathBuf → Option Bytes → Whiteout
    classify_file up none = not_whiteout
    classify_file up (some n) = if is_utf8 n then classify_name up n else not_whiteout

    unfoldable pub classify : PathBuf → Whiteout
    classify p = classify_file (parent p) (file_name p)

    abbrev pub apply_whiteout : PathBuf → Entry → Whiteout → Fs → Fs × Result IoError Unit
    apply_whiteout target entry not_whiteout fs = unpack_in target entry fs
    apply_whiteout target entry (remove rel) fs = (remove_victim (safe_join target rel) fs, ok tt)
    apply_whiteout target entry (opaque rel) fs = (clear_dir (safe_join target rel) fs, ok tt)

    -- The body of the loop of `apply_layer`.
    abbrev pub apply_path : PathBuf → Entry → Result IoError PathBuf → Fs → Fs × Result IoError Unit
    apply_path target entry (err e) fs = (fs, err e)
    apply_path target entry (ok p) fs = apply_whiteout target entry (classify p) fs

    unfoldable pub apply_entry : PathBuf → Result IoError Entry → Fs → Fs × Result IoError Unit
    apply_entry target (err e) fs = (fs, err e)
    apply_entry target (ok entry) fs = apply_path target entry (path entry) fs

    -- `apply_layer`, on the entries of the archive; an error stops it and keeps what was done.
    unfoldable pub apply_layer :
        PathBuf → List (Result IoError Entry) → Fs → Fs × Result IoError Unit
    apply_layer target [] fs = (fs, ok tt)
    apply_layer target (entry ∷ entries) fs =
        let (fs', outcome) = apply_entry target entry fs in
        elim outcome [ err e ↦ (fs', err e) | ok done ↦ apply_layer target entries fs' ]
