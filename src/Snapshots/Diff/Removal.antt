-- ===== src/Snapshots/Diff/Removal.antt =====
-- crates/snapshots/src/diff.rs: what an entry `<dir>/.wh.<name>` removes.
use containerd_rs.Base.{
  ℕ, [], ◌∷◌, ◌++◌, Bytes, text, Bool, true, false, some, ◌≡◌, refl, ap, sym, Result, ok, str_eq,
  strip_prefix, append_assoc, ◌∙◌,
}
use containerd_rs.Snapshots.Paths.{
  PathBuf, root_dir, cur_dir, parent_dir, normal, join, file_name, parent, components,
}
use containerd_rs.Snapshots.Files.{Names, Fs, resolve, without}
use containerd_rs.Snapshots.Diff.{
  remove, classify_name, names, is_inside, safe_join, remove_path, apply_entry, classify,
}
use containerd_rs.Snapshots.Diff.Whiteouts.{split_last-append, names-join, names-normal}

file_name-append : (up : PathBuf) (n : Bytes) → file_name (up ++ normal n ∷ []) ≡ some n
unfolding file_name
file_name-append [] n = refl
file_name-append (c ∷ []) n = refl
file_name-append (c ∷ d ∷ up) n = file_name-append (d ∷ up) n

pub parent-append : (up : PathBuf) (n : Bytes) → parent (up ++ normal n ∷ []) ≡ up
unfolding parent
parent-append [] n = refl
parent-append (c ∷ []) n = refl
parent-append (c ∷ d ∷ up) n = ap (λ r. c ∷ r) (parent-append (d ∷ up) n)

is_inside-append :
    (up : PathBuf) (n : Bytes) → is_inside up ≡ true → is_inside (up ++ normal n ∷ []) ≡ true
unfolding is_inside
is_inside-append [] n k = refl
is_inside-append (normal m ∷ up) n k = is_inside-append up n k
is_inside-append (cur_dir ∷ up) n k = is_inside-append up n k
is_inside-append (root_dir ∷ up) n k = k
is_inside-append (parent_dir ∷ up) n k = k

classify_name_lem :
    (up : PathBuf) (n : Bytes)
    → components n ≡ normal n ∷ []
    → str_eq n (text ".wh..opq") ≡ false
    → classify_name up (text ".wh." ++ n) ≡ remove (join up (normal n ∷ []))
unfolding classify_name str_eq strip_prefix
classify_name_lem up n e ne = rw (ne, e) refl

join_dir :
    (up : PathBuf) (n : Bytes) → is_inside up ≡ true → join up (normal n ∷ []) ≡ up ++ normal n ∷ []
unfolding join is_inside
join_dir [] n k = refl
join_dir (c ∷ up) n k = refl

remove_split_lem :
    (bound : ℕ) (up at : Names) (last : Bytes) (fs : Fs)
    → resolve bound fs [] up ≡ some at
    → remove_path bound (up ++ last ∷ []) fs ≡ without (at ++ last ∷ []) fs
unfolding remove_path
remove_split_lem bound up at last fs e = rw (split_last-append up last, e) refl

module _ {Entry IoError : Type 0} (is_utf8 : Bytes → Bool) (path : Entry → Result IoError PathBuf)
    (unpack_in : PathBuf → Entry → Fs → Fs × Result IoError Unit) (bound : ℕ) where
  classify-whiteout :
      (up : PathBuf) (n : Bytes)
      → is_utf8 (text ".wh." ++ n) ≡ true
      → components n ≡ normal n ∷ []
      → str_eq n (text ".wh..opq") ≡ false
      → is_inside up ≡ true
      → classify bound is_utf8 path unpack_in (up ++ normal (text ".wh." ++ n) ∷ [])
        ≡ remove (up ++ normal n ∷ [])
  unfolding classify
  classify-whiteout up n utf8 plain ne k =
      rw (file_name-append up (text ".wh." ++ n), utf8, parent-append up (text ".wh." ++ n))
        (classify_name_lem up n plain ne ∙ ap remove (join_dir up n k))

  -- An entry `<up>/.wh.<n>` removes what the name `n` stands for in the directory that `<target>/<up>`
  -- resolves to, with all below it, and changes nothing else, wherever that directory is. The entry
  -- is not the opaque marker, `n` is a name of one component, and `up` has no `..` and no root.
  pub apply_entry_whiteout :
      (target up : PathBuf) (n : Bytes) (entry : Entry) (fs : Fs) (at : Names)
      → path entry ≡ ok (up ++ normal (text ".wh." ++ n) ∷ [])
      → is_utf8 (text ".wh." ++ n) ≡ true
      → components n ≡ normal n ∷ []
      → str_eq n (text ".wh..opq") ≡ false
      → is_inside up ≡ true
      → resolve bound fs [] (names target ++ names up) ≡ some at
      → apply_entry bound is_utf8 path unpack_in target (ok entry) fs
        ≡ (without (at ++ n ∷ []) fs, ok tt)
  unfolding apply_entry safe_join
  apply_entry_whiteout target up n entry fs at here utf8 plain ne k found =
      rw (here, classify-whiteout up n utf8 plain ne k, is_inside-append up n k)
        (ap (λ fs'. (fs', ok tt))
          (rw
            (
              names-join target (up ++ normal n ∷ []) (is_inside-append up n k),
              names-normal up n,
              sym (append_assoc (names target) (names up) (n ∷ [])),
            )
            (remove_split_lem bound (names target ++ names up) at n fs found)))
