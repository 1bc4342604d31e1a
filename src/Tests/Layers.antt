-- ===== src/Tests/Layers.antt =====
-- crates/snapshots/src/diff.rs at concrete inputs.
use containerd_rs.Base.{
  ◌≡◌, refl, [], ◌∷◌, ◌++◌, Bytes, text, Bool, true, false, some, Result, ok, if◌then◌else◌, str_eq,
}
use containerd_rs.Snapshots.Paths.{PathBuf, root_dir, normal, components}
use containerd_rs.Snapshots.Files.{dir, file, link, Fs, is_prefix, resolve, IsPlain, without}
use containerd_rs.Snapshots.Diff.{remove, apply_whiteout, apply_entry, names, is_inside}
use containerd_rs.Snapshots.Diff.Whiteouts.{whiteout_confined}
use containerd_rs.Snapshots.Diff.Removal.{apply_entry_whiteout}

-- A tree with the directories `/<a>` and `/<a>/<b>`, and `/<a>/x` as a link to `/etc`.
unfoldable host : Fs
unfolding str_eq
host [] = some dir
host (a ∷ []) = some dir
host (a ∷ b ∷ []) = if str_eq b (text "x") then some (link (text "etc" ∷ [])) else some dir
host (a ∷ b ∷ c ∷ p) = some (file [])

abbrev rootfs : PathBuf
rootfs = root_dir ∷ normal (text "r") ∷ []

abbrev all_utf8 : Bytes → Bool
all_utf8 b = true

abbrev entry_path : PathBuf → Result Bool PathBuf
entry_path p = ok p

abbrev keep : PathBuf → PathBuf → Fs → Fs × Result Bool Unit
keep target entry fs = (fs, ok tt)

abbrev victim : PathBuf
victim = normal (text "a") ∷ normal (text "b") ∷ []

victim-IsPlain : IsPlain host [] (names rootfs ++ names victim)
unfolding host
victim-IsPlain = (λ to e. cc, (λ to e. cc, (λ to e. cc, tt)))

etc_outside : is_prefix (names rootfs) (text "etc" ∷ []) ≡ false
unfolding is_prefix str_eq
etc_outside = refl

whiteout_confined_example :
    (apply_whiteout 40 all_utf8 entry_path keep rootfs victim (remove victim) host).0
      (text "etc" ∷ [])
    ≡ host (text "etc" ∷ [])
whiteout_confined_example =
    whiteout_confined all_utf8 entry_path keep 40 rootfs victim (remove victim) host
      (text "etc" ∷ []) (λ e. cc) victim-IsPlain etc_outside

-- Below the link, the whiteout of `passwd` removes `/etc/passwd`.
abbrev linked : PathBuf
linked = normal (text "x") ∷ normal (text ".wh." ++ text "passwd") ∷ []

resolve_linked : resolve 40 host [] (text "r" ∷ text "x" ∷ []) ≡ some (text "etc" ∷ [])
unfolding resolve host
resolve_linked = refl

passwd_name : components (text "passwd") ≡ normal (text "passwd") ∷ []
unfolding components
passwd_name = refl

passwd_ne : str_eq (text "passwd") (text ".wh..opq") ≡ false
unfolding str_eq
passwd_ne = refl

x_inside : is_inside (normal (text "x") ∷ []) ≡ true
unfolding is_inside
x_inside = refl

apply_entry_whiteout_example :
    apply_entry 40 all_utf8 entry_path keep rootfs (ok linked) host
    ≡ (without (text "etc" ∷ text "passwd" ∷ []) host, ok tt)
apply_entry_whiteout_example =
    apply_entry_whiteout all_utf8 entry_path keep 40 rootfs (normal (text "x") ∷ []) (text "passwd")
      linked host (text "etc" ∷ []) refl refl passwd_name passwd_ne x_inside resolve_linked
