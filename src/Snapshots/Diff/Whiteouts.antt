-- ===== src/Snapshots/Diff/Whiteouts.antt =====
-- crates/snapshots/src/diff.rs: what whiteouts remove.
use containerd_rs.Base.{
  ℕ, [], ◌∷◌, ◌++◌, Bytes, Bool, true, false, Option, some, ◌≡◌, refl, ap, sym, subst, Result, ◌∙◌,
  inl, inr, Bool-cases, ◌≢◌, append-nil, append_assoc,
}
use mathlib.Core.Bool.{false≢true}
use containerd_rs.Snapshots.Paths.{PathBuf, root_dir, cur_dir, parent_dir, normal, join, tail_of}
use containerd_rs.Snapshots.Files.{
  Names, Fs, is_prefix, is_prefix_trans, resolve, IsPlain, IsInPlace, resolve-IsPlain, without,
}
use containerd_rs.Snapshots.Diff.{
  Whiteout, not_whiteout, remove, opaque, apply_whiteout, names, walk, drop_last, split_last,
  is_inside, safe_join, remove_path, remove_at, clear_at, without_children,
}

walk-append : (at : Names) (p q : PathBuf) → walk at (p ++ q) ≡ walk (walk at p) q
walk-append at [] q = refl
walk-append at (normal n ∷ p) q = walk-append (at ++ n ∷ []) p q
walk-append at (parent_dir ∷ p) q = walk-append (drop_last at) p q
walk-append at (cur_dir ∷ p) q = walk-append at p q
walk-append at (root_dir ∷ p) q = walk-append [] p q

walk-tail_of : (at : Names) (q : PathBuf) → walk at (tail_of q) ≡ walk at q
walk-tail_of at [] = refl
walk-tail_of at (cur_dir ∷ q) = walk-tail_of at q
walk-tail_of at (normal n ∷ q) = walk-tail_of (at ++ n ∷ []) q
walk-tail_of at (parent_dir ∷ q) = walk-tail_of (drop_last at) q
walk-tail_of at (root_dir ∷ q) = walk-tail_of [] q

-- A path without `..` stays below the directory that it starts from.
walk-is_inside : (at : Names) (q : PathBuf) → is_inside q ≡ true → walk at q ≡ at ++ names q
unfolding is_inside
walk-is_inside at [] k = sym (append-nil at)
walk-is_inside at (root_dir ∷ q) k = absurd (false≢true k)
walk-is_inside at (parent_dir ∷ q) k = absurd (false≢true k)
walk-is_inside at (cur_dir ∷ q) k = walk-is_inside at q k
walk-is_inside at (normal n ∷ q) k =
    walk-is_inside (at ++ n ∷ []) q k
    ∙ (append_assoc at (n ∷ []) (names q) ∙ ap (λ r. at ++ r) (sym (walk-is_inside (n ∷ []) q k)))

pub names-append : (p q : PathBuf) → is_inside q ≡ true → names (p ++ q) ≡ names p ++ names q
names-append p q k = walk-append [] p q ∙ walk-is_inside (names p) q k

pub names-normal : (p : PathBuf) (n : Bytes) → names (p ++ normal n ∷ []) ≡ names p ++ n ∷ []
names-normal p n = walk-append [] p (normal n ∷ [])

pub names-join : (p q : PathBuf) → is_inside q ≡ true → names (join p q) ≡ names p ++ names q
unfolding join is_inside
names-join [] [] k = refl
names-join [] (root_dir ∷ q) k = absurd (false≢true k)
names-join [] (parent_dir ∷ q) k = absurd (false≢true k)
names-join [] (cur_dir ∷ q) k = refl
names-join [] (normal n ∷ q) k = refl
names-join (c ∷ p) (root_dir ∷ q) k = absurd (false≢true k)
names-join (c ∷ p) [] k = names-append (c ∷ p) [] refl
names-join (c ∷ p) (parent_dir ∷ q) k = absurd (false≢true k)
names-join (c ∷ p) (cur_dir ∷ q) k =
    walk-append [] (c ∷ p) (tail_of q)
    ∙ (walk-tail_of (names (c ∷ p)) q ∙ walk-is_inside (names (c ∷ p)) q k)
names-join (c ∷ p) (normal n ∷ q) k =
    walk-append [] (c ∷ p) (normal n ∷ tail_of q)
    ∙ (walk-tail_of (names (c ∷ p) ++ n ∷ []) q ∙ walk-is_inside (names (c ∷ p)) (normal n ∷ q) k)

pub split_last-append : (up : Names) (last : Bytes) → split_last (up ++ last ∷ []) ≡ some (up, last)
split_last-append [] last = refl
split_last-append (n ∷ []) last = refl
split_last-append (n ∷ m ∷ up) last = rw (split_last-append (m ∷ up) last) refl

-- A path is empty, or it has a last name.
data Ending (q : Names) : Type 0 where
  at_root : q ≡ [] → Ending q
  under : (up : Names) (last : Bytes) → q ≡ up ++ last ∷ [] → Ending q

Ending-next : (n : Bytes) (q : Names) → Ending q → Ending (n ∷ q)
Ending-next n q (at_root e) = under [] n (ap (λ r. n ∷ r) e)
Ending-next n q (under up last e) = under (n ∷ up) last (ap (λ r. n ∷ r) e)

ending : (q : Names) → Ending q
ending [] = at_root refl
ending (n ∷ q) = Ending-next n q (ending q)

IsPlain-front : (fs : Fs) (at up more : Names) → IsPlain fs at (up ++ more) → IsPlain fs at up
IsPlain-front fs at [] more k = tt
IsPlain-front fs at (n ∷ up) more (k, ks) = (k, IsPlain-front fs (at ++ n ∷ []) up more ks)

remove_at_confined :
    (fs : Fs) (r : Option Names) (up : Names) (last : Bytes) (x : Names)
    → IsInPlace r up
    → is_prefix (up ++ last ∷ []) x ≡ false
    → remove_at r last fs x ≡ fs x
unfolding without
remove_at_confined fs r up last x (inl e) out = rw e refl
remove_at_confined fs r up last x (inr e) out = rw (e, out) refl

under_confined :
    (bound : ℕ) (fs : Fs) (up : Names) (last : Bytes) (x : Names)
    → IsPlain fs [] (up ++ last ∷ [])
    → is_prefix (up ++ last ∷ []) x ≡ false
    → remove_path bound (up ++ last ∷ []) fs x ≡ fs x
unfolding remove_path
under_confined bound fs up last x k out = rw (split_last-append up last) (
    remove_at_confined fs (resolve bound fs [] up) up last x
      (resolve-IsPlain bound fs [] up (IsPlain-front fs [] up (last ∷ []) k)) out)

remove_path_confined :
    (bound : ℕ) (fs : Fs) (q x : Names)
    → Ending q
    → IsPlain fs [] q
    → is_prefix q x ≡ false
    → remove_path bound q fs x ≡ fs x
unfolding remove_path
remove_path_confined bound fs q x (at_root e) k out = rw e refl
remove_path_confined bound fs q x (under up last e) k out =
    subst (λ r. remove_path bound r fs x ≡ fs x) (sym e)
      (under_confined bound fs up last x (subst (IsPlain fs []) e k)
        (subst (λ r. is_prefix r x ≡ false) e out))

clear_at_confined :
    (fs : Fs) (r : Option Names) (q x : Names)
    → IsInPlace r q
    → is_prefix q x ≡ false
    → clear_at r fs x ≡ fs x
unfolding without_children
clear_at_confined fs r q x (inl e) out = rw e refl
clear_at_confined fs r q x (inr e) out = rw (e, out) refl

-- The victims of a layer's whiteouts.
module _ (bound : ℕ) (target rel : PathBuf) (fs : Fs)
    (plain : IsPlain fs [] (names target ++ names rel)) (x : Names)
    (out : is_prefix (names target) x ≡ false) where
  not_below : (q : Names) → is_prefix (names target ++ q) x ≡ false
  not_below q = elim (Bool-cases (is_prefix (names target ++ q) x)) [
    | inl e ↦ absurd (false≢true (sym out ∙ is_prefix_trans (names target) q x e))
    | inr e ↦ e
  ]

  victim_confined : is_inside rel ≡ true → remove_path bound (names (join target rel)) fs x ≡ fs x
  victim_confined k = rw (names-join target rel k) (
      remove_path_confined bound fs (names target ++ names rel) x
        (ending (names target ++ names rel)) plain (not_below (names rel)))

  dir_confined :
      is_inside rel ≡ true → clear_at (resolve bound fs [] (names (join target rel))) fs x ≡ fs x
  dir_confined k = rw (names-join target rel k) (
      clear_at_confined fs (resolve bound fs [] (names target ++ names rel))
        (names target ++ names rel) x
        (resolve-IsPlain bound fs [] (names target ++ names rel) plain) (not_below (names rel)))

module _ {Entry IoError : Type 0} (is_utf8 : Bytes → Bool) (path : Entry → Result IoError PathBuf)
    (unpack_in : PathBuf → Entry → Fs → Fs × Result IoError Unit) (bound : ℕ) where
  abbrev pub IsConfined : PathBuf → Whiteout → Fs → Type 0
  IsConfined target not_whiteout fs = Unit
  IsConfined target (remove rel) fs = IsPlain fs [] (names target ++ names rel)
  IsConfined target (opaque rel) fs = IsPlain fs [] (names target ++ names rel)

  -- A whiteout, of either form, changes nothing outside of the target, where nothing on the way from
  -- the root to what it names is a link, and neither is that itself.
  pub whiteout_confined :
      (target : PathBuf) (entry : Entry) (w : Whiteout) (fs : Fs) (x : Names)
      → w ≢ not_whiteout
      → IsConfined target w fs
      → is_prefix (names target) x ≡ false
      → ((apply_whiteout bound is_utf8 path unpack_in target entry w fs).0) x ≡ fs x
  unfolding safe_join
  whiteout_confined target entry not_whiteout fs x real plain out = absurd (real refl)
  whiteout_confined target entry (remove rel) fs x real plain out =
      elim (Bool-cases (is_inside rel)) [
        | inl e ↦ rw e (victim_confined bound target rel fs plain x out e)
        | inr e ↦ rw e refl
      ]
  whiteout_confined target entry (opaque rel) fs x real plain out =
      elim (Bool-cases (is_inside rel)) [
        | inl e ↦ rw e (dir_confined bound target rel fs plain x out e)
        | inr e ↦ rw e refl
      ]
