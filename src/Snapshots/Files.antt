-- ===== src/Snapshots/Files.antt =====
-- The file tree that crates/snapshots/src/diff.rs works on: names of absolute paths to nodes, with
-- symbolic links. A link holds the absolute path that it leads to.
use containerd_rs.Base.{
  ℕ, zero, suc, ◌≡◌, ◌≢◌, refl, ap, List, [], ◌∷◌, ◌++◌, Bytes, Bool, true, false, ◌&&◌, Option,
  none, some, if◌then◌else◌, str_eq, str_eq_refl, arith, append_assoc, append-nil, subst, sym, ◌⊎◌,
  inl, inr,
}

-- An absolute path: the names from the root on.
abbrev pub Names : Type 0
Names = List Bytes

pub data Node : Type 0 where
  dir : Node
  file : Bytes → Node
  link : Names → Node

abbrev pub Fs : Type 0
Fs = Names → Option Node

unfoldable pub is_prefix : Names → Names → Bool
is_prefix [] q = true
is_prefix (n ∷ p) [] = false
is_prefix (n ∷ p) (m ∷ q) = str_eq n m && is_prefix p q

pub is_prefix-append : (p q : Names) → is_prefix p (p ++ q) ≡ true
unfolding is_prefix
is_prefix-append [] q = refl
is_prefix-append (n ∷ p) q = ground (arith, str_eq_refl n, is_prefix-append p q)

pub is_prefix_trans : (p q r : Names) → is_prefix (p ++ q) r ≡ true → is_prefix p r ≡ true
unfolding is_prefix
is_prefix_trans [] q r h = refl
is_prefix_trans (n ∷ p) q [] h = h
is_prefix_trans (n ∷ p) q (m ∷ r) h = ground (arith, is_prefix_trans p q r)

-- The directory that the kernel resolves a path to, from the directory `at` on: links are
-- followed, and a missing name or a file on the way is an error. The bound stands for the
-- kernel's own, ELOOP.
unfoldable pub resolve : ℕ → Fs → Names → Names → Option Names
resolve bound fs at [] = some at
resolve zero fs at (n ∷ ns) = none
resolve (suc bound) fs at (n ∷ ns) = elim (fs (at ++ n ∷ [])) [
  | none ↦ none
  | some dir ↦ resolve bound fs (at ++ n ∷ []) ns
  | some (file content) ↦ none
  | some (link to) ↦ resolve bound fs [] (to ++ ns)
]

-- No component of the path behind `at` is a link.
abbrev pub IsPlain : Fs → Names → Names → Type 0
IsPlain fs at [] = Unit
IsPlain fs at (n ∷ ns) =
    ((to : Names) → fs (at ++ n ∷ []) ≢ some (link to)) × IsPlain fs (at ++ n ∷ []) ns

-- A resolution that follows no link: it fails, or it stays at the path.
abbrev pub IsInPlace : Option Names → Names → Type 0
IsInPlace r p = (r ≡ none) ⊎ (r ≡ some p)

resolve_next :
    (bound : ℕ) (fs : Fs) (at : Names) (n : Bytes) (ns : Names) (o : Option Node)
    → fs (at ++ n ∷ []) ≡ o
    → ((to : Names) → fs (at ++ n ∷ []) ≢ some (link to))
    → IsInPlace (resolve bound fs (at ++ n ∷ []) ns) (at ++ n ∷ ns)
    → IsInPlace (resolve (suc bound) fs at (n ∷ ns)) (at ++ n ∷ ns)
unfolding resolve
resolve_next bound fs at n ns none e k onward = inl (rw (e, resolve) refl)
resolve_next bound fs at n ns (some dir) e k onward =
    subst (λ r. IsInPlace r (at ++ n ∷ ns)) (sym (rw (e, resolve) refl)) onward
resolve_next bound fs at n ns (some (file b)) e k onward = inl (rw (e, resolve) refl)
resolve_next bound fs at n ns (some (link to)) e k onward = absurd (k to e)

pub resolve-IsPlain :
    (bound : ℕ) (fs : Fs) (at ns : Names)
    → IsPlain fs at ns
    → IsInPlace (resolve bound fs at ns) (at ++ ns)
unfolding resolve
resolve-IsPlain bound fs at [] k = inr (ap some (sym (append-nil at)))
resolve-IsPlain zero fs at (n ∷ ns) k = inl refl
resolve-IsPlain (suc bound) fs at (n ∷ ns) (k, ks) =
    resolve_next bound fs at n ns (fs (at ++ n ∷ [])) refl k (
      subst (IsInPlace (resolve bound fs (at ++ n ∷ []) ns)) (append_assoc at (n ∷ []) ns)
        (resolve-IsPlain bound fs (at ++ n ∷ []) ns ks))

-- The tree without a path and all that is below it.
unfoldable pub without : Names → Fs → Fs
unfolding is_prefix
without q fs = λ p. if is_prefix q p then none else fs p
