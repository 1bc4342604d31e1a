-- ===== src/Base/Prefix.antt =====
-- A name in front of a separator that it does not contain.
use Prim.Native.Nat.{ℕ}
use mathlib.Core.Path.{◌≡◌, refl}
use mathlib.Core.Bool.{false}
use mathlib.Core.Option.{none, some}
use mathlib.Core.List.{[], ◌∷◌, ◌++◌}
use native.Mathlib.Omega.{arith}
use containerd_rs.Base.Tests.{◌==◌, if◌then◌else◌}
use containerd_rs.Base.Lists.{All}
use containerd_rs.Base.Text.{Bytes, str_eq, strip_prefix}

-- A name without the byte `c`.
abbrev pub Lacks : ℕ → Bytes → Type 0
Lacks c n = All (λ b. (b == c) ≡ false) n

pub strip_prefix-Lacks :
    (c : ℕ) (n m rest : Bytes)
    → Lacks c n
    → Lacks c m
    → strip_prefix (n ++ c ∷ []) (m ++ c ∷ rest) ≡ (if str_eq n m then some rest else none)
unfolding str_eq strip_prefix
strip_prefix-Lacks c [] [] rest h h' = ground arith
strip_prefix-Lacks c [] (b ∷ m) rest h (k, ks) = ground arith
strip_prefix-Lacks c (b ∷ n) [] rest (k, ks) h' = ground arith
strip_prefix-Lacks c (b ∷ n) (b' ∷ m) rest (k, ks) (k', ks') =
    ground (arith, strip_prefix-Lacks c n m rest ks ks')

-- Two names in front of the separator in one text are the same.
pub strip_prefix_same :
    (c : ℕ) (n m s rest : Bytes)
    → Lacks c n
    → Lacks c m
    → strip_prefix (n ++ c ∷ []) s ≡ some rest
    → str_eq n m ≡ false
    → strip_prefix (m ++ c ∷ []) s ≡ none
unfolding str_eq strip_prefix
strip_prefix_same c n [] [] rest h h' e ne = refl
strip_prefix_same c n (b ∷ m) [] rest h h' e ne = refl
strip_prefix_same c [] [] (x ∷ s) rest h h' e ne = ground arith
strip_prefix_same c [] (b ∷ m) (x ∷ s) rest h (k, ks) e ne = ground arith
strip_prefix_same c (b ∷ n) [] (x ∷ s) rest (k, ks) h' e ne = ground arith
strip_prefix_same c (b ∷ n) (b' ∷ m) (x ∷ s) rest (k, ks) (k', ks') e ne =
    ground (arith, strip_prefix_same c n m s rest ks ks')
