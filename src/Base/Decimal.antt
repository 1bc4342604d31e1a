-- ===== src/Base/Decimal.antt =====
-- Decimal text of a natural number, as Rust's `{}` prints an unsigned integer.
use Prim.Native.Nat.{ℕ, zero, suc, ◌+◌, ◌*◌, ◌-◌, ◌/◌, ◌%◌, ◌<◌}
use mathlib.Core.Path.{◌≡◌, refl, sym, ap, ◌∙◌}
use mathlib.Core.Bool.{Bool, true, false, ◌&&◌}
use mathlib.Core.Option.{Option, none, some}
use mathlib.Core.List.{[], ◌∷◌, ◌++◌}
use native.Mathlib.Omega.{arith}
use containerd_rs.Base.Tests.{ltb, leb, ltb→lt, Bool-cases, if◌then◌else◌}
use mathlib.Core.Logic.{◌≢◌, inl, inr}
use containerd_rs.Base.Lists.{All, All-append}
use containerd_rs.Base.Text.{Bytes}

-- The digits of `n`, most significant first. The fuel `suc n` is more than the digits of `n`.
digits : ℕ → ℕ → Bytes
digits zero n = []
digits (suc fuel) n =
    let front = digits fuel (n / 10) in (if ltb n 10 then [] else front) ++ (b'0' + n % 10) ∷ []

unfoldable pub decimal : ℕ → Bytes
unfolding digits
decimal n = digits (suc n) n

abbrev pub is_digit : ℕ → Bool
is_digit b = leb b'0' b && leb b b'9'

-- The number that decimal digits write, behind the one read so far.
unfoldable pub digits_from : ℕ → Bytes → Option ℕ
digits_from n [] = some n
digits_from n (b ∷ bs) =
    let more = digits_from (n * 10 + (b - b'0')) bs in if is_digit b then more else none

abbrev pub some_digits : Bytes → Option ℕ
some_digits [] = none
some_digits (b ∷ bs) = digits_from 0 (b ∷ bs)

abbrev pub below : ℕ → Option ℕ → Option ℕ
below bound none = none
below bound (some n) = if ltb n bound then some n else none

digits_from-append_digit :
    (acc n : ℕ) (ds : Bytes) (d : ℕ)
    → digits_from acc ds ≡ some n
    → d < 10
    → digits_from acc (ds ++ (b'0' + d) ∷ []) ≡ some (n * 10 + d)
unfolding digits_from
digits_from-append_digit acc n [] d h k = ground arith
digits_from-append_digit acc n (e ∷ ds) d h k =
    ground (arith, digits_from-append_digit (acc * 10 + (e - b'0')) n ds d)

nothing_read : (n : ℕ) → digits_from n [] ≡ some n
unfolding digits_from
nothing_read n = refl

digits_from-digits : (fuel n : ℕ) → n < fuel → digits_from 0 (digits fuel n) ≡ some n
unfolding digits
digits_from-digits zero n h = absurd (omega arith)
digits_from-digits (suc fuel) n h = elim (Bool-cases (ltb n 10)) [
  | inl e ↦ rw e (last 0 [] n (nothing_read 0) (omega (arith, ltb→lt n 10 e)))
  | inr e ↦ rw e (
      last (n / 10) (digits fuel (n / 10)) n (digits_from-digits fuel (n / 10) (ground (arith, e)))
        (omega arith))
]
  where
    last :
        (front : ℕ) (ds : Bytes) (n : ℕ)
        → digits_from 0 ds ≡ some front
        → front * 10 + n % 10 ≡ n
        → digits_from 0 (ds ++ (b'0' + n % 10) ∷ []) ≡ some n
    last front ds n h e = digits_from-append_digit 0 front ds (n % 10) h (omega arith) ∙ ap some e

-- Reading the decimal text of a number gives the number.
pub digits_from-decimal : (n : ℕ) → digits_from 0 (decimal n) ≡ some n
unfolding decimal
digits_from-decimal n = digits_from-digits (suc n) n (omega arith)

-- Two numbers with one decimal text are the same number.
pub decimal-injective : (m n : ℕ) → decimal m ≡ decimal n → m ≡ n
decimal-injective m n e =
    let same = sym (digits_from-decimal m) ∙ ap (digits_from 0) e ∙ digits_from-decimal n in cc

-- A decimal text is no empty one, and each of its bytes is a digit.
append_one-cons : (ds : Bytes) (d : ℕ) → (ds ++ d ∷ []) ≢ []
append_one-cons [] d h = cc
append_one-cons (e ∷ ds) d h = cc

pub decimal-cons : (n : ℕ) → decimal n ≢ []
unfolding decimal digits
decimal-cons n h = append_one-cons _ (b'0' + n % 10) h

pub All-decimal {κ} :
    (P : ℕ → Type κ) → ((d : ℕ) → d < 10 → P (b'0' + d)) → (n : ℕ) → All P (decimal n)
unfolding decimal
All-decimal P h n = All-digits (suc n) n
  where
    All-if : (b : Bool) (ds : Bytes) → All P ds → All P (if b then [] else ds)
    All-if true ds hs = tt
    All-if false ds hs = hs

    All-digits : (fuel n : ℕ) → All P (digits fuel n)
    All-digits zero n = tt
    All-digits (suc fuel) n =
        All-append P _ ((b'0' + n % 10) ∷ []) (All-if (ltb n 10) _ (All-digits fuel (n / 10)))
          (h (n % 10) (omega arith), tt)
