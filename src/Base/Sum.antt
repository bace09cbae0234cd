-- ===== src/Base/Sum.antt =====
-- The sum of a function over the indices below a bound.
use Prim.Native.Nat.{ℕ, zero, suc, ◌+◌, ◌≤◌, ◌<◌}
use mathlib.Core.Path.{◌≡◌, refl}
use mathlib.Core.Logic.{◌≢◌}
use native.Mathlib.Decide.{ℕ_discrete}
use native.Mathlib.Omega.{arith}

unfoldable pub sum : ℕ → (ℕ → ℕ) → ℕ
sum zero f = 0
sum (suc n) f = sum n f + f n

pub sum-congr : (n : ℕ) (f g : ℕ → ℕ) → ((j : ℕ) → j < n → f j ≡ g j) → sum n f ≡ sum n g
unfolding sum
sum-congr zero f g h = refl
sum-congr (suc n) f g h =
    omega (arith, sum-congr n f g (λ j l. h j (omega arith)), h n (omega arith))

-- A function that changes at one index below the bound changes the sum by that index alone.
pub sum-change :
    (n : ℕ) (f g : ℕ → ℕ) (i : ℕ)
    → i < n
    → ((j : ℕ) → j ≢ i → f j ≡ g j)
    → sum n g + f i ≡ sum n f + g i
unfolding sum
sum-change zero f g i l h = absurd (omega arith)
sum-change (suc n) f g i l h = elim (ℕ_discrete i n) [
  | yes e ↦ ground (arith, sum-congr n f g (λ j m. h j (λ d. absurd (omega arith))), e)
  | no ne ↦ ground (arith, sum-change n f g i (omega arith) h, h n (λ d. ne (omega arith)))
]

-- No summand is larger than the sum.
pub sum-le : (n : ℕ) (f : ℕ → ℕ) (i : ℕ) → i < n → f i ≤ sum n f
unfolding sum
sum-le zero f i l = absurd (omega arith)
sum-le (suc n) f i l = elim (ℕ_discrete i n) [
  | yes e ↦ ground (arith, e)
  | no ne ↦ omega (arith, sum-le n f i (omega arith))
]

pub sum-zero : (n : ℕ) (f : ℕ → ℕ) → ((j : ℕ) → j < n → f j ≡ 0) → sum n f ≡ 0
unfolding sum
sum-zero zero f h = refl
sum-zero (suc n) f h = omega (arith, sum-zero n f (λ j l. h j (omega arith)), h n (omega arith))
