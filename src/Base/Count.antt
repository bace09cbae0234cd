-- ===== src/Base/Count.antt =====
-- How many of the indices below a bound pass a test.
use Prim.Native.Nat.{ℕ, zero, suc, ◌+◌, ◌≤◌, ◌<◌}
use mathlib.Core.Path.{◌≡◌, refl, ap}
use mathlib.Core.Logic.{◌≢◌, inl, inr}
use mathlib.Core.Bool.{Bool, true, false}
use native.Mathlib.Decide.{ℕ_discrete}
use native.Mathlib.Omega.{arith}
use advance_synchronization.Base.Tests.{Bool-cases}

abbrev pub bit : Bool → ℕ
bit true = 1
bit false = 0

unfoldable pub count : ℕ → (ℕ → Bool) → ℕ
count zero p = 0
count (suc n) p = count n p + bit (p n)

-- Two tests that agree below the bound count alike.
pub count-congr : (n : ℕ) (p q : ℕ → Bool) → ((j : ℕ) → j < n → p j ≡ q j) → count n p ≡ count n q
unfolding count
count-congr zero p q h = refl
count-congr (suc n) p q h =
    ground (arith, count-congr n p q (λ j l. h j (omega arith)), h n (omega arith))

-- A test that changes at one index below the bound changes the count by that index alone.
pub count-change :
    (n : ℕ) (p q : ℕ → Bool) (i : ℕ)
    → i < n
    → ((j : ℕ) → j ≢ i → p j ≡ q j)
    → count n q + bit (p i) ≡ count n p + bit (q i)
unfolding count
count-change zero p q i l h = absurd (omega arith)
count-change (suc n) p q i l h = elim (ℕ_discrete i n) [
  | yes e ↦ ground (arith, count-congr n p q (λ j m. h j (λ d. absurd (omega arith))), e)
  | no ne ↦ ground (arith, count-change n p q i (omega arith) h, h n (λ d. ne (omega arith)))
]

pub count-pos : (n : ℕ) (p : ℕ → Bool) (i : ℕ) → i < n → p i ≡ true → 0 < count n p
unfolding count
count-pos zero p i l h = absurd (omega arith)
count-pos (suc n) p i l h = elim (ℕ_discrete i n) [
  | yes e ↦ ground arith
  | no ne ↦ ground (arith, count-pos n p i (omega arith) h)
]

-- A positive count has an index that passes.
pub count_witness : (n : ℕ) (p : ℕ → Bool) → 0 < count n p → (i : ℕ) × (i < n) × (p i ≡ true)
unfolding count
count_witness zero p h = absurd (omega arith)
count_witness (suc n) p h = elim (Bool-cases (p n)) [
  | inl y ↦ (n, omega arith, y)
  | inr m ↦ let (i, l, e) = count_witness n p (ground arith) in (i, omega arith, e)
]

-- Where at most one index passes, two that pass are one.
pub count-le-one :
    (n : ℕ) (p : ℕ → Bool) (i j : ℕ)
    → count n p ≤ 1
    → i < n
    → j < n
    → p i ≡ true
    → p j ≡ true
    → i ≡ j
unfolding count
count-le-one zero p i j c l m h k = absurd (omega arith)
count-le-one (suc n) p i j c l m h k = elim (ℕ_discrete i n) [
  | yes e ↦ elim (ℕ_discrete j n) [
    | yes f ↦ omega arith
    | no f ↦ absurd (ground (arith, count-pos n p j (omega arith) k))
  ]
  | no e ↦ elim (ℕ_discrete j n) [
    | yes f ↦ absurd (ground (arith, count-pos n p i (omega arith) h))
    | no f ↦ count-le-one n p i j (omega arith) (omega arith) (omega arith) h k
  ]
]

pub count-le : (n : ℕ) (p : ℕ → Bool) → count n p ≤ n
unfolding count
count-le zero p = omega arith
count-le (suc n) p = ground (arith, count-le n p)

pub count-lt : (n : ℕ) (p : ℕ → Bool) (i : ℕ) → i < n → p i ≡ false → count n p < n
unfolding count
count-lt zero p i l h = absurd (omega arith)
count-lt (suc n) p i l h = elim (ℕ_discrete i n) [
  | yes e ↦ ground (arith, count-le n p)
  | no ne ↦ ground (arith, count-lt n p i (omega arith) h)
]

pub count-eq-zero : (n : ℕ) (p : ℕ → Bool) → ((j : ℕ) → j < n → p j ≡ false) → count n p ≡ 0
unfolding count
count-eq-zero zero p h = refl
count-eq-zero (suc n) p h =
    ground (arith, count-eq-zero n p (λ j l. h j (omega arith)), h n (omega arith))

pub bit_mono : (a b : Bool) → (a ≡ true → b ≡ true) → bit a ≤ bit b
bit_mono true b h = ground arith
bit_mono false b h = ground arith

-- Indices that do not pass can be added to the bound.
pub count-extend :
    (n b : ℕ) (p : ℕ → Bool) → n ≤ b → ((j : ℕ) → n ≤ j → p j ≡ false) → count b p ≡ count n p
unfolding count
count-extend n zero p l h = let e : n ≡ 0 = omega arith in rw e refl
count-extend n (suc b) p l h = elim (ℕ_discrete n (suc b)) [
  | yes e ↦ rw e refl
  | no d ↦ omega (arith, count-extend n b p (omega arith) h, ap bit (h b (omega arith)))
]

-- The first index counts apart.
pub count-first : (n : ℕ) (p : ℕ → Bool) → count (suc n) p ≡ bit (p 0) + count n (λ j. p (suc j))
unfolding count
count-first zero p = omega arith
count-first (suc n) p = omega (arith, count-first n p)
