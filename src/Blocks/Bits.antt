-- ===== src/Blocks/Bits.antt =====
-- Setting and clearing one bit of a word, and of a block.
use advance_synchronization.Base.{
  ℕ, zero, suc, ◌+◌, ◌*◌, ◌/◌, ◌%◌, ◌≤◌, ◌≡◌, ap, arith, ◌==◌, if◌then◌else◌,
}
use native.Mathlib.Decide.{ℕ_discrete}
use advance_synchronization.Log.{Block}
use advance_synchronization.Blocks.{bit, set_bit, clear_bit, bit_at, set_at, clear_at}

bit-set_bit : (j k w : ℕ) → bit j (set_bit k w) ≡ (if k == j then 1 else bit j w)
unfolding bit set_bit
bit-set_bit zero zero w = omega arith
bit-set_bit zero (suc k) w = ground arith
bit-set_bit (suc j) zero w =
    let half : (w / 2 * 2 + 1) / 2 ≡ w / 2 = omega arith in ground (arith, ap (bit j) half)
bit-set_bit (suc j) (suc k) w =
    let half : (set_bit k (w / 2) * 2 + w % 2) / 2 ≡ set_bit k (w / 2) = omega arith in
    ground (arith, ap (bit j) half, bit-set_bit j k (w / 2))

bit-clear_bit : (j k w : ℕ) → bit j (clear_bit k w) ≡ (if k == j then 0 else bit j w)
unfolding bit clear_bit
bit-clear_bit zero zero w = omega arith
bit-clear_bit zero (suc k) w = ground arith
bit-clear_bit (suc j) zero w =
    let half : w / 2 * 2 / 2 ≡ w / 2 = omega arith in ground (arith, ap (bit j) half)
bit-clear_bit (suc j) (suc k) w =
    let half : (clear_bit k (w / 2) * 2 + w % 2) / 2 ≡ clear_bit k (w / 2) = omega arith in
    ground (arith, ap (bit j) half, bit-clear_bit j k (w / 2))

pub bit-le : (j w : ℕ) → bit j w ≤ 1
unfolding bit
bit-le zero w = omega arith
bit-le (suc j) w = bit-le j (w / 2)

same_place : (i j : ℕ) → i / 32 ≡ j / 32 → i % 32 ≡ j % 32 → i ≡ j
same_place i j p q = omega arith

pub bit_at-set_at :
    (blk : Block) (i j : ℕ) → bit_at (set_at blk i) j ≡ (if i == j then 1 else bit_at blk j)
bit_at-set_at blk i j = elim (ℕ_discrete (i / 32) (j / 32)) [
  | yes e ↦ ground (arith, bit-set_bit (j % 32) (i % 32) (blk (i / 32)), same_place i j, ap blk e)
  | no d ↦ ground arith
]

pub bit_at-clear_at :
    (blk : Block) (i j : ℕ) → bit_at (clear_at blk i) j ≡ (if i == j then 0 else bit_at blk j)
bit_at-clear_at blk i j = elim (ℕ_discrete (i / 32) (j / 32)) [
  | yes e ↦ ground (arith, bit-clear_bit (j % 32) (i % 32) (blk (i / 32)), same_place i j, ap blk e)
  | no d ↦ ground arith
]
