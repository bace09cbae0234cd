-- ===== src/Examples/Bitmap.antt =====
-- A disk of 20 blocks, five of them in use and the last five for the log, in a transaction.
use advance_synchronization.Base.{
  ℕ, zero, suc, Bool, ◌&&◌, ap, sym, ◌∙◌, ◌<◌, ◌≡◌, ◌≢◌, refl, arith, [], true, if◌then◌else◌, ◌==◌,
}
use advance_synchronization.Log.{Block, Disk, Log}
use advance_synchronization.Log.Append.{IsActive}
use advance_synchronization.Blocks.Search.{used}
use advance_synchronization.Blocks.Bitmap.{IsLaidOut, bitmap_block}

abbrev super_block : Block
super_block w = if w == 0 then 20 else if w == 2 then 8 else if w == 3 then 5 else 0

-- The bitmap of a disk where the blocks with a bit of `bits` are in use.
abbrev pub with_bits : ℕ → Disk
with_bits bits s =
    if s == 1 then super_block else if s == 4 then (λ w. if w == 0 then bits else 0) else (λ w. 0)

abbrev pub in_transaction : ℕ → Log
in_transaction bits = record {
  disk = with_bits bits;
  passed = [];
  view = with_bits bits;
  start = 15;
  size = 5;
  busy = true;
  n = 0;
  sector = λ i. 0;
}

pub in_transaction-IsActive :
    (bits : ℕ) → IsActive (with_bits bits) (with_bits bits) (in_transaction bits)
in_transaction-IsActive bits = record {
  active = refl;
  empty = refl;
  home = λ s b. refl;
  shown = λ s b. refl;
  logged = λ i k. absurd (omega arith);
  cached = λ i k. absurd (omega arith);
  before = λ i k. absurd (omega arith);
  not_super = λ i k. absurd (omega arith);
  distinct = λ i j k m e. absurd (omega arith);
  rest = λ s b f. refl;
  crash = tt;
}

pub one_bitmap_block : (bits c : ℕ) → c < 20 → bitmap_block (with_bits bits) c ≡ 4
one_bitmap_block bits c h = omega arith

-- Whether every index below the bound passes.
unfoldable pub every : ℕ → (ℕ → Bool) → Bool
every zero p = true
every (suc n) p = p n && every n p

pub every_lem : (n : ℕ) (p : ℕ → Bool) (c : ℕ) → every n p ≡ true → c < n → p c ≡ true
unfolding every
every_lem zero p c e h = absurd (omega arith)
every_lem (suc n) p c e h = ground (arith, every_lem n p c)

pub laid_out :
    (bits : ℕ)
    → used (with_bits bits) 4 ≢ 0
    → used (with_bits bits) 1 ≢ 0
    → IsLaidOut 15 (with_bits bits)
laid_out bits four one = record {
  some_block = omega arith;
  bitmap_before = λ c h. omega arith;
  bitmap_used = λ c h e. four (sym (ap (used (with_bits bits)) (one_bitmap_block bits c h)) ∙ e);
  super_used = one;
}
