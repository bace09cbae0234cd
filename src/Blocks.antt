-- ===== src/Blocks.antt =====
-- The free bitmap: mcertikos/kern/fs/block.c, over the log.
pub mod Bits
pub mod Search
pub mod Bitmap
pub mod Allocation
pub mod Freeing
pub mod Exhausted
use advance_synchronization.Base.{
  ℕ, zero, suc, ◌+◌, ◌-◌, ◌*◌, ◌/◌, ◌%◌, ◌==◌, ltb, if◌then◌else◌, Option, none, some, update,
}
use advance_synchronization.Log.{Block, Log, sb_size, sb_ninodes, set_data, log_write}

-- Bit `k` of a word, `w & (1 << k)` as 0 or 1.
unfoldable pub bit : ℕ → ℕ → ℕ
bit zero w = w % 2
bit (suc k) w = bit k (w / 2)

-- `w | (1 << k)`
unfoldable pub set_bit : ℕ → ℕ → ℕ
set_bit zero w = w / 2 * 2 + 1
set_bit (suc k) w = set_bit k (w / 2) * 2 + w % 2

-- `w & ~(1 << k)`
unfoldable pub clear_bit : ℕ → ℕ → ℕ
clear_bit zero w = w / 2 * 2
clear_bit (suc k) w = clear_bit k (w / 2) * 2 + w % 2

-- BPB and IPB of kern/fs/dinode.h.
abbrev pub bpb : ℕ
bpb = 512 * 8

abbrev pub ipb : ℕ
ipb = 512 / 64

-- BBLOCK
abbrev pub bblock : ℕ → ℕ → ℕ
bblock b ninodes = b / bpb + ninodes / ipb + 3

-- Bit `bi` of a block: `bp->data[bi / 8] & (1 << (bi % 8))`, where a word has its low byte first.
abbrev pub bit_at : Block → ℕ → ℕ
bit_at blk bi = bit (bi % 32) (blk (bi / 32))

abbrev pub set_at : Block → ℕ → Block
set_at blk bi = update blk (bi / 32) (set_bit (bi % 32) (blk (bi / 32)))

abbrev pub clear_at : Block → ℕ → Block
clear_at blk bi = update blk (bi / 32) (clear_bit (bi % 32) (blk (bi / 32)))

abbrev pub read_superblock : Log → Block
read_superblock l = l.view 1

unfoldable pub block_zero : Log → ℕ → Option Log
block_zero l bno = log_write (set_data l bno (λ w. 0)) bno

-- The inner loop of `block_alloc` from `bi` on, with `k` bits of the block left.
unfoldable pub find_bit : ℕ → ℕ → ℕ → ℕ → Block → Option ℕ
find_bit zero bi b size blk = none
find_bit (suc k) bi b size blk =
    let rest = find_bit k (bi + 1) b size blk in
    if ltb (b + bi) size then (if bit_at blk bi == 0 then some bi else rest) else none

-- What `block_alloc` does once it has found bit `bi` clear.
unfoldable pub take_block : Log → ℕ → ℕ → Option (Log × ℕ)
unfolding block_zero
take_block l bb b = elim (log_write (set_data l bb (set_at (l.view bb) (b % bpb))) bb) [
  | none ↦ none
  | some l1 ↦ elim (block_zero l1 b) [ none ↦ none | some l2 ↦ some (l2, b) ]
]

-- The outer loop from `b` on, a multiple of BPB, with at most `k` rounds; `none` is KERN_PANIC.
unfoldable pub block_alloc_from : ℕ → Log → ℕ → ℕ → ℕ → Option (Log × ℕ)
block_alloc_from zero l size ninodes b = none
block_alloc_from (suc k) l size ninodes b =
    let bb = bblock b ninodes in
    let next = block_alloc_from k l size ninodes (b + bpb) in
    if ltb b size
    then elim (find_bit bpb 0 b size (l.view bb)) [
      | none ↦ next
      | some bi ↦ take_block l bb (b + bi)
    ]
    else none

-- Every round but the last has a block below `sb.size`.
unfoldable pub block_alloc : Log → Option (Log × ℕ)
block_alloc l =
    let sb = read_superblock l in
    block_alloc_from (suc (sb_size sb / bpb)) l (sb_size sb) (sb_ninodes sb) 0

-- `none` is KERN_PANIC.
unfoldable pub block_free : Log → ℕ → Option Log
block_free l b =
    let bb = bblock b (sb_ninodes (read_superblock l)) in
    let bi = b % bpb in
    if bit_at (l.view bb) bi == 0
    then none
    else log_write (set_data l bb (clear_at (l.view bb) bi)) bb
