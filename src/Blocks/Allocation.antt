-- ===== src/Blocks/Allocation.antt =====
-- `block_alloc` as an update of the blocks, in a transaction.
use advance_synchronization.Base.{ℕ, ◌+◌, ◌%◌, ◌<◌, ◌≤◌, ◌≡◌, ◌≢◌, ap, arith, ◌==◌, if◌then◌else◌}
use advance_synchronization.Log.{Block, Disk, Log, sb_size}
use advance_synchronization.Log.Append.{IsActive}
use advance_synchronization.Blocks.{bit_at, bpb}
use advance_synchronization.Blocks.Search.{used}
use advance_synchronization.Blocks.Bitmap.{bitmap_block, IsLaidOut, allocated}

-- What an allocation does: the first free block is marked and zeroed.
pub record IsAllocation (old new : Disk) (l l' : Log) (b : ℕ) : Type 0 where
  pub was_free : used new b ≡ 0
  pub first : (c : ℕ) → c < b → used new c ≢ 0
  pub before : b < l.start
  pub used_after :
      (c : ℕ) → c < sb_size (new 1) → used (allocated new b) c ≡ (if b == c then 1 else used new c)
  pub active : IsActive old (allocated new b) l'
  pub log_start : l'.start ≡ l.start
  pub log_size : l'.size ≡ l.size
  pub log_room : l'.n ≤ l.n + 2

module _ {old new : Disk} {l : Log} (h : IsActive old new l) (laid : IsLaidOut l.start new) where
  pub super_shown : l.view 1 ≡ new 1
  super_shown = h.shown 1 (omega (arith, laid.bitmap_before 0 laid.some_block))

  pub used_shown : (c : ℕ) → c < sb_size (new 1) → used l.view c ≡ used new c
  used_shown c k = rw super_shown (
      ap (λ (x : Block). bit_at x (c % bpb))
        (h.shown (bitmap_block new c) (laid.bitmap_before c k)))
