-- ===== src/Examples/Files.antt =====
-- A file with the one block 5, on the disk of the bitmap's example, gets two bytes.
use advance_synchronization.Base.{
  ℕ, ◌&&◌, ◌||◌, ◌+◌, ◌*◌, ◌/◌, ◌^◌, ltb, leb, ◌<◌, ◌≤◌, ◌≡◌, ◌≢◌, ◌⊎◌, refl, arith, some, none,
  pos, minus_one, true, false, if◌then◌else◌, ◌==◌, inl, inr,
}
use advance_synchronization.Log.{Disk, Log}
use advance_synchronization.Log.Append.{IsActive}
use advance_synchronization.Flock.{Flock, inactive}
use advance_synchronization.Blocks.{bit}
use advance_synchronization.Blocks.Search.{used}
use advance_synchronization.Inodes.{Inode}
use advance_synchronization.Inodes.Data.{inode_write, Devsw, bsize}
use advance_synchronization.Inodes.Volume.{IsVolume, IsData}
use advance_synchronization.Inodes.Entries.{entry, IsFile}
use advance_synchronization.Inodes.Saving.{IsSaved, inode_write_lem}
use advance_synchronization.Inodes.Reading.{Present}
use advance_synchronization.Inodes.Cache.{Slots, ninode, inode_get}
use advance_synchronization.Inodes.Slots.{IsUnique, IsSlotOf, IsGot, inode_get_lem}
use advance_synchronization.Inodes.Overwriting.{inode_write_returns}
use advance_synchronization.Examples.Bitmap.{
  with_bits, in_transaction, in_transaction-IsActive, laid_out, every, every_lem, one_bitmap_block,
}

-- Blocks 0 to 5 and the log.
abbrev pub bits : ℕ
bits = 63 + 31 * 2 ^ 15

abbrev pub idle_lock : Flock
idle_lock = record {
  state = inactive;
  shared_holders = 0;
  waiting_shared = 0;
  waiting_exclusive = 0;
  waitq = record { pids = λ i. 0; len = 0; inq = λ i. 0; req = λ i. 0 };
}

abbrev pub file : Inode
file = record {
  dev = 0;
  inum = 1;
  ref = 1;
  busy = true;
  valid = true;
  kind = 2;
  major = 0;
  minor = 0;
  nlink = 1;
  size = 3;
  addrs = λ i. if i == 0 then 5 else 0;
  flock = idle_lock;
}

abbrev pub no_devices : Devsw
no_devices = record { read = λ m. none; write = λ m. none }

table : every 20 (λ c. ltb 0 (used (with_bits bits) c) || (leb 6 c && ltb c 15)) ≡ true
unfolding every bit
table = refl

in_use : (c : ℕ) → c < 20 → (c < 6) ⊎ (15 ≤ c) → used (with_bits bits) c ≢ 0
in_use c h k =
    let e =
      every_lem 20 (λ x. ltb 0 (used (with_bits bits) x) || (leb 6 x && ltb x 15)) c table h in
    ground (arith, e)

pub volume : IsVolume 15 1 (with_bits bits)
volume = record {
  laid =
      laid_out bits (in_use 4 (omega arith) (inl (omega arith)))
        (in_use 1 (omega arith) (inl (omega arith)));
  start_le = omega arith;
  log_used = λ c a h. in_use c h (inr a);
  zero_used = in_use 0 (omega arith) (inl (omega arith));
  inode_used = in_use 2 (omega arith) (inl (omega arith));
  inode_known = omega arith;
  inode_before = omega arith;
}

five-IsData : IsData 15 1 (with_bits bits) 5
five-IsData = record {
  before = omega arith;
  in_use = in_use 5 (omega arith) (inl (omega arith));
  not_super = omega arith;
  not_bitmap = λ c h e. absurd (omega (arith, one_bitmap_block bits c h));
  not_inode = omega arith;
}

pub file_entry : (bn : ℕ) → entry (with_bits bits) file bn ≡ (if bn == 0 then 5 else 0)
file_entry bn = ground arith

pub ordered : IsFile 15 (with_bits bits) file
ordered = record {
  mapped = λ bn k z.
      let e = file_entry bn in
      let five : entry (with_bits bits) file bn ≡ 5 = ground arith in rw five five-IsData;
  indirect = λ z. absurd (z refl);
  distinct = λ m n i j z e. let p = file_entry m in let q = file_entry n in ground arith;
  apart = λ m i z e. z e;
}

pub begun : IsActive (with_bits bits) (with_bits bits) (in_transaction bits)
begun = in_transaction-IsActive bits

abbrev mem : ℕ → ℕ
mem i = i

first_block : Present (with_bits bits) file 2 2
first_block o a b = let e = file_entry (o / bsize) in (omega arith, ground arith)

abbrev after : (Log × Inode)
after =
    let (l', ip', _) =
      inode_write_returns no_devices (in_transaction bits) file mem 7 2 2 (omega arith) begun volume
        ordered refl first_block (omega arith, omega arith) in
    (l', ip')

written :
    inode_write no_devices (in_transaction bits) file mem 7 2 2 ≡ some (after.0, after.1, pos 2)
written =
    (inode_write_returns no_devices (in_transaction bits) file mem 7 2 2 (omega arith) begun volume
      ordered refl first_block (omega arith, omega arith)).2

inode_write_lem_example :
    ((false ≡ true) × (pos 2 ≡ minus_one) × (in_transaction bits ≡ after.0) × (file ≡ after.1))
    ⊎ ((false ≡ false)
        × (pos 2 ≡ pos 2)
        × (d' : Disk) × IsSaved
            (with_bits bits)
            (with_bits bits)
            (in_transaction bits)
            file
            (λ i. mem (7 + i))
            2
            2
            d'
            after.0
            after.1)
inode_write_lem_example =
    inode_write_lem no_devices (in_transaction bits) file mem 7 2 2 (omega arith) begun volume
      ordered after.0 after.1 (pos 2) written

-- The file stands in slot 0, and no other slot is in use.
abbrev slots : Slots
slots i = if i == 0 then file else record file { ref = 0 }

slots-IsUnique : IsUnique slots
slots-IsUnique = record { unique = λ i j a b p q r s. ground arith }

inode_get_lem_example :
    ((inode_get slots 0 7 ≡ none)
      × ((i : ℕ) → i < ninode → ((slots i).ref ≢ 0) × (¬ IsSlotOf slots 0 7 i)))
    ⊎ ((slots' : Slots) × (j : ℕ) × (inode_get slots 0 7 ≡ some (slots', j))
        × IsGot slots 0 7 slots' j)
inode_get_lem_example = inode_get_lem slots 0 7 slots-IsUnique

-- Slot 3 has the inode and has not read it.
abbrev unread : Slots
unread i = record file { busy = false; valid = false; size = 0; kind = 0 }
