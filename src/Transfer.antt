-- ===== src/Transfer.antt =====
-- `file_read` and `file_write` of mcertikos/kern/fs/file.c, over the inode layer, which reads and writes a
-- file at an offset. A call of `file_write` is a sequence of transactions of the log.
pub mod Chunks
use advance_synchronization.Base.{
  ℕ, zero, suc, ◌+◌, ◌-◌, ◌*◌, ◌/◌, ◌<◌, ◌==◌, ◌%◌, ◌^◌, ltb, if◌then◌else◌, Bool, true, false, not,
  ℤ, pos, negsuc, minus_one, Option, none, some,
}
use advance_synchronization.File.{File, is_inode}

-- LOGSIZE of kern/fs/params.h, and the bound `max` of one transaction.
abbrev pub logsize : ℕ
logsize = 10

abbrev pub max_chunk : ℕ
max_chunk = (logsize - 1 - 1 - 2) / 2 * 512

-- `n1`, where `left` is `n - i`.
unfoldable pub chunk : ℕ → ℕ
chunk left = if ltb max_chunk left then max_chunk else left

-- What the functions use of inodes and the log: `inode_read` and `inode_write` get the inode, the address,
-- the offset and the size, and answer the number of bytes that they move or a negative number.
pub record InodeLayer (Disk : Type 0) : Type 0 where
  pub begin_trans : Disk → Disk
  pub commit_trans : Disk → Disk
  pub inode_read : Disk → ℕ → ℕ → ℕ → ℤ → Disk × ℤ
  pub inode_write : Disk → ℕ → ℕ → ℕ → ℕ → Disk × ℤ

-- `if (r > 0) f->off += r;`
unfoldable pub advance : File → ℤ → File
advance f (pos r) = record f { off = (f.off + r) % 2 ^ 32 }
advance f (negsuc r) = f

-- How a call ends; `panic` is KERN_PANIC.
pub data Ending (Disk : Type 0) : Type 0 where
  panic : Ending Disk
  done : Disk → File → ℤ → Ending Disk

module _ {Disk : Type 0} (layer : InodeLayer Disk) where
  unfoldable pub file_read : Disk → File → ℕ → ℤ → Ending Disk
  file_read d f addr n =
      if not f.readable
      then done d f minus_one
      else if is_inode f.kind
      then (let (d', r) = layer.inode_read d f.ip addr f.off n in done d' (advance f r) r)
      else panic

  -- The loop of `file_write` with `i` bytes written and `left` to write, with at most `k` rounds.
  unfoldable pub write_from : ℕ → Disk → File → ℕ → ℕ → ℕ → Ending Disk
  write_from zero d f addr i left = done d f minus_one
  write_from (suc k) d f addr i left =
      let n1 = chunk left in
      let (d', r) = layer.inode_write (layer.begin_trans d) f.ip (addr + i) f.off n1 in
      let f' = advance f r in
      let rest = write_from k (layer.commit_trans d') f' addr (i + n1) (left - n1) in
      if ltb 0 left
      then elim r [
        | negsuc _ ↦ done (layer.commit_trans d') f' minus_one
        | pos w ↦ if w == n1 then rest else panic
      ]
      else done d f (pos i)

  -- `n + 1` rounds suffice, since every round but the last writes a byte.
  unfoldable pub file_write : Disk → File → ℕ → ℤ → Ending Disk
  file_write d f addr n =
      if not f.writable
      then done d f minus_one
      else if is_inode f.kind
      then elim n [ pos m ↦ write_from (suc m) d f addr 0 m | negsuc _ ↦ done d f minus_one ]
      else panic
