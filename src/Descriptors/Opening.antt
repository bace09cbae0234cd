-- ===== src/Descriptors/Opening.antt =====
-- The end of `sys_open` gives the file a new entry and a free descriptor, or takes everything back.
use advance_synchronization.Base.{ℕ, ◌<◌, ◌≡◌, ◌≢◌, ◌⊎◌, none, some, update, pos, minus_one}
use advance_synchronization.Flock.{Flock}
use advance_synchronization.File.{File, FileTable, nfile, fd_none, fd_inode}
use advance_synchronization.System.Opens.{allocated}
use advance_synchronization.Descriptors.{
  Files, nofile, Reply, reply, e_succ, e_disk_op, may_read, may_write,
}

abbrev returned_entry : FileTable → ℕ → FileTable
returned_entry t f =
    update (update t f (allocated (t f))) f (record (allocated (t f)) { ref = 0; kind = fd_none })

-- The entry of a file that has just been opened.
abbrev pub opened_entry : File → ℕ → ℕ → File
opened_entry e ip omode = record e {
  kind = fd_inode;
  ref = 1;
  readable = may_read omode;
  writable = may_write omode;
  ip = ip;
  off = 0;
  holding_flock = 0;
}

pub record Opened (s u : Files) (ip omode fd f : ℕ) : Type 0 where
  pub slot : fd < nofile
  pub was_free : s.openfiles fd ≡ none
  pub descriptors : u.openfiles ≡ update s.openfiles fd (some f)
  pub entry_small : f < nfile
  pub unused : (s.table f).ref ≡ 0
  pub entry : u.table f ≡ opened_entry (s.table f) ip omode
  pub others : (g : ℕ) → g ≢ f → u.table g ≡ s.table g
  pub locks : u.flock ≡ s.flock

pub record Refused (s u : Files) : Type 0 where
  pub descriptors : u.openfiles ≡ s.openfiles
  pub references : (g : ℕ) → (u.table g).ref ≡ (s.table g).ref
  pub locks : (i : ℕ) → u.flock i ≡ s.flock i

module _ (s : Files) (ip omode : ℕ) where
  abbrev pub OpenResult : Files → Reply → Type 0
  OpenResult u r =
      ((fd : ℕ) × (f : ℕ) × (r ≡ reply e_succ (pos fd)) × Opened s u ip omode fd f)
      ⊎ ((r ≡ reply e_disk_op minus_one) × Refused s u)
