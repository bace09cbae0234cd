-- ===== src/System.antt =====
-- Processes that open, close and lock files in any order: the file table, the lock in each slot of the
-- inode cache, and where each process stands in `sys_flock` (mcertikos/kern/fs/sysfile.c). A step is
-- one section that runs with `fl->lock` held, or a call that touches no lock.
pub mod Views
pub mod Calls
pub mod Entries
pub mod Opens
pub mod Locks
pub mod Releases
pub mod Invariant
pub mod Others
pub mod Reachable
pub mod Safety
pub mod Liveness
pub mod Priority
pub mod Queues
pub mod Waiting
use advance_synchronization.Base.{
  ℕ, ◌<◌, ◌==◌, ◌≡◌, ◌≢◌, if◌then◌else◌, Bool, true, false, not, ◌&&◌, ◌||◌, Option, some, update,
}
use advance_synchronization.WaitQueue.{num_ids}
use advance_synchronization.Flock.{
  Flock, flock_init, Outcome, returned, asleep, lock_type, lock_sh, lock_ex, lock_un,
}
use advance_synchronization.File.{
  FileTable, nfile, File, fd_inode, file_alloc, file_dup, file_close_entry, Closing, still_open,
  last_close, file_close_lock, Next, finish, acquire, file_flock_enter, file_flock_acquire,
  file_flock_resume,
}

-- Where a process stands. A sleeper on the lock of inode `i` is `woken` from the `thread_wakeup` on its lock until it runs.
pub data Pc : Type 0 where
  running : Pc
  acquiring : (f operation : ℕ) → Pc
  waiting : (f i operation : ℕ) (woken : Bool) → Pc

pub record System : Type 0 where
  pub file : FileTable
  pub flock : ℕ → Flock
  pub pc : ℕ → Pc

-- `thread_wakeup(fl)` at the lock of inode `i`: every process that sleeps on it may run again.
abbrev pub wake : ℕ → Pc → Pc
wake i running = running
wake i (acquiring f operation) = acquiring f operation
wake i (waiting f j operation woken) = waiting f j operation (i == j || woken)

abbrev pub wake_if : Bool → ℕ → (ℕ → Pc) → ℕ → Pc
wake_if woke i pc q = if woke then wake i (pc q) else pc q

-- The process is inside a call on that file.
abbrev pub inside : Pc → ℕ → Bool
inside running f = false
inside (acquiring g operation) f = g == f
inside (waiting g i operation woken) f = g == f

abbrev pub after_enter : Next → ℕ → ℕ → Pc
after_enter (finish r) f operation = running
after_enter acquire f operation = acquiring f operation

abbrev pub after_acquire : Outcome → ℕ → ℕ → ℕ → Pc
after_acquire (returned r) f i operation = running
after_acquire asleep f i operation = waiting f i operation false

unfoldable pub enter : System → ℕ → ℕ → ℕ → System
enter s p f operation =
    let i = (s.file f).ip in
    let (f', fl', woke, next) = file_flock_enter (s.file f) (s.flock i) operation in
    record {
      file = update s.file f f';
      flock = update s.flock i fl';
      pc = update (wake_if woke i s.pc) p (after_enter next f operation);
    }

unfoldable pub obtain : System → ℕ → ℕ → ℕ → System
obtain s p f operation =
    let i = (s.file f).ip in
    let (f', fl', out) = file_flock_acquire (s.file f) (s.flock i) p operation in
    record {
      file = update s.file f f';
      flock = update s.flock i fl';
      pc = update s.pc p (after_acquire out f i operation);
    }

unfoldable pub resume : System → ℕ → ℕ → ℕ → ℕ → System
resume s p f i operation =
    let (f', fl', out) = file_flock_resume (s.file f) (s.flock i) p operation in
    record {
      file = update s.file f f';
      flock = update s.flock i fl';
      pc = update s.pc p (after_acquire out f i operation);
    }

-- The end of `sys_open`, for inode `i` and the new entry `f`.
unfoldable pub open_entry : FileTable → ℕ → ℕ → Bool → Bool → FileTable
open_entry t f i readable writable =
    update t f
      (record (t f) { kind = fd_inode; ip = i; off = 0; readable = readable; writable = writable })

unfoldable pub close : System → ℕ → System
close s f = elim (file_close_entry s.file f) [
  | Closing.panic ↦ s
  | still_open t ↦ record s { file = t }
  | last_close ff t ↦
      let (fl', woke) = file_close_lock ff (s.flock ff.ip) in
      record { file = t; flock = update s.flock ff.ip fl'; pc = wake_if woke ff.ip s.pc }
]

-- A `struct file` is reached through the descriptors of one process, and a process is in one call at a
-- time: so no call on `f` begins while a process is inside one.
abbrev pub Unused : System → ℕ → Type 0
Unused s f = (q : ℕ) → inside (s.pc q) f ≡ false

-- No open file has the inode in slot `i`, so that `inode_get` may take the slot for another.
abbrev pub Unreferenced : System → ℕ → Type 0
Unreferenced s i = (f : ℕ) → (s.file f).ref ≢ 0 → (s.file f).ip ≢ i

pub data Step (s : System) : System → Type 0 where
  opens :
      (f i : ℕ) {t : FileTable} (readable writable : Bool)
      → file_alloc s.file ≡ some (f, t)
      → Step s (record s { file = open_entry t f i readable writable })
  duplicates :
      (f : ℕ) {t : FileTable}
      → f < nfile
      → Unused s f
      → file_dup s.file f ≡ some t
      → Step s (record s { file = t })
  closes : (f : ℕ) → f < nfile → (s.file f).ref ≢ 0 → Unused s f → Step s (close s f)
  enters :
      (p f operation : ℕ)
      → p < num_ids
      → f < nfile
      → s.pc p ≡ running
      → (s.file f).ref ≢ 0
      → Unused s f
      → Step s (enter s p f operation)
  obtains :
      (p f operation : ℕ)
      → p < num_ids
      → s.pc p ≡ acquiring f operation
      → Step s (obtain s p f operation)
  resumes :
      (p f i operation : ℕ)
      → p < num_ids
      → s.pc p ≡ waiting f i operation true
      → Step s (resume s p f i operation)
  recycles :
      (i : ℕ)
      → Unreferenced s i
      → Step s (record s { flock = update s.flock i (flock_init (s.flock i)) })

-- After boot: no file is open, no process is inside a call, and every lock has been initialised.
pub data Boot : System → Type 0 where
  boot :
      (t : FileTable) (fl : ℕ → Flock)
      → ((f : ℕ) → (t f).ref ≡ 0)
      → Boot (record { file = t; flock = λ i. flock_init (fl i); pc = λ p. running })

pub data Reach : System → Type 0 where
  start : {s : System} → Boot s → Reach s
  next : {s t : System} → Reach s → Step s t → Reach t
