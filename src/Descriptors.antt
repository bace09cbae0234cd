-- ===== src/Descriptors.antt =====
-- File descriptors of a process: `fdalloc`, the end of `sys_open`, `sys_close` and `sys_flock` of
-- mcertikos/kern/fs/sysfile.c, each as a whole call that no other process interrupts.
pub mod Slots
pub mod Opening
pub mod Locking
use advance_synchronization.Base.{
  ℕ, zero, suc, ◌+◌, ◌-◌, ◌*◌, ◌/◌, ◌%◌, ◌==◌, ltb, leb, if◌then◌else◌, Bool, true, false, not,
  ◌&&◌, ◌||◌, ℤ, pos, negsuc, minus_one, Option, none, some, update,
}
use advance_synchronization.Flock.{Flock, Outcome, returned, asleep}
use advance_synchronization.File.{
  File, FileTable, file_alloc, file_close_entry, file_close_lock, Closing, still_open, last_close,
  file_flock, is_zero,
}
use advance_synchronization.System.{open_entry}

-- NOFILE of kern/fs/params.h.
abbrev pub nofile : ℕ
nofile = 16

-- `openfiles` of the current thread: a descriptor is NULL or leads to an entry of the file table.
abbrev pub OpenFiles : Type 0
OpenFiles = ℕ → Option ℕ

-- The loop of `fdalloc` from descriptor `fd` on, with `n` left; `none` is -1.
unfoldable pub fdalloc_from : ℕ → ℕ → OpenFiles → ℕ → OpenFiles × Option ℕ
fdalloc_from zero fd o f = (o, none)
fdalloc_from (suc n) fd o f =
    let rest = fdalloc_from n (fd + 1) o f in
    elim (o fd) [ none ↦ (update o fd (some f), some fd) | some g ↦ rest ]

unfoldable pub fdalloc : OpenFiles → ℕ → OpenFiles × Option ℕ
unfolding fdalloc_from
fdalloc o f = fdalloc_from nofile 0 o f

-- The descriptors of the process, the file table, and the locks in the inode cache.
pub record Files : Type 0 where
  pub openfiles : OpenFiles
  pub table : FileTable
  pub flock : ℕ → Flock

-- `file_close`; `none` is KERN_PANIC.
unfoldable pub file_close : FileTable → (ℕ → Flock) → ℕ → Option (FileTable × (ℕ → Flock))
file_close t fl f = elim (file_close_entry t f) [
  | Closing.panic ↦ none
  | still_open u ↦ some (u, fl)
  | last_close ff u ↦
      let (lock, woke) = file_close_lock ff (fl ff.ip) in some (u, update fl ff.ip lock)
]

-- `!(omode & O_WRONLY)`, and `(omode & O_WRONLY) || (omode & O_RDWR)`: the flags are bits 0 and 1.
abbrev pub may_read : ℕ → Bool
may_read omode = omode % 2 == 0

abbrev pub may_write : ℕ → Bool
may_write omode = not (omode % 2 == 0) || not (omode / 2 % 2 == 0)

-- The error numbers and values that the calls return.
pub data Errno : Type 0 where
  e_succ e_badf e_inval_addr e_disk_op : Errno

pub record Reply : Type 0 where
  pub errno : Errno
  pub retval : ℤ

abbrev pub reply : Errno → ℤ → Reply
reply e r = record { errno = e; retval = r }

-- `sys_open` from `file_alloc` on, for the inode `ip`; `none` is the panic of a `file_close`.
unfoldable pub sys_open_file : Files → ℕ → ℕ → Option (Files × Reply)
sys_open_file s ip omode = elim (file_alloc s.table) [
  | none ↦ some (s, reply e_disk_op minus_one)
  | some (f, t) ↦
      let (o, fd) = fdalloc s.openfiles f in
      elim fd [
        | some n ↦ some (
          record s { openfiles = o; table = open_entry t f ip (may_read omode) (may_write omode) },
          reply e_succ (pos n),
        )
        | none ↦ elim (file_close t s.flock f) [
          | none ↦ none
          | some (u, fl) ↦
              some (record { openfiles = o; table = u; flock = fl }, reply e_disk_op minus_one)
        ]
      ]
]

-- `0 <= fd && fd < NOFILE` for an int.
abbrev pub is_fd : ℤ → Bool
is_fd (pos n) = ltb n nofile
is_fd (negsuc n) = false

abbrev pub magnitude : ℤ → ℕ
magnitude (pos n) = n
magnitude (negsuc n) = n

-- The entry of a descriptor that a caller gave.
abbrev pub lookup : Files → ℤ → Option ℕ
lookup s fd = if is_fd fd then s.openfiles (magnitude fd) else none

unfoldable pub sys_close : Files → ℤ → Option (Files × Reply)
sys_close s fd = elim (lookup s fd) [
  | none ↦ some (s, reply e_badf minus_one)
  | some f ↦
      if ltb (s.table f).ref 1
      then some (s, reply e_badf minus_one)
      else elim (file_close s.table s.flock f) [
        | none ↦ none
        | some (u, fl) ↦ some (
          record { openfiles = update s.openfiles (magnitude fd) none; table = u; flock = fl },
          reply e_succ (pos 0),
        )
      ]
]

-- The reply of `sys_flock`; `none` where the caller sleeps.
abbrev pub answer : Outcome → Option Reply
answer asleep = none
answer (returned r) =
    some (if is_zero r then reply e_succ (pos 0) else reply e_inval_addr minus_one)

-- `sys_flock` by process `pid`, and whether it wakes sleepers.
unfoldable pub sys_flock : Files → ℕ → ℤ → ℕ → Files × Bool × Option Reply
sys_flock s pid fd operation = elim (lookup s fd) [
  | none ↦ (s, false, some (reply e_badf minus_one))
  | some f ↦
      let i = (s.table f).ip in
      let (entry, lock, woke, out) = file_flock (s.table f) (s.flock i) pid operation in
      (record s { table = update s.table f entry; flock = update s.flock i lock }, woke, answer out)
]
