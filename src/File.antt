-- ===== src/File.antt =====
-- The file table of mcertikos/kern/fs/file.c and what it does with file locks. A call of `file_flock`
-- consists of at most two sections of the lock engine, with other processes free to run between.
pub mod Requests
use advance_synchronization.Base.{
  ℕ, zero, suc, ◌+◌, ◌-◌, ◌==◌, ltb, if◌then◌else◌, Bool, true, false, not, ℤ, pos, negsuc,
  minus_one, Option, none, some, update,
}
use advance_synchronization.Flock.{
  Flock, Outcome, returned, asleep, lock_type, lock_un, flock_acquire, flock_resume, flock_release,
}

-- NFILE of kern/fs/params.h.
abbrev pub nfile : ℕ
nfile = 100

pub data FileKind : Type 0 where
  fd_none fd_pipe fd_inode : FileKind

-- `struct file`; `ip` is the number of the slot of the inode cache.
pub record File : Type 0 where
  pub kind : FileKind
  pub ref : ℕ
  pub readable : Bool
  pub writable : Bool
  pub ip : ℕ
  pub off : ℕ
  pub holding_flock : ℕ

abbrev pub FileTable : Type 0
FileTable = ℕ → File

abbrev pub is_inode : FileKind → Bool
is_inode fd_inode = true
is_inode _ = false

-- The loop of `file_alloc` from slot `f` on, with `n` slots left.
unfoldable pub alloc_from : ℕ → ℕ → FileTable → Option (ℕ × FileTable)
alloc_from zero f t = none
alloc_from (suc n) f t =
    let rest = alloc_from n (f + 1) t in
    if (t f).ref == 0
    then some (f, update t f (record (t f) { ref = 1; holding_flock = 0 }))
    else rest

unfoldable pub file_alloc : FileTable → Option (ℕ × FileTable)
unfolding alloc_from
file_alloc t = alloc_from nfile 0 t

-- `none` is KERN_PANIC.
unfoldable pub file_dup : FileTable → ℕ → Option FileTable
file_dup t f =
    if ltb (t f).ref 1 then none else some (update t f (record (t f) { ref = (t f).ref + 1 }))

pub data Closing : Type 0 where
  panic : Closing
  still_open : FileTable → Closing
  last_close : File → FileTable → Closing

-- The part of `file_close` under `ftable.lock`; `last_close` has the copy `ff`.
unfoldable pub file_close_entry : FileTable → ℕ → Closing
file_close_entry t f =
    if ltb (t f).ref 1
    then panic
    else if ltb 0 ((t f).ref - 1)
    then still_open (update t f (record (t f) { ref = (t f).ref - 1 }))
    else last_close (record (t f) { ref = (t f).ref - 1 })
        (update t f (record (t f) { ref = 0; kind = fd_none }))

-- The release of a held lock by the last close, with whether it wakes the sleepers.
unfoldable pub file_close_lock : File → Flock → Flock × Bool
file_close_lock ff fl =
    if is_inode ff.kind
    then if not (ff.holding_flock == 0)
      then (let (fl', woke, r) = flock_release fl ff.holding_flock in (fl', woke))
      else (fl, false)
    else (fl, false)

-- What `file_flock` does after its first section: return, or go on to `flock_acquire`.
pub data Next : Type 0 where
  finish : ℤ → Next
  acquire : Next

abbrev pub is_zero : ℤ → Bool
is_zero (pos n) = n == 0
is_zero (negsuc n) = false

-- `file_flock` up to the call of `flock_acquire`: the checks, LOCK_UN, and the release of a lock of
-- the other kind.
unfoldable pub file_flock_enter : File → Flock → ℕ → File × Flock × Bool × Next
file_flock_enter f fl operation =
    if not (is_inode f.kind)
    then (f, fl, false, finish minus_one)
    else if lock_type operation == lock_un
    then if not (f.holding_flock == 0)
      then (let (fl', woke, r) = flock_release fl f.holding_flock in
          (if is_zero r then record f { holding_flock = 0 } else f, fl', woke, finish r))
      else (f, fl, false, finish (pos 0))
    else if not (f.holding_flock == 0)
    then if f.holding_flock == lock_type operation
      then (f, fl, false, finish (pos 0))
      else (let (fl', woke, r) = flock_release fl f.holding_flock in
          (record f { holding_flock = 0 }, fl', woke, acquire))
    else (f, fl, false, acquire)

-- `if (result == 0) f->holding_flock = lock_type;`
abbrev pub keep_lock : File → ℕ → Outcome → File
keep_lock f operation (returned r) =
    if is_zero r then record f { holding_flock = lock_type operation } else f
keep_lock f operation asleep = f

unfoldable pub file_flock_acquire : File → Flock → ℕ → ℕ → File × Flock × Outcome
file_flock_acquire f fl pid operation =
    let (fl', out) = flock_acquire fl pid operation in (keep_lock f operation out, fl', out)

unfoldable pub file_flock_resume : File → Flock → ℕ → ℕ → File × Flock × Outcome
file_flock_resume f fl pid operation =
    let (fl', out) = flock_resume fl pid operation in (keep_lock f operation out, fl', out)

-- The whole call, where no other process runs between its sections.
unfoldable pub file_flock : File → Flock → ℕ → ℕ → File × Flock × Bool × Outcome
file_flock f fl pid operation =
    let (f', fl', woke, next) = file_flock_enter f fl operation in
    elim next [
      | finish r ↦ (f', fl', woke, returned r)
      | acquire ↦
          let (f'', fl'', out) = file_flock_acquire f' fl' pid operation in (f'', fl'', woke, out)
    ]
