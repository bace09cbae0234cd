-- ===== src/File/Requests.antt =====
-- What a whole call of `file_flock` does for its caller.
use advance_synchronization.Base.{ℕ, ◌≡◌, ◌≢◌, arith, ◌==◌, if◌then◌else◌, ◌⊎◌, pos, minus_one}
use advance_synchronization.Flock.{
  Flock, returned, asleep, lock_type, lock_sh, lock_ex, lock_un, nonblocking, flock_acquire,
  flock_release,
}
use advance_synchronization.Flock.Counts.{blocked}
use advance_synchronization.File.{File, fd_inode, file_flock, file_flock_enter, file_flock_acquire}

-- The lock that an entry holds after a call that succeeds.
abbrev pub requested : ℕ → ℕ
requested operation = if lock_type operation == lock_un then 0 else lock_type operation

-- A call of `file_flock` that returns 0 leaves the entry holding the type of lock asked for, and none after
-- an unlock, whatever it held before.
pub flock_succeeds :
    (f : File) (fl : Flock) (pid operation : ℕ)
    → (file_flock f fl pid operation).3 ≡ returned (pos 0)
    → (file_flock f fl pid operation).0.holding_flock ≡ requested operation
unfolding file_flock file_flock_enter file_flock_acquire flock_release
flock_succeeds f fl pid operation h = ground arith

-- A call that is not an unlock and returns -1 for a file leaves the entry with no lock: one that it held
-- before the call has been released.
pub flock_fails :
    (f : File) (fl : Flock) (pid operation : ℕ)
    → f.kind ≡ fd_inode
    → lock_type operation ≢ lock_un
    → (file_flock f fl pid operation).3 ≡ returned minus_one
    → (file_flock f fl pid operation).0.holding_flock ≡ 0
unfolding file_flock file_flock_enter file_flock_acquire
flock_fails f fl pid operation k u h = ground arith

-- The engine grants a request for a lock of either type at once, with result 0, just when the caller
-- does not have to wait for it; a caller that has to wait is put to sleep without the flag LOCK_NB, and
-- gets -1 with it.
pub nonblocking_lem :
    (fl : Flock) (pid operation : ℕ)
    → (lock_type operation ≡ lock_sh) ⊎ (lock_type operation ≡ lock_ex)
    → (flock_acquire fl pid operation).1 ≡ (
        if blocked (lock_type operation) fl
        then if nonblocking operation then returned minus_one else asleep
        else returned (pos 0))
unfolding flock_acquire
nonblocking_lem fl pid operation t = ground arith
