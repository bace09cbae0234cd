-- ===== src/Flock.antt =====
-- The lock engine of mcertikos/kern/flock/flock.c over `flock_t` of mcertikos/kern/flock/flock.h.
-- Each function here is one section of code that runs with `fl->lock` held: from the acquire of the
-- spinlock, or from the wake-up inside `thread_sleep`, to its release or to the next `thread_sleep`.
pub mod Counts
use advance_synchronization.Base.{
  ℕ, ◌+◌, ◌-◌, ◌*◌, ◌/◌, ◌%◌, ◌==◌, ltb, if◌then◌else◌, Bool, true, false, not, ◌&&◌, ◌||◌, ℤ, pos,
  minus_one,
}
use advance_synchronization.WaitQueue.{WaitQueue, waitq_add, waitq_remove, waitq_init}

-- `enum flock_state`.
pub data LockState : Type 0 where
  inactive shared exclusive : LockState

-- `flock_t`, but for the spinlock: the sections of this file run one at a time.
pub record Flock : Type 0 where
  pub state : LockState
  pub shared_holders : ℕ
  pub waiting_shared : ℕ
  pub waiting_exclusive : ℕ
  pub waitq : WaitQueue

abbrev pub lock_sh : ℕ
lock_sh = 1

abbrev pub lock_ex : ℕ
lock_ex = 2

abbrev pub lock_nb : ℕ
lock_nb = 4

abbrev pub lock_un : ℕ
lock_un = 8

-- `(operation & LOCK_NB) != 0`: LOCK_NB is bit 2.
abbrev pub nonblocking : ℕ → Bool
nonblocking operation = not (operation / lock_nb % 2 == 0)

-- `operation & ~LOCK_NB`.
abbrev pub lock_type : ℕ → ℕ
lock_type operation = operation - operation / lock_nb % 2 * lock_nb

-- How a section ends: the call returns, or its process sleeps on the lock.
pub data Outcome : Type 0 where
  returned : ℤ → Outcome
  asleep : Outcome

abbrev pub is_inactive : LockState → Bool
is_inactive inactive = true
is_inactive _ = false

abbrev pub is_shared : LockState → Bool
is_shared shared = true
is_shared _ = false

abbrev pub is_exclusive : LockState → Bool
is_exclusive exclusive = true
is_exclusive _ = false

unfoldable pub flock_init : Flock → Flock
flock_init fl = record {
  state = inactive;
  shared_holders = 0;
  waiting_shared = 0;
  waiting_exclusive = 0;
  waitq = waitq_init fl.waitq;
}

-- The test of `try_acquire_shared`, before it sleeps and after each wake-up.
abbrev pub shared_blocked : Flock → Bool
shared_blocked fl = is_exclusive fl.state || ltb 0 fl.waiting_exclusive

-- The test of `try_acquire_exclusive`.
abbrev pub exclusive_blocked : Flock → Bool
exclusive_blocked fl = not (is_inactive fl.state)

abbrev pub take_shared : Flock → Flock
take_shared fl = record fl { state = shared; shared_holders = fl.shared_holders + 1 }

abbrev pub take_exclusive : Flock → Flock
take_exclusive fl = record fl { state = exclusive }

-- The `while` of `try_acquire_shared`, with what follows it.
unfoldable pub wait_shared : Flock → ℕ → Flock × Outcome
wait_shared fl pid = if shared_blocked fl then (fl, asleep) else (
  take_shared
      (record fl { waiting_shared = fl.waiting_shared - 1; waitq = waitq_remove fl.waitq pid }),
  returned (pos 0),
)

unfoldable pub try_acquire_shared : Flock → ℕ → Bool → Flock × Outcome
unfolding wait_shared
try_acquire_shared fl pid nb =
    if shared_blocked fl
    then if nb
      then (fl, returned minus_one)
      else wait_shared
          (record fl {
            waitq = waitq_add fl.waitq pid lock_sh;
            waiting_shared = fl.waiting_shared + 1;
          })
          pid
    else (take_shared fl, returned (pos 0))

-- The `while` of `try_acquire_exclusive`, with what follows it.
unfoldable pub wait_exclusive : Flock → ℕ → Flock × Outcome
wait_exclusive fl pid = if exclusive_blocked fl then (fl, asleep) else (
  take_exclusive (record fl {
    waiting_exclusive = fl.waiting_exclusive - 1;
    waitq = waitq_remove fl.waitq pid;
  }),
  returned (pos 0),
)

unfoldable pub try_acquire_exclusive : Flock → ℕ → Bool → Flock × Outcome
unfolding wait_exclusive
try_acquire_exclusive fl pid nb =
    if exclusive_blocked fl
    then if nb
      then (fl, returned minus_one)
      else wait_exclusive
          (record fl {
            waitq = waitq_add fl.waitq pid lock_ex;
            waiting_exclusive = fl.waiting_exclusive + 1;
          })
          pid
    else (take_exclusive fl, returned (pos 0))

unfoldable pub flock_acquire : Flock → ℕ → ℕ → Flock × Outcome
unfolding try_acquire_shared try_acquire_exclusive
flock_acquire fl pid operation =
    if lock_type operation == lock_sh
    then try_acquire_shared fl pid (nonblocking operation)
    else if lock_type operation == lock_ex
    then try_acquire_exclusive fl pid (nonblocking operation)
    else if lock_type operation == lock_un
    then (fl, returned (pos 0))
    else (fl, returned minus_one)

-- A sleeper of `flock_acquire` runs again, inside the call that it left.
unfoldable pub flock_resume : Flock → ℕ → ℕ → Flock × Outcome
unfolding wait_shared wait_exclusive
flock_resume fl pid operation =
    if lock_type operation == lock_sh then wait_shared fl pid else wait_exclusive fl pid

-- The new lock, whether `thread_wakeup(fl)` is called, and the result.
unfoldable pub flock_release : Flock → ℕ → Flock × Bool × ℤ
flock_release fl type =
    if type == lock_sh
    then if is_shared fl.state && ltb 0 fl.shared_holders
      then if fl.shared_holders - 1 == 0
        then (record fl { shared_holders = fl.shared_holders - 1; state = inactive }, true, pos 0)
        else (record fl { shared_holders = fl.shared_holders - 1 }, false, pos 0)
      else (fl, false, pos 0)
    else if type == lock_ex
    then if is_exclusive fl.state
      then (record fl { state = inactive }, true, pos 0)
      else (fl, false, pos 0)
    else (fl, false, minus_one)
