-- ===== src/Examples/Run.antt =====
-- A run of the lock engine: process 3 opens a file and takes an exclusive lock on it; process 4 opens
-- the same file, asks for an exclusive lock and sleeps; process 5, for a shared lock, sleeps too.
use advance_synchronization.Base.{refl, arith, true, false, update}
use advance_synchronization.WaitQueue.{WaitQueue}
use advance_synchronization.Flock.{Flock, flock_init, shared, lock_ex, lock_sh, flock_acquire}
use advance_synchronization.File.{File, fd_none, file_alloc, file_flock_enter, file_flock_acquire}
use advance_synchronization.System.{
  System, running, Step, opens, enters, obtains, boot, Reach, start, next, open_entry, enter,
  obtain, close, closes,
}

abbrev pub no_file : File
no_file = record {
  kind = fd_none;
  ref = 0;
  readable = false;
  writable = false;
  ip = 0;
  off = 0;
  holding_flock = 0;
}

abbrev pub garbage_queue : WaitQueue
garbage_queue = record { pids = λ i. 7; len = 9; inq = λ i. 1; req = λ i. 1 }

abbrev pub garbage_lock : Flock
garbage_lock = record {
  state = shared;
  shared_holders = 6;
  waiting_shared = 6;
  waiting_exclusive = 6;
  waitq = garbage_queue;
}

abbrev pub booted : System
booted = record { file = λ f. no_file; flock = λ i. flock_init garbage_lock; pc = λ p. running }

abbrev pub reference : File
reference = record no_file { ref = 1 }

abbrev pub one_open : System
one_open = record booted { file = open_entry (update booted.file 0 reference) 0 5 true true }

abbrev pub two_open : System
two_open = record one_open { file = open_entry (update one_open.file 1 reference) 1 5 true true }

abbrev pub three_open : System
three_open = record two_open { file = open_entry (update two_open.file 2 reference) 2 5 true false }

abbrev pub writing : System
writing = obtain (enter three_open 3 0 lock_ex) 3 0 lock_ex

abbrev pub one_waits : System
one_waits = obtain (enter writing 4 1 lock_ex) 4 1 lock_ex

abbrev pub two_wait : System
two_wait = obtain (enter one_waits 5 2 lock_sh) 5 2 lock_sh

abbrev pub released : System
released = close two_wait 0

booted-Reach : Reach booted
booted-Reach = start (boot (λ f. no_file) (λ i. garbage_lock) (λ f. refl))

one_open-Reach : Reach one_open
unfolding file_alloc
one_open-Reach = next booted-Reach (opens 0 5 true true refl)

two_open-Reach : Reach two_open
unfolding file_alloc open_entry
two_open-Reach = next one_open-Reach (opens 1 5 true true refl)

three_open-Reach : Reach three_open
unfolding file_alloc open_entry
three_open-Reach = next two_open-Reach (opens 2 5 true false refl)

enters_3 : Reach (enter three_open 3 0 lock_ex)
unfolding open_entry
enters_3 =
    next three_open-Reach
      (enters 3 0 lock_ex (omega arith) (omega arith) refl (λ e. absurd (omega arith)) (λ q. refl))

pub writing-Reach : Reach writing
unfolding enter open_entry file_flock_enter
writing-Reach = next enters_3 (obtains 3 0 lock_ex (omega arith) refl)

enters_4 : Reach (enter writing 4 1 lock_ex)
unfolding open_entry enter obtain file_flock_enter file_flock_acquire flock_acquire flock_init
enters_4 = next writing-Reach (
    enters 4 1 lock_ex (omega arith) (omega arith) refl (λ e. absurd (omega arith))
      (λ q. ground arith))

pub one_waits-Reach : Reach one_waits
unfolding enter obtain open_entry file_flock_enter file_flock_acquire flock_acquire flock_init
one_waits-Reach = next enters_4 (obtains 4 1 lock_ex (omega arith) refl)

enters_5 : Reach (enter one_waits 5 2 lock_sh)
unfolding open_entry enter obtain file_flock_enter file_flock_acquire flock_acquire flock_init
enters_5 = next one_waits-Reach (
    enters 5 2 lock_sh (omega arith) (omega arith) refl (λ e. absurd (omega arith))
      (λ q. ground arith))

pub two_wait-Reach : Reach two_wait
unfolding enter obtain open_entry file_flock_enter file_flock_acquire flock_acquire flock_init
two_wait-Reach = next enters_5 (obtains 5 2 lock_sh (omega arith) refl)

-- Process 3 closes its file: both sleepers are woken.
pub closing : Step two_wait (close two_wait 0)
unfolding open_entry enter obtain file_flock_enter file_flock_acquire flock_acquire flock_init
closing = closes 0 (omega arith) (λ e. absurd (omega arith)) (λ q. ground arith)

pub released-Reach : Reach released
released-Reach = next two_wait-Reach closing
