-- ===== src/Examples/Calls.antt =====
-- The system calls of a process with two open descriptors, the first of which holds a shared lock.
use advance_synchronization.Base.{◌≡◌, ◌==◌, if◌then◌else◌, refl, arith, none, some, pos}
use advance_synchronization.Flock.{Flock, shared, flock_release, flock_acquire}
use advance_synchronization.File.{File, fd_inode, file_flock, file_flock_enter, file_flock_acquire}
use advance_synchronization.File.Requests.{requested}
use advance_synchronization.Descriptors.{
  Files, OpenFiles, fdalloc, sys_close, sys_flock, reply, e_succ,
}
use advance_synchronization.Descriptors.Locking.{Closed, sys_close_lem, sys_flock_succeeds}
use advance_synchronization.Examples.Run.{no_file, garbage_queue}

abbrev reader : File
reader = record no_file { kind = fd_inode; ref = 1; ip = 5; holding_flock = 1 }

abbrev one_reader : Flock
one_reader = record {
  state = shared;
  shared_holders = 1;
  waiting_shared = 0;
  waiting_exclusive = 0;
  waitq = garbage_queue;
}

-- Descriptors 0 and 2 lead to the entries 0 and 7.
abbrev two_files : OpenFiles
two_files d = if d == 0 then some 0 else if d == 2 then some 7 else none

abbrev files : Files
files = record { openfiles = two_files; table = λ g. reader; flock = λ i. one_reader }

second_slot : (fdalloc two_files 9).1 ≡ some 1
unfolding fdalloc
second_slot = refl

sys_close_lem_example :
    (u : Files) × (sys_close files (pos 2) ≡ some (u, reply e_succ (pos 0))) × Closed files u 2 7
sys_close_lem_example = sys_close_lem files (pos 2) 7 refl (λ e. absurd (omega arith))

sys_flock_succeeds_example : ((sys_flock files 3 (pos 0) 2).0.table 0).holding_flock ≡ requested 2
unfolding sys_flock file_flock file_flock_enter flock_release flock_acquire file_flock_acquire
sys_flock_succeeds_example = sys_flock_succeeds files 3 (pos 0) 2 0 refl refl
