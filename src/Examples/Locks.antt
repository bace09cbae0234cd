-- ===== src/Examples/Locks.antt =====
-- The theorems on reachable states at the states of the run.
use advance_synchronization.Base.{
  ℕ, count-pos, ◌≡◌, ◌≢◌, ◌<◌, ◌≤◌, refl, arith, ◌⊎◌, inr, count, bit, pos, [], ◌∷◌, true,
}
use advance_synchronization.WaitQueue.{num_ids, waitq_add, waitq_init}
use advance_synchronization.WaitQueue.Order.{contents, occurrences}
use advance_synchronization.Flock.{
  lock_ex, flock_init, lock_sh, returned, flock_acquire, flock_resume, flock_release, Flock, shared,
  is_inactive,
}
use advance_synchronization.File.{
  nfile, File, fd_inode, file_flock, file_flock_enter, file_flock_acquire, file_close_entry,
  file_close_lock,
}
use advance_synchronization.Flock.Counts.{Counts, Holds, Resumed, release-Counts, resume-Resumed}
use advance_synchronization.File.Requests.{flock_fails}
use advance_synchronization.System.{waiting, enter, obtain, open_entry, close}
use advance_synchronization.System.Views.{holds, waits}
use advance_synchronization.System.Queues.{waits_at}
use advance_synchronization.System.Safety.{mutual_exclusion, counters_exact}
use advance_synchronization.System.Liveness.{no_deadlock}
use advance_synchronization.System.Priority.{writer_priority}
use advance_synchronization.System.Waiting.{queue_exact}
use advance_synchronization.Examples.Run.{
  writing-Reach, two_wait, two_wait-Reach, released, released-Reach, closing, no_file,
}

mutual_exclusion_example : ◌≡◌ {A = ℕ} 0 0
unfolding enter obtain open_entry file_flock_enter file_flock_acquire flock_acquire flock_init
mutual_exclusion_example =
    mutual_exclusion writing-Reach 0 0 (λ e. absurd (omega arith)) (λ e. absurd (omega arith)) refl
      refl (λ e. absurd (omega arith))

counters_exact_example :
    ((two_wait.flock 5).shared_holders ≡ count nfile (holds two_wait.file 5 lock_sh))
    × Holds
        (two_wait.flock 5).state
        (count nfile (holds two_wait.file 5 lock_sh))
        (count nfile (holds two_wait.file 5 lock_ex))
    × ((two_wait.flock 5).waiting_shared ≡ count num_ids (λ p. waits 5 lock_sh (two_wait.pc p)))
    × ((two_wait.flock 5).waiting_exclusive ≡ count num_ids (λ p. waits 5 lock_ex (two_wait.pc p)))
counters_exact_example = counters_exact two_wait-Reach 5

-- The exclusive holder has closed its file; the sleepers have been woken.
no_deadlock_example :
    ((g : ℕ) × ((released.file g).ref ≢ 0)
      × ((released.file g).ip ≡ 5)
      × ((released.file g).holding_flock ≢ 0))
    ⊎ ((q g other : ℕ) × (q < num_ids)
        × (released.pc q ≡ waiting g 5 other true)
        × ((flock_resume (released.flock 5) q other).1 ≡ returned (pos 0)))
unfolding close enter obtain open_entry file_flock_enter file_flock_acquire flock_acquire
    file_close_entry file_close_lock flock_release flock_init
no_deadlock_example = no_deadlock released-Reach 5 2 5 lock_sh true refl

writer_priority_example :
    count nfile (holds released.file 5 lock_sh) ≤ count nfile (holds two_wait.file 5 lock_sh)
unfolding enter obtain open_entry file_flock_enter file_flock_acquire flock_acquire flock_init
writer_priority_example =
    writer_priority two_wait-Reach closing 5
      (count-pos num_ids (λ p. waits 5 lock_ex (two_wait.pc p)) 4 (omega arith) refl)

queue_exact_example :
    (occurrences 4 (contents (two_wait.flock 5).waitq) ≡ bit (waits_at 5 (two_wait.pc 4)))
    × ((two_wait.flock 5).waitq.len ≡ count num_ids (λ q. waits_at 5 (two_wait.pc q)))
queue_exact_example = queue_exact two_wait-Reach 5 4

-- The run comes out as told: the two sleepers are queued in the order in which they came.
two_wait-contents : contents (two_wait.flock 5).waitq ≡ 4 ∷ 5 ∷ []
unfolding enter obtain open_entry file_flock_enter file_flock_acquire flock_acquire flock_init
    waitq_add waitq_init
two_wait-contents = refl

run_lock-Counts : Counts (two_wait.flock 5) 0 1 1 1
unfolding enter obtain open_entry file_flock_enter file_flock_acquire flock_acquire flock_init
run_lock-Counts = record { held = (refl, refl); holders = refl; sharers = refl; writers = refl }

release-Counts_example :
    let (fl', woke, r) = flock_release (two_wait.flock 5) lock_ex in
    Counts fl' 0 0 1 1
    × (woke ≡ is_inactive fl'.state)
    × (r ≡ pos 0)
    × (fl'.waitq ≡ (two_wait.flock 5).waitq)
release-Counts_example = release-Counts run_lock-Counts lock_ex (inr (refl, omega arith))

resume-Resumed_example :
    let (fl', out) = flock_resume (two_wait.flock 5) 4 2 in
    Resumed 2 4 (two_wait.flock 5) 0 1 1 1 fl' out
resume-Resumed_example = resume-Resumed run_lock-Counts 4 2 (inr refl)

abbrev shared_lock : Flock
shared_lock = record {
  state = shared;
  shared_holders = 2;
  waiting_shared = 0;
  waiting_exclusive = 1;
  waitq = (two_wait.flock 5).waitq;
}

abbrev reader : File
reader = record no_file { kind = fd_inode; ref = 1; ip = 5; holding_flock = 1 }

-- A reader that tries to upgrade without waiting, while another reader holds the lock.
flock_fails_example : (file_flock reader shared_lock 3 6).0.holding_flock ≡ 0
unfolding file_flock file_flock_enter file_flock_acquire flock_release flock_acquire
flock_fails_example = flock_fails reader shared_lock 3 6 refl (λ e. absurd (omega arith)) refl
