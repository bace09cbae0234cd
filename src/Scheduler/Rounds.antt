-- ===== src/Scheduler/Rounds.antt =====
-- `thread_yield` and `thread_sleep` against the list that the ready queue stands for.
use advance_synchronization.Base.{
  ℕ, ◌<◌, ◌≡◌, ◌≢◌, refl, arith, List, [], ◌∷◌, ◌++◌, none, some, eq→==,
}
use advance_synchronization.WaitQueue.{num_ids}
use advance_synchronization.WaitQueue.Order.{occurrences}
use advance_synchronization.ThreadQueue.{
  Threads, nil_id, ready, run, sleep, tqueue_enqueue, tqueue_dequeue, tcb_set_state, tcb_set_chan,
}
use advance_synchronization.ThreadQueue.Links.{first, IsQueue, Linked-frame}
use advance_synchronization.ThreadQueue.Enqueue.{enqueue-IsQueue}
use advance_synchronization.ThreadQueue.Dequeue.{dequeue-IsQueue, dequeue_empty, lt-ne}
use advance_synchronization.Scheduler.{
  Scheduler, ready_queue, thread_yield, thread_sleep, set_curid, with_threads,
}
use advance_synchronization.Scheduler.Wakeup.{set_state-IsQueue}

-- The list without its first.
abbrev pub rest_of : List ℕ → List ℕ
rest_of [] = []
rest_of (x ∷ xs) = xs

set_chan-IsQueue :
    (k : Threads) (chid pid chan : ℕ) (xs : List ℕ)
    → IsQueue k chid xs
    → IsQueue (tcb_set_chan k pid chan) chid xs
set_chan-IsQueue k chid pid chan xs q = record {
  begins = q.begins;
  linked =
      Linked-frame k.tcb (tcb_set_chan k pid chan).tcb nil_id xs (k.tail chid)
        (λ x m. (ground arith, ground arith)) q.linked;
}

abbrev queued_up : Scheduler → ℕ → Threads
queued_up s cpu =
    tqueue_enqueue (tcb_set_state s.threads (s.curid cpu) ready) ready_queue (s.curid cpu)

yield_from :
    (s : Scheduler) (cpu x : ℕ) (xs : List ℕ)
    → IsQueue (queued_up s cpu) ready_queue (x ∷ xs)
    → ((thread_yield s cpu).curid cpu ≡ x) × IsQueue (thread_yield s cpu).threads ready_queue xs
unfolding thread_yield
yield_from s cpu x xs q =
    let (out, rest) = dequeue-IsQueue (queued_up s cpu) ready_queue x xs q in
    (
      rw (eq→== cpu cpu refl) out,
      set_state-IsQueue (tqueue_dequeue (queued_up s cpu) ready_queue).0 ready_queue
          (tqueue_dequeue (queued_up s cpu) ready_queue).1 run xs rest,
    )

-- Round robin: the caller of `thread_yield`, if it is not in the ready queue, goes to the end of that
-- queue, and the first of the queue, which is the caller itself if nobody else is ready, becomes the
-- current thread.
pub yield_round_robin :
    (s : Scheduler) (cpu : ℕ) (xs : List ℕ)
    → IsQueue s.threads ready_queue xs
    → s.curid cpu < num_ids
    → occurrences (s.curid cpu) xs ≡ 0
    → ((thread_yield s cpu).curid cpu ≡ first (xs ++ s.curid cpu ∷ []))
      × IsQueue (thread_yield s cpu).threads ready_queue (rest_of (xs ++ s.curid cpu ∷ []))
yield_round_robin s cpu xs q l fresh = go xs queued
  where
    queued : IsQueue (queued_up s cpu) ready_queue (xs ++ s.curid cpu ∷ [])
    queued =
        enqueue-IsQueue (tcb_set_state s.threads (s.curid cpu) ready) ready_queue (s.curid cpu) xs
          (set_state-IsQueue s.threads ready_queue (s.curid cpu) ready xs q) l fresh

    go :
        (ys : List ℕ)
        → IsQueue (queued_up s cpu) ready_queue (ys ++ s.curid cpu ∷ [])
        → ((thread_yield s cpu).curid cpu ≡ first (ys ++ s.curid cpu ∷ []))
          × IsQueue (thread_yield s cpu).threads ready_queue (rest_of (ys ++ s.curid cpu ∷ []))
    go [] r = yield_from s cpu (s.curid cpu) [] r
    go (y ∷ ys) r = yield_from s cpu y (ys ++ s.curid cpu ∷ []) r

-- What `thread_sleep` leaves behind for a caller that finds `x` first in the ready queue.
pub record Slept (s u : Scheduler) (cpu chan x : ℕ) (xs : List ℕ) : Type 0 where
  pub current : u.curid cpu ≡ x
  pub remaining : IsQueue u.threads ready_queue xs
  pub asleep : (u.threads.tcb (s.curid cpu)).state ≡ sleep
  pub on_channel : (u.threads.tcb (s.curid cpu)).channel ≡ chan

abbrev switched : Scheduler → ℕ → ℕ → Scheduler
switched s cpu chan =
    let old = s.curid cpu in
    let (k, new) = tqueue_dequeue s.threads ready_queue in
    set_curid
      (with_threads s (tcb_set_state (tcb_set_state (tcb_set_chan k old chan) old sleep) new run))
      cpu new

-- With a thread `x` first in the ready queue, `thread_sleep` makes `x` the current thread, takes it out
-- of the queue, and leaves the caller, another thread, asleep on the channel.
pub sleep_switches :
    (s : Scheduler) (cpu chan x : ℕ) (xs : List ℕ)
    → IsQueue s.threads ready_queue (x ∷ xs)
    → x ≢ s.curid cpu
    → (u : Scheduler) × (thread_sleep s cpu chan ≡ some u) × Slept s u cpu chan x xs
unfolding thread_sleep
sleep_switches s cpu chan x xs q d =
    let (out, rest) = dequeue-IsQueue s.threads ready_queue x xs q in
    let k = (tqueue_dequeue s.threads ready_queue).0 in
    (
      switched s cpu chan,
      ground (arith, out, lt-ne q.linked.0),
      record {
        current = rw (eq→== cpu cpu refl) out;
        remaining = set_state-IsQueue _ ready_queue _ run xs (
            set_state-IsQueue _ ready_queue _ sleep xs
              (set_chan-IsQueue k ready_queue (s.curid cpu) chan xs rest));
        asleep = ground (arith, out);
        on_channel = ground (arith, out);
      },
    )

-- With no thread ready the assertion of `thread_sleep` fails.
pub sleep_alone :
    (s : Scheduler) (cpu chan : ℕ)
    → IsQueue s.threads ready_queue []
    → thread_sleep s cpu chan ≡ none
unfolding thread_sleep
sleep_alone s cpu chan q = ground (arith, dequeue_empty s.threads ready_queue q)
