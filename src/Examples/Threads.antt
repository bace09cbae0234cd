-- ===== src/Examples/Threads.antt =====
-- Threads from boot: threads 3 and 4 are ready, thread 0 runs.
use advance_synchronization.Base.{ℕ, ◌≡◌, refl, arith, [], ◌∷◌}
use advance_synchronization.WaitQueue.{num_ids}
use advance_synchronization.WaitQueue.Order.{occurrences}
use advance_synchronization.ThreadQueue.{
  Tcb, Threads, dead, nil_id, tqueue_enqueue, tqueue_dequeue, tcb_set_chan,
}
use advance_synchronization.ThreadQueue.Links.{IsQueue}
use advance_synchronization.ThreadQueue.Enqueue.{enqueue-IsQueue}
use advance_synchronization.ThreadQueue.Dequeue.{dequeue-IsQueue}
use advance_synchronization.Scheduler.{Scheduler, ready_queue, thread_yield, thread_wakeup}
use advance_synchronization.Scheduler.Wakeup.{sleepers, wakeup-IsQueue}
use advance_synchronization.Scheduler.LostThreads.{wakeup_again_loses}
use advance_synchronization.Scheduler.Rounds.{yield_round_robin}

abbrev blank : Tcb
blank = record {
  state = dead;
  cpuid = 0;
  prev = 64;
  next = 64;
  channel = 0;
  openfiles = λ fd. 0;
  cwd = 0;
}

-- Thread 5 sleeps on channel 77.
abbrev none_ready : Threads
none_ready = tcb_set_chan (record { tcb = λ x. blank; head = λ c. 64; tail = λ c. 64 }) 5 77

abbrev two_ready : Threads
two_ready = tqueue_enqueue (tqueue_enqueue none_ready ready_queue 3) ready_queue 4

abbrev running_zero : Scheduler
running_zero = record { threads = two_ready; curid = λ cpu. 0; ticks = λ cpu. 0 }

none_ready-IsQueue : IsQueue none_ready ready_queue []
none_ready-IsQueue = record { begins = refl; linked = refl }

one_ready-IsQueue : IsQueue (tqueue_enqueue none_ready ready_queue 3) ready_queue (3 ∷ [])
one_ready-IsQueue =
    enqueue-IsQueue none_ready ready_queue 3 [] none_ready-IsQueue (omega arith) refl

two_ready-IsQueue : IsQueue two_ready ready_queue (3 ∷ 4 ∷ [])
two_ready-IsQueue =
    enqueue-IsQueue (tqueue_enqueue none_ready ready_queue 3) ready_queue 4 (3 ∷ [])
      one_ready-IsQueue (omega arith) refl

enqueue-IsQueue_example :
    IsQueue (tqueue_enqueue two_ready ready_queue 9) ready_queue (3 ∷ 4 ∷ 9 ∷ [])
enqueue-IsQueue_example =
    enqueue-IsQueue two_ready ready_queue 9 (3 ∷ 4 ∷ []) two_ready-IsQueue (omega arith) refl

dequeue-IsQueue_example :
    let (k', pid) = tqueue_dequeue two_ready ready_queue in
    (pid ≡ 3) × IsQueue k' ready_queue (4 ∷ [])
dequeue-IsQueue_example = dequeue-IsQueue two_ready ready_queue 3 (4 ∷ []) two_ready-IsQueue

channels : (x : ℕ) → (two_ready.tcb x).channel ≡ 77 → occurrences x (3 ∷ 4 ∷ []) ≡ 0
unfolding tqueue_enqueue
channels x h = ground arith

wakeup-IsQueue_example :
    IsQueue (thread_wakeup two_ready 77) ready_queue (3 ∷ 4 ∷ sleepers two_ready.tcb 77 0 num_ids)
wakeup-IsQueue_example = wakeup-IsQueue two_ready 77 (3 ∷ 4 ∷ []) two_ready-IsQueue channels

yield_round_robin_example :
    ((thread_yield running_zero 0).curid 0 ≡ 3)
    × IsQueue (thread_yield running_zero 0).threads ready_queue (4 ∷ 0 ∷ [])
yield_round_robin_example =
    yield_round_robin running_zero 0 (3 ∷ 4 ∷ []) two_ready-IsQueue (omega arith) refl

-- A first wake-up on channel 77 has made thread 5 ready, and then thread 4 has become ready.
abbrev woken_first : Threads
woken_first = tqueue_enqueue (thread_wakeup none_ready 77) ready_queue 4

woken_first-IsQueue : IsQueue woken_first ready_queue (5 ∷ 4 ∷ [])
woken_first-IsQueue =
    enqueue-IsQueue (thread_wakeup none_ready 77) ready_queue 4 (5 ∷ [])
      (wakeup-IsQueue none_ready 77 [] none_ready-IsQueue (λ x e. refl)) (omega arith) refl

only_sleeper : sleepers woken_first.tcb 77 0 num_ids ≡ 5 ∷ []
unfolding tqueue_enqueue thread_wakeup
only_sleeper = refl

wakeup_again_loses_example :
    let (k', pid) = tqueue_dequeue (thread_wakeup woken_first 77) ready_queue in
    (pid ≡ 5) × (k'.head ready_queue ≡ nil_id) × (k'.tail ready_queue ≡ nil_id)
wakeup_again_loses_example =
    wakeup_again_loses woken_first 77 5 4 [] woken_first-IsQueue only_sleeper
