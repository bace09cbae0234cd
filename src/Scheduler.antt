-- ===== src/Scheduler.antt =====
-- The scheduler of mcertikos/kern/thread/PThread/PThread.c, with the current thread of each CPU from
-- PCurID/PCurID.c. Each function is a section that runs with `sched_lk` held; `kctx_switch`, which
-- changes stacks, is left out.
pub mod Wakeup
pub mod LostThreads
pub mod Rounds
use advance_synchronization.Base.{
  ℕ, zero, suc, ◌+◌, ◌*◌, ◌/◌, ◌%◌, ◌^◌, ◌==◌, leb, if◌then◌else◌, update, Option, none, some,
}
use advance_synchronization.WaitQueue.{num_ids}
use advance_synchronization.ThreadQueue.{
  Threads, nil_id, ready, run, sleep, num_cpus, tcb_set_state, tcb_set_chan, tqueue_enqueue,
  tqueue_dequeue, tqueue_init,
}

-- The ready queue is the queue NUM_IDS.
abbrev pub ready_queue : ℕ
ready_queue = num_ids

-- SCHED_SLICE of kern/lib/thread.h, and LAPIC_TIMER_INTR_FREQ of kern/dev/lapic.h.
abbrev pub sched_slice : ℕ
sched_slice = 5

abbrev pub timer_freq : ℕ
timer_freq = 1000

-- The threads, `CURID` and `sched_ticks`.
pub record Scheduler : Type 0 where
  pub threads : Threads
  pub curid : ℕ → ℕ
  pub ticks : ℕ → ℕ

abbrev pub with_threads : Scheduler → Threads → Scheduler
with_threads s k = record s { threads = k }

abbrev pub set_curid : Scheduler → ℕ → ℕ → Scheduler
set_curid s cpu pid = record s { curid = update s.curid cpu pid }

-- The loop of `thread_init` that clears the ticks of the CPUs below `n`.
clear_ticks : ℕ → (ℕ → ℕ) → ℕ → ℕ
clear_ticks zero t = t
clear_ticks (suc n) t = update (clear_ticks n t) n 0

unfoldable pub thread_init : Scheduler → ℕ → ℕ → Scheduler
unfolding clear_ticks
thread_init s cpu root = record {
  threads = tcb_set_state (tqueue_init root s.threads) 0 run;
  curid = update s.curid cpu 0;
  ticks = clear_ticks num_cpus s.ticks;
}

-- The part of `thread_spawn` after `kctx_new`, which returns `pid`, or NUM_IDS if it fails.
unfoldable pub spawn_ready : Threads → ℕ → Threads
spawn_ready k pid =
    if pid == nil_id then k else tqueue_enqueue (tcb_set_state k pid ready) ready_queue pid

unfoldable pub thread_yield : Scheduler → ℕ → Scheduler
thread_yield s cpu =
    let old = s.curid cpu in
    let (k, new) =
      tqueue_dequeue (tqueue_enqueue (tcb_set_state s.threads old ready) ready_queue old)
        ready_queue in
    set_curid (with_threads s (tcb_set_state k new run)) cpu new

-- `sched_ticks` is an unsigned int.
unfoldable pub sched_update : Scheduler → ℕ → Scheduler
sched_update s cpu =
    let t = (s.ticks cpu + 1000 / timer_freq) % 2 ^ 32 in
    let yielded = thread_yield (record s { ticks = update s.ticks cpu 0 }) cpu in
    if leb sched_slice t then yielded else record s { ticks = update s.ticks cpu t }

-- `thread_sleep` up to the switch; `none` is the failed assertion that some thread is ready.
unfoldable pub thread_sleep : Scheduler → ℕ → ℕ → Option Scheduler
thread_sleep s cpu chan =
    let old = s.curid cpu in
    let (k, new) = tqueue_dequeue s.threads ready_queue in
    if new == nil_id
    then none
    else some (
        set_curid
          (with_threads s
            (tcb_set_state (tcb_set_state (tcb_set_chan k old chan) old sleep) new run))
          cpu new)

-- `thread_sleep` after the switch back to the thread.
unfoldable pub thread_awake : Scheduler → ℕ → Scheduler
thread_awake s pid = with_threads s (tcb_set_chan s.threads pid 0)

-- The loop of `thread_wakeup` from `pid` on, with `n` rounds left.
unfoldable pub wake_from : ℕ → ℕ → ℕ → Threads → Threads
wake_from zero pid chan k = k
wake_from (suc n) pid chan k = wake_from n (pid + 1) chan (
    if chan == (k.tcb pid).channel
    then tqueue_enqueue (tcb_set_state k pid ready) ready_queue pid
    else k)

unfoldable pub thread_wakeup : Threads → ℕ → Threads
unfolding wake_from
thread_wakeup k chan = wake_from num_ids 0 chan k
