-- ===== src/ThreadQueue.antt =====
-- Thread control blocks and the queues threaded through them: mcertikos/kern/thread/PTCBIntro/
-- PTCBIntro.c, PTCBInit/PTCBInit.c, PTQueueIntro/PTQueueIntro.c and PTQueueInit/PTQueueInit.c, of the
-- same folder.
pub mod Links
pub mod Enqueue
pub mod Dequeue
pub mod Remove
pub mod Init
use advance_synchronization.Base.{ℕ, zero, suc, ◌+◌, ◌==◌, if◌then◌else◌, update}
use advance_synchronization.WaitQueue.{num_ids}

-- NUM_CPUS of kern/lib/x86.h.
abbrev pub num_cpus : ℕ
num_cpus = 8

-- The index that stands for NULL.
abbrev pub nil_id : ℕ
nil_id = num_ids

-- `t_state` of kern/lib/thread.h.
pub data ThreadState : Type 0 where
  ready run sleep dead : ThreadState

-- `struct TCB`; a pointer is a number, and NULL is 0.
pub record Tcb : Type 0 where
  pub state : ThreadState
  pub cpuid : ℕ
  pub prev : ℕ
  pub next : ℕ
  pub channel : ℕ
  pub openfiles : ℕ → ℕ
  pub cwd : ℕ

-- `TCBPool`, and the two fields of `TQueuePool`.
pub record Threads : Type 0 where
  pub tcb : ℕ → Tcb
  pub head : ℕ → ℕ
  pub tail : ℕ → ℕ

abbrev pub tcb_set_state : Threads → ℕ → ThreadState → Threads
tcb_set_state k pid state = record k {
  tcb = update k.tcb pid (record (k.tcb pid) { state = state });
}

abbrev pub tcb_set_prev : Threads → ℕ → ℕ → Threads
tcb_set_prev k pid p = record k { tcb = update k.tcb pid (record (k.tcb pid) { prev = p }) }

abbrev pub tcb_set_next : Threads → ℕ → ℕ → Threads
tcb_set_next k pid n = record k { tcb = update k.tcb pid (record (k.tcb pid) { next = n }) }

abbrev pub tcb_set_chan : Threads → ℕ → ℕ → Threads
tcb_set_chan k pid chan = record k {
  tcb = update k.tcb pid (record (k.tcb pid) { channel = chan });
}

abbrev pub tcb_set_openfiles : Threads → ℕ → ℕ → ℕ → Threads
tcb_set_openfiles k pid fd f = record k {
  tcb = update k.tcb pid (record (k.tcb pid) { openfiles = update (k.tcb pid).openfiles fd f });
}

abbrev pub tqueue_set_head : Threads → ℕ → ℕ → Threads
tqueue_set_head k chid h = record k { head = update k.head chid h }

abbrev pub tqueue_set_tail : Threads → ℕ → ℕ → Threads
tqueue_set_tail k chid t = record k { tail = update k.tail chid t }

-- `memzero(openfiles, sizeof *openfiles)` clears as many bytes as one pointer has; `root` is what
-- `namei("/")` returns.
unfoldable pub tcb_init_at_id : Threads → ℕ → ℕ → Threads
tcb_init_at_id k root pid = record k {
  tcb = update k.tcb pid (record {
    state = dead;
    cpuid = num_cpus;
    prev = nil_id;
    next = nil_id;
    channel = 0;
    openfiles = update (k.tcb pid).openfiles 0 0;
    cwd = root;
  });
}

-- The loop of `tcb_init` from `pid` on, with `n` rounds left.
unfoldable pub tcb_init_from : ℕ → ℕ → ℕ → Threads → Threads
tcb_init_from zero pid root k = k
tcb_init_from (suc n) pid root k = tcb_init_from n (pid + 1) root (tcb_init_at_id k root pid)

abbrev pub tqueue_init_at_id : Threads → ℕ → Threads
tqueue_init_at_id k chid = tqueue_set_tail (tqueue_set_head k chid nil_id) chid nil_id

unfoldable pub tqueue_init_from : ℕ → ℕ → Threads → Threads
tqueue_init_from zero chid k = k
tqueue_init_from (suc n) chid k = tqueue_init_from n (chid + 1) (tqueue_init_at_id k chid)

unfoldable pub tqueue_init : ℕ → Threads → Threads
unfolding tcb_init_from tqueue_init_from
tqueue_init root k = tqueue_init_from (num_ids + num_cpus) 0 (tcb_init_from num_ids 0 root k)

unfoldable pub tqueue_enqueue : Threads → ℕ → ℕ → Threads
tqueue_enqueue k chid pid =
    if k.tail chid == nil_id
    then tqueue_set_tail
        (tqueue_set_head (tcb_set_next (tcb_set_prev k pid nil_id) pid nil_id) chid pid) chid pid
    else tqueue_set_tail
        (tcb_set_next (tcb_set_prev (tcb_set_next k (k.tail chid) pid) pid (k.tail chid)) pid
          nil_id)
        chid pid

abbrev pub unlink : Threads → ℕ → Threads
unlink k pid = tcb_set_next (tcb_set_prev k pid nil_id) pid nil_id

-- The queue without its head, and the head; `nil_id` where the queue is empty.
unfoldable pub tqueue_dequeue : Threads → ℕ → Threads × ℕ
tqueue_dequeue k chid =
    if k.head chid == nil_id
    then (k, nil_id)
    else if (k.tcb (k.head chid)).next == nil_id
    then (
      unlink (tqueue_set_tail (tqueue_set_head k chid nil_id) chid nil_id) (k.head chid),
      k.head chid,
    )
    else (
      unlink
          (tqueue_set_head (tcb_set_prev k (k.tcb (k.head chid)).next nil_id) chid
            (k.tcb (k.head chid)).next)
          (k.head chid),
      k.head chid,
    )

unfoldable pub tqueue_remove : Threads → ℕ → ℕ → Threads
tqueue_remove k chid pid =
    let p = (k.tcb pid).prev in
    let n = (k.tcb pid).next in
    if p == nil_id
    then if n == nil_id
      then unlink (tqueue_set_tail (tqueue_set_head k chid nil_id) chid nil_id) pid
      else unlink (tqueue_set_head (tcb_set_prev k n nil_id) chid n) pid
    else if n == nil_id
    then unlink (tqueue_set_tail (tcb_set_next k p nil_id) chid p) pid
    else unlink (tcb_set_prev (if p == n then k else tcb_set_next k p n) n p) pid
