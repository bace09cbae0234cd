-- ===== src/Scheduler/LostThreads.antt =====
-- A second `thread_wakeup` on a channel, before the thread that the first one made ready has run. The
-- channel of a thread is cleared only when the thread runs, by the end of `thread_sleep`.
use advance_synchronization.Base.{ℕ, ◌≡◌, ◌∙◌, List, [], ◌∷◌, ne→==}
use advance_synchronization.WaitQueue.{num_ids}
use advance_synchronization.ThreadQueue.{
  Threads, nil_id, ready, tqueue_enqueue, tqueue_dequeue, tcb_set_state,
}
use advance_synchronization.ThreadQueue.Links.{IsQueue, last_lt}
use advance_synchronization.ThreadQueue.Enqueue.{enqueue_ends, next-enqueue}
use advance_synchronization.ThreadQueue.Dequeue.{dequeue_one, lt-ne}
use advance_synchronization.Scheduler.{ready_queue, thread_wakeup}
use advance_synchronization.Scheduler.Wakeup.{set_state-IsQueue, sleepers, wake_from_one}

-- To put the head of a queue at its end without taking it out cuts the queue off behind it.
enqueue_head_again :
    (k : Threads) (chid x y : ℕ) (ys : List ℕ)
    → IsQueue k chid (x ∷ y ∷ ys)
    → let (k', pid) = tqueue_dequeue (tqueue_enqueue k chid x) chid in
      (pid ≡ x) × (k'.head chid ≡ nil_id) × (k'.tail chid ≡ nil_id)
enqueue_head_again k chid x y ys q =
    dequeue_one (tqueue_enqueue k chid x) chid x head_kept (lt-ne (q.linked.0))
      (next-enqueue k chid x)
  where
    head_kept : (tqueue_enqueue k chid x).head chid ≡ x
    head_kept =
        (enqueue_ends k chid x).1
        ∙ rw (ne→== _ _ (lt-ne (last_lt k.tcb nil_id x (y ∷ ys) (k.tail chid) q.linked))) q.begins

-- When the only thread whose channel it is has already been made ready and is the first of several
-- threads in the ready queue, another `thread_wakeup` on the channel makes the scheduler lose
-- all the others: the next thread that it takes is that one, and the ready queue is empty then.
pub wakeup_again_loses :
    (k : Threads) (chan x y : ℕ) (ys : List ℕ)
    → IsQueue k ready_queue (x ∷ y ∷ ys)
    → sleepers k.tcb chan 0 num_ids ≡ x ∷ []
    → let (k', pid) = tqueue_dequeue (thread_wakeup k chan) ready_queue in
      (pid ≡ x) × (k'.head ready_queue ≡ nil_id) × (k'.tail ready_queue ≡ nil_id)
unfolding thread_wakeup
wakeup_again_loses k chan x y ys q only = rw (wake_from_one num_ids 0 chan x k only) (
    enqueue_head_again (tcb_set_state k x ready) ready_queue x y ys
      (set_state-IsQueue k ready_queue x ready (x ∷ y ∷ ys) q))
