-- ===== src/Scheduler/Wakeup.antt =====
-- `thread_wakeup` of mcertikos/kern/thread/PThread/PThread.c against the list that the ready queue
-- stands for.
use advance_synchronization.Base.{
  ap, ℕ, zero, suc, ◌+◌, ◌≤◌, ◌≡◌, refl, sym, ◌∙◌, arith, ◌==◌, if◌then◌else◌, List, [], ◌∷◌, ◌++◌,
  eq→==, ne→==,
}
use mathlib.Core.List.{append-nil, append_assoc, head-eq_of_cons-eq, tail-eq_of_cons-eq}
use native.Mathlib.Decide.{ℕ_discrete}
use advance_synchronization.WaitQueue.{num_ids}
use advance_synchronization.WaitQueue.Order.{occurrences, occurrences-append}
use advance_synchronization.ThreadQueue.{
  Tcb, Threads, nil_id, ready, ThreadState, tqueue_enqueue, tcb_set_state,
}
use advance_synchronization.ThreadQueue.Links.{IsQueue, Linked-frame}
use advance_synchronization.ThreadQueue.Enqueue.{enqueue-IsQueue}
use advance_synchronization.Scheduler.{ready_queue, wake_from, thread_wakeup}

pub set_state-IsQueue :
    (k : Threads) (chid pid : ℕ) (state : ThreadState) (xs : List ℕ)
    → IsQueue k chid xs
    → IsQueue (tcb_set_state k pid state) chid xs
set_state-IsQueue k chid pid state xs q = record {
  begins = q.begins;
  linked =
      Linked-frame k.tcb (tcb_set_state k pid state).tcb nil_id xs (k.tail chid)
        (λ x m. (ground arith, ground arith)) q.linked;
}

pub channel-enqueue :
    (k : Threads) (chid pid x : ℕ) → ((tqueue_enqueue k chid pid).tcb x).channel ≡ (k.tcb x).channel
unfolding tqueue_enqueue
channel-enqueue k chid pid x = ground arith

-- One round for a thread on the channel.
abbrev pub woken_one : Threads → ℕ → Threads
woken_one k pid = tqueue_enqueue (tcb_set_state k pid ready) ready_queue pid

channel-woken_one :
    (k : Threads) (pid x : ℕ) → ((woken_one k pid).tcb x).channel ≡ (k.tcb x).channel
channel-woken_one k pid x =
    channel-enqueue (tcb_set_state k pid ready) ready_queue pid x ∙ ground arith

-- The threads from `pid` on, `n` of them, whose channel it is.
abbrev pub sleepers : (ℕ → Tcb) → ℕ → ℕ → ℕ → List ℕ
sleepers t chan pid zero = []
sleepers t chan pid (suc n) =
    if chan == (t pid).channel
    then pid ∷ sleepers t chan (pid + 1) n
    else sleepers t chan (pid + 1) n

sleepers-congr :
    (t u : ℕ → Tcb) (chan pid n : ℕ)
    → ((x : ℕ) → (u x).channel ≡ (t x).channel)
    → sleepers u chan pid n ≡ sleepers t chan pid n
sleepers-congr t u chan pid zero h = refl
sleepers-congr t u chan pid (suc n) h = ground (arith, h pid, sleepers-congr t u chan (pid + 1) n h)

wake_from-IsQueue :
    (n pid chan : ℕ) (k : Threads) (xs : List ℕ)
    → pid + n ≤ num_ids
    → IsQueue k ready_queue xs
    → ((x : ℕ) → pid ≤ x → (k.tcb x).channel ≡ chan → occurrences x xs ≡ 0)
    → IsQueue (wake_from n pid chan k) ready_queue (xs ++ sleepers k.tcb chan pid n)
unfolding wake_from
wake_from-IsQueue zero pid chan k xs l q h = rw append-nil q
wake_from-IsQueue (suc n) pid chan k xs l q h = elim (ℕ_discrete chan (k.tcb pid).channel) [
  | no d ↦
      rw (ne→== _ _ d)
        (wake_from-IsQueue n (pid + 1) chan k xs (omega arith) q (λ x m e. h x (omega arith) e))
  | yes e ↦
      rw
        (
          eq→== _ _ e,
          ← sleepers-congr k.tcb (woken_one k pid).tcb chan (pid + 1) n (channel-woken_one k pid),
          ← append_assoc xs (pid ∷ []) _,
        )
        (wake_from-IsQueue n (pid + 1) chan (woken_one k pid) (xs ++ pid ∷ []) (omega arith)
          (enqueue-IsQueue (tcb_set_state k pid ready) ready_queue pid xs
            (set_state-IsQueue k ready_queue pid ready xs q) (omega arith)
            (h pid (omega arith) (sym e)))
          (λ x m c. later x m (sym (channel-woken_one k pid x) ∙ c)))
]
  where
    later : (x : ℕ) → pid + 1 ≤ x → (k.tcb x).channel ≡ chan → occurrences x (xs ++ pid ∷ []) ≡ 0
    later x m c = ground (arith, occurrences-append x xs (pid ∷ []), h x (omega arith) c)

-- `thread_wakeup` appends the threads whose channel it is, in the order of their ids, to the ready
-- queue, if none of them is in it.
pub wakeup-IsQueue :
    (k : Threads) (chan : ℕ) (xs : List ℕ)
    → IsQueue k ready_queue xs
    → ((x : ℕ) → (k.tcb x).channel ≡ chan → occurrences x xs ≡ 0)
    → IsQueue (thread_wakeup k chan) ready_queue (xs ++ sleepers k.tcb chan 0 num_ids)
unfolding thread_wakeup
wakeup-IsQueue k chan xs q h =
    wake_from-IsQueue num_ids 0 chan k xs (omega arith) q (λ x l e. h x e)

wake_from_none :
    (n pid chan : ℕ) (k : Threads) → sleepers k.tcb chan pid n ≡ [] → wake_from n pid chan k ≡ k
unfolding wake_from
wake_from_none zero pid chan k h = refl
wake_from_none (suc n) pid chan k h = elim (ℕ_discrete chan (k.tcb pid).channel) [
  | yes e ↦ absurd (cc (rw (eq→== _ _ e) at h))
  | no d ↦ rw (ne→== _ _ d) (wake_from_none n (pid + 1) chan k (rw (ne→== _ _ d) at h))
]

pub wake_from_one :
    (n pid chan x : ℕ) (k : Threads)
    → sleepers k.tcb chan pid n ≡ x ∷ []
    → wake_from n pid chan k ≡ woken_one k x
unfolding wake_from
wake_from_one zero pid chan x k h = absurd (cc)
wake_from_one (suc n) pid chan x k h = elim (ℕ_discrete chan (k.tcb pid).channel) [
  | yes e ↦
      let split : pid ∷ sleepers k.tcb chan (pid + 1) n ≡ x ∷ [] = rw (eq→== _ _ e) at h in
      rw (eq→== _ _ e) (
        wake_from_none n (pid + 1) chan (woken_one k pid) (
          sleepers-congr k.tcb (woken_one k pid).tcb chan (pid + 1) n (channel-woken_one k pid)
          ∙ tail-eq_of_cons-eq split)
        ∙ ap (woken_one k) (head-eq_of_cons-eq split))
  | no d ↦ rw (ne→== _ _ d) (wake_from_one n (pid + 1) chan x k (rw (ne→== _ _ d) at h))
]
