-- ===== src/ThreadQueue/Dequeue.antt =====
-- `tqueue_dequeue` takes the first of the list that a queue stands for.
use advance_synchronization.Base.{ℕ, ◌<◌, ◌≡◌, ◌≢◌, sym, ◌∙◌, arith, List, [], ◌∷◌}
use mathlib.Core.Path.{subst}
use advance_synchronization.WaitQueue.{num_ids}
use advance_synchronization.WaitQueue.Order.{occurrences}
use advance_synchronization.ThreadQueue.{Threads, nil_id, tqueue_dequeue}
use advance_synchronization.ThreadQueue.Links.{IsQueue, Linked-frame, absent_cons}

-- An empty queue is left as it is, and the index for NULL is returned.
pub dequeue_empty :
    (k : Threads) (chid : ℕ) → IsQueue k chid [] → tqueue_dequeue k chid ≡ (k, nil_id)
unfolding tqueue_dequeue
dequeue_empty k chid q = ground (arith, q.begins)

module _ (k : Threads) (chid x : ℕ) where
  abbrev after : Threads
  after = (tqueue_dequeue k chid).0

  -- What `tqueue_dequeue` changes: the links of the head, the back link of the next, and the ends.
  pub dequeue_one :
      k.head chid ≡ x
      → x ≢ nil_id
      → (k.tcb x).next ≡ nil_id
      → ((tqueue_dequeue k chid).1 ≡ x) × (after.head chid ≡ nil_id) × (after.tail chid ≡ nil_id)
  unfolding tqueue_dequeue
  dequeue_one h d n = ground arith

  dequeue_more :
      (y : ℕ)
      → k.head chid ≡ x
      → x ≢ nil_id
      → (k.tcb x).next ≡ y
      → y ≢ nil_id
      → y ≢ x
      → ((tqueue_dequeue k chid).1 ≡ x)
        × (after.head chid ≡ y)
        × (after.tail chid ≡ k.tail chid)
        × ((after.tcb y).prev ≡ nil_id)
        × ((after.tcb y).next ≡ (k.tcb y).next)
  unfolding tqueue_dequeue
  dequeue_more y h d n e f = ground arith

  dequeue_others :
      (y z : ℕ)
      → k.head chid ≡ x
      → (k.tcb x).next ≡ y
      → z ≢ x
      → z ≢ y
      → ((after.tcb z).prev ≡ (k.tcb z).prev) × ((after.tcb z).next ≡ (k.tcb z).next)
  unfolding tqueue_dequeue
  dequeue_others y z h n d e = ground arith

  -- The thread that is taken out is linked to none.
  pub dequeue_unlinks :
      k.head chid ≡ x → x ≢ nil_id → ((after.tcb x).prev ≡ nil_id) × ((after.tcb x).next ≡ nil_id)
  unfolding tqueue_dequeue
  dequeue_unlinks h d = ground arith

pub lt-ne : {x : ℕ} → x < num_ids → x ≢ nil_id
lt-ne l e = omega arith

-- `tqueue_dequeue` returns the first of the list that the queue stands for, and leaves the queue
-- standing for the rest.
pub dequeue-IsQueue :
    (k : Threads) (chid x : ℕ) (xs : List ℕ)
    → IsQueue k chid (x ∷ xs)
    → let (k', pid) = tqueue_dequeue k chid in (pid ≡ x) × IsQueue k' chid xs
dequeue-IsQueue k chid x [] q =
    let (l, b, n, d, e) = q.linked in
    let (out, h, t) = dequeue_one k chid x q.begins (ground arith) n in
    (out, record { begins = h; linked = sym t })
dequeue-IsQueue k chid x (y ∷ ys) q =
    let (l, b, n, d, tail_linked) = q.linked in
    let (m, c, o, g, rest) = tail_linked in
    let (ne, apart) = absent_cons x y ys d in
    let (out, h, t, p, f) = dequeue_more k chid x y q.begins (lt-ne l) n (lt-ne m) ne in
    (
      out,
      record {
        begins = h;
        linked = rw t (
          m,
          p,
          f ∙ o,
          g,
          Linked-frame k.tcb (tqueue_dequeue k chid).0.tcb y ys (k.tail chid)
              (λ z w.
                dequeue_others k chid x y z q.begins n
                  (λ e. w (subst (λ v. occurrences v ys ≡ 0) (sym e) apart))
                  (λ e. w (subst (λ v. occurrences v ys ≡ 0) (sym e) g)))
              rest,
        );
      },
    )
