-- ===== src/ThreadQueue/Enqueue.antt =====
-- `tqueue_enqueue` appends to the list that a queue stands for.
use advance_synchronization.Base.{
  ℕ, ◌<◌, ◌≡◌, ◌≢◌, refl, sym, ◌∙◌, arith, ◌==◌, if◌then◌else◌, List, [], ◌∷◌, ◌++◌,
}
use mathlib.Core.Path.{subst}
use advance_synchronization.WaitQueue.{num_ids}
use advance_synchronization.WaitQueue.Order.{occurrences, occurrences-append}
use advance_synchronization.ThreadQueue.{Tcb, Threads, nil_id, tqueue_enqueue}
use advance_synchronization.ThreadQueue.Links.{Linked, IsQueue, absent_cons, last_in, last_lt}

-- The block of `pid` hung behind the last.
record Hung (t u : ℕ → Tcb) (last pid : ℕ) : Type 0 where
  prev_kept : (x : ℕ) → x ≢ pid → (u x).prev ≡ (t x).prev
  next_kept : (x : ℕ) → x ≢ pid → x ≢ last → (u x).next ≡ (t x).next
  next_last : (u last).next ≡ pid
  prev_new : (u pid).prev ≡ last
  next_new : (u pid).next ≡ nil_id

occurrences-snoc :
    (x pid : ℕ) (xs : List ℕ) → x ≢ pid → occurrences x xs ≡ 0 → occurrences x (xs ++ pid ∷ []) ≡ 0
occurrences-snoc x pid xs d h = ground (arith, occurrences-append x xs (pid ∷ []))

Linked-snoc :
    (t u : ℕ → Tcb) (p x : ℕ) (xs : List ℕ) (last pid : ℕ)
    → Hung t u last pid
    → pid < num_ids
    → occurrences pid (x ∷ xs) ≡ 0
    → Linked t p (x ∷ xs) last
    → Linked u p (x ∷ xs ++ pid ∷ []) pid
Linked-snoc t u p x [] last pid h m fresh (l, b, n, d, e) = (
  l,
  ground (arith, h.prev_kept x),
  ground arith,
  ground arith,
  (m, ground arith, h.next_new, refl, refl),
)
Linked-snoc t u p x (y ∷ ys) last pid h m fresh (l, b, n, d, rest) =
    let (ne, later) = absent_cons pid x (y ∷ ys) fresh in
    (
      l,
      h.prev_kept x ne ∙ b,
      h.next_kept x ne
            (λ e. last_in t x y ys last rest (subst (λ z. occurrences z (y ∷ ys) ≡ 0) e d))
          ∙ n,
      occurrences-snoc x pid (y ∷ ys) ne d,
      Linked-snoc t u x y ys last pid h m later rest,
    )

enqueue-Hung :
    (k : Threads) (chid pid : ℕ)
    → k.tail chid ≢ nil_id
    → k.tail chid ≢ pid
    → Hung k.tcb (tqueue_enqueue k chid pid).tcb (k.tail chid) pid
unfolding tqueue_enqueue
enqueue-Hung k chid pid h d = record {
  prev_kept = λ x e. ground arith;
  next_kept = λ x e f. ground arith;
  next_last = ground arith;
  prev_new = ground arith;
  next_new = ground arith;
}

pub enqueue_ends :
    (k : Threads) (chid pid : ℕ)
    → ((tqueue_enqueue k chid pid).tail chid ≡ pid)
      × ((tqueue_enqueue k chid pid).head chid
          ≡ (if k.tail chid == nil_id then pid else k.head chid))
unfolding tqueue_enqueue
enqueue_ends k chid pid = ground arith

enqueue_first :
    (k : Threads) (chid pid : ℕ)
    → k.tail chid ≡ nil_id
    → (((tqueue_enqueue k chid pid).tcb pid).prev ≡ nil_id)
      × (((tqueue_enqueue k chid pid).tcb pid).next ≡ nil_id)
unfolding tqueue_enqueue
enqueue_first k chid pid h = ground arith

pub next-enqueue :
    (k : Threads) (chid pid : ℕ) → ((tqueue_enqueue k chid pid).tcb pid).next ≡ nil_id
unfolding tqueue_enqueue
next-enqueue k chid pid = ground arith

-- `tqueue_enqueue` of a thread that is not in the queue puts it at the end of the list that the queue
-- stands for, with the links right in both directions.
pub enqueue-IsQueue :
    (k : Threads) (chid pid : ℕ) (xs : List ℕ)
    → IsQueue k chid xs
    → pid < num_ids
    → occurrences pid xs ≡ 0
    → IsQueue (tqueue_enqueue k chid pid) chid (xs ++ pid ∷ [])
enqueue-IsQueue k chid pid [] q l fresh = record {
  begins = ground (arith, enqueue_ends k chid pid, q.linked);
  linked =
      let (b, n) = enqueue_first k chid pid (sym q.linked) in
      (l, b, n, refl, sym (enqueue_ends k chid pid).0);
}
enqueue-IsQueue k chid pid (x ∷ xs) q l fresh = record {
  begins =
      ground (
        arith,
        enqueue_ends k chid pid,
        q.begins,
        last_lt k.tcb nil_id x xs (k.tail chid) q.linked,
      );
  linked = rw ((enqueue_ends k chid pid).0) (
      Linked-snoc k.tcb (tqueue_enqueue k chid pid).tcb nil_id x xs (k.tail chid) pid
        (enqueue-Hung k chid pid (ground (arith, last_lt k.tcb nil_id x xs (k.tail chid) q.linked))
          (λ e.
            last_in k.tcb nil_id x xs (k.tail chid) q.linked
              (subst (λ z. occurrences z (x ∷ xs) ≡ 0) (sym e) fresh)))
        l fresh q.linked);
}
