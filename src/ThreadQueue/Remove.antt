-- ===== src/ThreadQueue/Remove.antt =====
-- `tqueue_remove` takes a thread out of the list that a queue stands for, wherever it stands in it.
use advance_synchronization.Base.{
  ℕ, ◌<◌, ◌≡◌, ◌≢◌, refl, sym, ◌∙◌, arith, ◌==◌, if◌then◌else◌, List, [], ◌∷◌, ◌++◌, ne→==,
}
use mathlib.Core.Path.{subst}
use native.Mathlib.Decide.{ℕ_discrete}
use advance_synchronization.WaitQueue.{num_ids}
use advance_synchronization.WaitQueue.Order.{occurrences, occurrences-append}
use advance_synchronization.ThreadQueue.{Tcb, Threads, nil_id, tqueue_remove}
use advance_synchronization.ThreadQueue.Links.{
  first, Linked, IsQueue, Linked-frame, absent_cons, member_lt,
}
use advance_synchronization.ThreadQueue.Dequeue.{lt-ne}

-- The last of the list, or `p` where it is empty.
abbrev last_of : ℕ → List ℕ → ℕ
last_of p [] = p
last_of p (x ∷ xs) = last_of x xs

last_of-in : (x : ℕ) (xs : List ℕ) → occurrences (last_of x xs) (x ∷ xs) ≢ 0
last_of-in x [] = ground arith
last_of-in x (y ∷ ys) = ground (arith, last_of-in y ys)

-- Where a list splits at `x`, the links of `x` are the two lists' ends.
record Found (t : ℕ → Tcb) (p x : ℕ) (before after : List ℕ) : Type 0 where
  small : x < num_ids
  behind : (t x).prev ≡ last_of p before
  ahead : (t x).next ≡ first after
  once : occurrences x after ≡ 0

Linked-Found :
    (t : ℕ → Tcb) (p x : ℕ) (before after : List ℕ) (last : ℕ)
    → Linked t p (before ++ x ∷ after) last
    → Found t p x before after
Linked-Found t p x [] after last (l, b, n, d, rest) = record {
  small = l;
  behind = b;
  ahead = n;
  once = d;
}
Linked-Found t p x (y ∷ ys) after last (l, b, n, d, rest) =
    let f = Linked-Found t y x ys after last rest in
    record { small = f.small; behind = f.behind; ahead = f.ahead; once = f.once }

-- The links of the others, once `x` is cut out.
record Cut (t u : ℕ → Tcb) (x : ℕ) : Type 0 where
  next_cut :
      (z : ℕ)
      → z < num_ids
      → z ≢ x
      → (u z).next ≡ (if (t x).prev == z then (t x).next else (t z).next)
  prev_cut :
      (z : ℕ)
      → z < num_ids
      → z ≢ x
      → (u z).prev ≡ (if (t x).next == z then (t x).prev else (t z).prev)

remove-Cut :
    (k : Threads) (chid x : ℕ)
    → ((k.tcb x).prev ≡ (k.tcb x).next → (k.tcb x).prev ≡ nil_id)
    → Cut k.tcb (tqueue_remove k chid x).tcb x
unfolding tqueue_remove
remove-Cut k chid x apart = record {
  next_cut = λ z l d. ground arith;
  prev_cut = λ z l d. ground arith;
}

remove_ends :
    (k : Threads) (chid x : ℕ)
    → ((tqueue_remove k chid x).head chid
        ≡ (if (k.tcb x).prev == nil_id then (k.tcb x).next else k.head chid))
      × ((tqueue_remove k chid x).tail chid
          ≡ (if (k.tcb x).next == nil_id then (k.tcb x).prev else k.tail chid))
unfolding tqueue_remove
remove_ends k chid x = ground arith

remove_unlinks :
    (k : Threads) (chid x : ℕ)
    → (((tqueue_remove k chid x).tcb x).prev ≡ nil_id)
      × (((tqueue_remove k chid x).tcb x).next ≡ nil_id)
unfolding tqueue_remove
remove_unlinks k chid x = ground arith

-- The last before the split does not come again after it.
last_of-once :
    (t : ℕ → Tcb) (p x b : ℕ) (bs after : List ℕ) (last : ℕ)
    → Linked t p (b ∷ bs ++ x ∷ after) last
    → occurrences (last_of b bs) (x ∷ after) ≡ 0
last_of-once t p x b [] after last (l, c, n, d, rest) = d
last_of-once t p x b (y ∷ ys) after last (l, c, n, d, rest) =
    last_of-once t b x y ys after last rest

occurrences-without :
    (z x : ℕ) (before after : List ℕ)
    → occurrences z (before ++ x ∷ after) ≡ 0
    → (x ≢ z)
      × (occurrences z before ≡ 0)
      × (occurrences z after ≡ 0)
      × (occurrences z (before ++ after) ≡ 0)
occurrences-without z x before after h =
    ground (arith, occurrences-append z before (x ∷ after), occurrences-append z before after)

apart_from : (w z : ℕ) (xs : List ℕ) → occurrences z xs ≢ 0 → occurrences w xs ≡ 0 → z ≢ w
apart_from w z xs m a e = m (subst (λ v. occurrences v xs ≡ 0) (sym e) a)

first-≢ : (z : ℕ) (xs : List ℕ) → z < num_ids → occurrences z xs ≡ 0 → first xs ≢ z
first-≢ z [] l h = λ e. omega arith
first-≢ z (x ∷ xs) l h = (absent_cons z x xs h).0

next_after :
    (z x : ℕ) (zs after : List ℕ)
    → occurrences z zs ≡ 0
    → (if last_of z zs == z then first after else first (zs ++ x ∷ after)) ≡ first (zs ++ after)
next_after z x [] after h = ground arith
next_after z x (w ∷ ws) after h = rw (ne→== _ _ (apart_from z _ (w ∷ ws) (last_of-in w ws) h)) refl

Linked-Cut :
    (t u : ℕ → Tcb) (p x : ℕ) (before after : List ℕ) (last : ℕ)
    → Cut t u x
    → occurrences p (before ++ x ∷ after) ≡ 0
    → Linked t p (before ++ x ∷ after) last
    → Linked u p (before ++ after) (if first after == nil_id then last_of p before else last)
Linked-Cut t u p x [] [] last c fresh (l, b, n, d, rest) = refl
Linked-Cut t u p x [] (y ∷ ys) last c fresh (l, b, n, d, (l', b', n', d', rest)) =
    let (ne, apart) = absent_cons x y ys d in
    let (px, py) = absent_cons p x (y ∷ ys) fresh in
    let (pne, pys) = absent_cons p y ys py in
    (
      l',
      c.prev_cut y l' ne ∙ ground arith,
      c.next_cut y l' ne ∙ ground arith,
      d',
      rw (ne→== y nil_id (lt-ne l')) (
          Linked-frame t u y ys last
            (λ z m.
              let small = member_lt t y ys last z rest m in
              let zx = apart_from x z ys m apart in
              (
                c.prev_cut z small zx
                    ∙ rw (n, ne→== y z (λ e. apart_from y z ys m d' (sym e))) refl,
                c.next_cut z small zx
                    ∙ rw (b, ne→== p z (λ e. apart_from p z ys m pys (sym e))) refl,
              ))
            rest),
    )
Linked-Cut t u p x (z ∷ zs) after last c fresh (l, b, n, d, rest) =
    let f = Linked-Found t z x zs after last rest in
    let (xz, early, late, without) = occurrences-without z x zs after d in
    (
      l,
      c.prev_cut z l (λ e. xz (sym e)) ∙ rw (f.ahead, ne→== _ _ (first-≢ z after l late)) b,
      c.next_cut z l (λ e. xz (sym e)) ∙ rw (f.behind, f.ahead, n) (next_after z x zs after early),
      without,
      Linked-Cut t u z x zs after last c d rest,
    )

nil_absent :
    (t : ℕ → Tcb) (p : ℕ) (xs : List ℕ) (last : ℕ) → Linked t p xs last → occurrences nil_id xs ≡ 0
nil_absent t p xs last h = elim (ℕ_discrete (occurrences nil_id xs) 0) [
  | yes e ↦ e
  | no d ↦ absurd (lt-ne (member_lt t p xs last nil_id h d) refl)
]

last_of_lt :
    (t : ℕ → Tcb) (p x b : ℕ) (bs after : List ℕ) (last : ℕ)
    → Linked t p (b ∷ bs ++ x ∷ after) last
    → last_of b bs < num_ids
last_of_lt t p x b [] after last (l, c, n, d, rest) = l
last_of_lt t p x b (y ∷ ys) after last (l, c, n, d, rest) = last_of_lt t b x y ys after last rest

head_cut :
    (t : ℕ → Tcb) (x : ℕ) (before after : List ℕ) (last : ℕ)
    → Linked t nil_id (before ++ x ∷ after) last
    → (if last_of nil_id before == nil_id then first after else first (before ++ x ∷ after))
      ≡ first (before ++ after)
head_cut t x [] after last h = refl
head_cut t x (b ∷ bs) after last h =
    rw (ne→== _ _ (lt-ne (last_of_lt t nil_id x b bs after last h))) refl

-- The neighbours of a thread are two threads, or one of them is missing.
links_apart :
    (t : ℕ → Tcb) (x : ℕ) (before after : List ℕ) (last : ℕ)
    → Linked t nil_id (before ++ x ∷ after) last
    → last_of nil_id before ≡ first after
    → last_of nil_id before ≡ nil_id
links_apart t x [] after last h e = refl
links_apart t x (b ∷ bs) [] last h e = e
links_apart t x (b ∷ bs) (y ∷ ys) last h e =
    let (xl, rest) =
      absent_cons (last_of b bs) x (y ∷ ys) (last_of-once t nil_id x b bs (y ∷ ys) last h) in
    absurd ((absent_cons (last_of b bs) y ys rest).0 (sym e))

-- `tqueue_remove` of a thread of the queue leaves the queue standing for the list without it, with the
-- others in their order, and the thread linked to none.
pub remove-IsQueue :
    (k : Threads) (chid x : ℕ) (before after : List ℕ)
    → IsQueue k chid (before ++ x ∷ after)
    → IsQueue (tqueue_remove k chid x) chid (before ++ after)
      × (((tqueue_remove k chid x).tcb x).prev ≡ nil_id)
      × (((tqueue_remove k chid x).tcb x).next ≡ nil_id)
remove-IsQueue k chid x before after q =
    let f = Linked-Found k.tcb nil_id x before after (k.tail chid) q.linked in
    let (h, t) = remove_ends k chid x in
    let (no_prev, no_next) = remove_unlinks k chid x in
    (
      record {
        begins =
            h
            ∙ rw (f.behind, f.ahead, q.begins)
                (head_cut k.tcb x before after (k.tail chid) q.linked);
        linked =
            rw (t, f.behind, f.ahead)
              (Linked-Cut k.tcb (tqueue_remove k chid x).tcb nil_id x before after (k.tail chid)
                (remove-Cut k chid x (
                  rw (f.behind, f.ahead) (links_apart k.tcb x before after (k.tail chid) q.linked)))
                (nil_absent k.tcb nil_id (before ++ x ∷ after) (k.tail chid) q.linked) q.linked);
      },
      no_prev,
      no_next,
    )
