-- ===== src/ThreadQueue/Links.antt =====
-- When a queue of threads stands for a list of thread ids: the links agree in both directions.
use advance_synchronization.Base.{ℕ, ◌<◌, ◌≡◌, ◌≢◌, refl, arith, List, [], ◌∷◌}
use advance_synchronization.WaitQueue.{num_ids}
use advance_synchronization.WaitQueue.Order.{occurrences}
use advance_synchronization.ThreadQueue.{Tcb, Threads, nil_id}

abbrev pub first : List ℕ → ℕ
first [] = nil_id
first (x ∷ xs) = x

-- The blocks of the list, whose first has `p` behind it, are linked and end at `last`.
abbrev pub Linked : (ℕ → Tcb) → ℕ → List ℕ → ℕ → Type 0
Linked t p [] last = p ≡ last
Linked t p (x ∷ xs) last =
    (x < num_ids)
    × ((t x).prev ≡ p)
    × ((t x).next ≡ first xs)
    × (occurrences x xs ≡ 0)
    × Linked t x xs last

-- The queue `chid` holds the threads of the list, in that order.
pub record IsQueue (k : Threads) (chid : ℕ) (xs : List ℕ) : Type 0 where
  pub begins : k.head chid ≡ first xs
  pub linked : Linked k.tcb nil_id xs (k.tail chid)

-- What is not in a list is neither its head nor in its tail.
pub absent_cons :
    (y x : ℕ) (xs : List ℕ) → occurrences y (x ∷ xs) ≡ 0 → (x ≢ y) × (occurrences y xs ≡ 0)
absent_cons y x xs h = ground arith

-- A change to blocks that are not in the list does not matter.
pub Linked-frame :
    (t u : ℕ → Tcb) (p : ℕ) (xs : List ℕ) (last : ℕ)
    → ((x : ℕ) → occurrences x xs ≢ 0 → ((u x).prev ≡ (t x).prev) × ((u x).next ≡ (t x).next))
    → Linked t p xs last
    → Linked u p xs last
Linked-frame t u p [] last same h = h
Linked-frame t u p (x ∷ xs) last same (l, b, n, d, rest) =
    let (sb, sn) = same x (ground arith) in
    (
      l,
      ground arith,
      ground arith,
      d,
      Linked-frame t u x xs last (λ y m. same y (ground arith)) rest,
    )

-- The last of a list that is not empty is in it.
pub last_in :
    (t : ℕ → Tcb) (p x : ℕ) (xs : List ℕ) (last : ℕ)
    → Linked t p (x ∷ xs) last
    → occurrences last (x ∷ xs) ≢ 0
last_in t p x [] last (l, b, n, d, e) = ground arith
last_in t p x (y ∷ ys) last (l, b, n, d, rest) = ground (arith, last_in t x y ys last rest)

pub last_lt :
    (t : ℕ → Tcb) (p x : ℕ) (xs : List ℕ) (last : ℕ) → Linked t p (x ∷ xs) last → last < num_ids
last_lt t p x [] last (l, b, n, d, e) = ground arith
last_lt t p x (y ∷ ys) last (l, b, n, d, rest) = last_lt t x y ys last rest

-- Every thread of the list is a thread.
pub member_lt :
    (t : ℕ → Tcb) (p : ℕ) (xs : List ℕ) (last y : ℕ)
    → Linked t p xs last
    → occurrences y xs ≢ 0
    → y < num_ids
member_lt t p [] last y h m = absurd (m refl)
member_lt t p (x ∷ xs) last y (l, b, n, d, rest) m = ground (arith, member_lt t x xs last y rest)
