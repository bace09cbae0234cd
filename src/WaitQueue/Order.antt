-- ===== src/WaitQueue/Order.antt =====
-- The array of `WaitQueue` as the list of its processes, oldest first.
use mathlib.Core.Path.{ap₂}
use mathlib.Core.Logic.{if_pos, if_neg}
use mathlib.Core.List.{erase}
use native.Mathlib.Decide.{ℕ_discrete}
use advance_synchronization.Base.{
  ℕ, zero, suc, ◌+◌, ◌-◌, ◌<◌, ◌≤◌, ◌≡◌, refl, ◌≢◌, List, [], ◌∷◌, ◌++◌, arith, ◌==◌, update, bit,
  eq→==, ne→==,
}
use advance_synchronization.WaitQueue.{WaitQueue, shift_down, remove_from}

-- The `n` slots of an array from slot `i` on.
abbrev pub slots : (ℕ → ℕ) → ℕ → ℕ → List ℕ
slots a i zero = []
slots a i (suc n) = a i ∷ slots a (i + 1) n

abbrev pub contents : WaitQueue → List ℕ
contents q = slots q.pids 0 q.len

abbrev pub occurrences : ℕ → List ℕ → ℕ
occurrences p [] = 0
occurrences p (x ∷ xs) = bit (x == p) + occurrences p xs

-- A slot outside the range does not matter.
slots-update : (a : ℕ → ℕ) (i n j v : ℕ) → j < i → slots (update a j v) i n ≡ slots a i n
slots-update a i zero j v h = refl
slots-update a i (suc n) j v h = ground (arith, slots-update a (i + 1) n j v)

pub slots-update_last :
    (a : ℕ → ℕ) (i n j v : ℕ) → i + n ≡ j → slots (update a j v) i (suc n) ≡ slots a i n ++ v ∷ []
slots-update_last a i zero j v h = ground arith
slots-update_last a i (suc n) j v h = ground (arith, slots-update_last a (i + 1) n j v)

shift_down_below : (n i j : ℕ) (a : ℕ → ℕ) → j < i → shift_down n i a j ≡ a j
unfolding shift_down
shift_down_below zero i j a h = refl
shift_down_below (suc n) i j a h =
    ground (arith, shift_down_below n (i + 1) j (update a i (a (i + 1))))

slots-shift_down : (n i : ℕ) (a : ℕ → ℕ) → slots (shift_down n i a) i n ≡ slots a (i + 1) n
unfolding shift_down
slots-shift_down zero i a = refl
slots-shift_down (suc n) i a = ground (
  arith,
  slots-shift_down n (i + 1) (update a i (a (i + 1))),
  shift_down_below n (i + 1) i (update a i (a (i + 1))),
  slots-update a (i + 1 + 1) n i (a (i + 1)),
)

remove_from_below :
    (n i j pid : ℕ) (q : WaitQueue) → j < i → (remove_from n i q pid).pids j ≡ q.pids j
unfolding remove_from
remove_from_below zero i j pid q h = refl
remove_from_below (suc n) i j pid q h =
    ground (arith, remove_from_below n (i + 1) j pid q, shift_down_below n i j q.pids)

remove_from-le : (n i pid : ℕ) (q : WaitQueue) → i + n ≡ q.len → i ≤ (remove_from n i q pid).len
unfolding remove_from
remove_from-le zero i pid q h = omega arith
remove_from-le (suc n) i pid q h = ground (arith, remove_from-le n (i + 1) pid q)

slots-cons : (a : ℕ → ℕ) (i l : ℕ) → i < l → slots a i (l - i) ≡ a i ∷ slots a (i + 1) (l - (i + 1))
slots-cons a i l h = let e : l - i ≡ suc (l - (i + 1)) = omega arith in rw e refl

-- The search takes the first slot that holds the process out of the rest of the queue.
pub remove_from_lem :
    (n i pid : ℕ) (q : WaitQueue)
    → i + n ≡ q.len
    → slots (remove_from n i q pid).pids i ((remove_from n i q pid).len - i)
      ≡ erase ℕ_discrete (slots q.pids i n) pid
unfolding remove_from
remove_from_lem zero i pid q h = let e : q.len - i ≡ 0 = omega arith in rw e refl
remove_from_lem (suc n) i pid q h = elim (ℕ_discrete (q.pids i) pid) [
  | yes e ↦
      let l : q.len - 1 - i ≡ n = omega arith in
      rw (eq→== _ _ e, if_pos _ e, l) (slots-shift_down n i q.pids)
  | no ne ↦
      rw
        (
          ne→== _ _ ne,
          if_neg _ ne,
          slots-cons _ i (remove_from n (i + 1) q pid).len
              (omega (arith, remove_from-le n (i + 1) pid q)),
        )
        (ap₂ ◌∷◌ (remove_from_below n (i + 1) i pid q (omega arith))
          (remove_from_lem n (i + 1) pid q (omega arith)))
]

pub occurrences-append :
    (p : ℕ) (xs ys : List ℕ) → occurrences p (xs ++ ys) ≡ occurrences p xs + occurrences p ys
occurrences-append p [] ys = omega arith
occurrences-append p (x ∷ xs) ys = omega (arith, occurrences-append p xs ys)

pub occurrences-erase_self :
    (p : ℕ) (xs : List ℕ) → occurrences p (erase ℕ_discrete xs p) ≡ occurrences p xs - 1
occurrences-erase_self p [] = omega arith
occurrences-erase_self p (x ∷ xs) = ground (arith, occurrences-erase_self p xs)

pub occurrences-erase_ne :
    (p r : ℕ) (xs : List ℕ) → p ≢ r → occurrences p (erase ℕ_discrete xs r) ≡ occurrences p xs
occurrences-erase_ne p r [] h = refl
occurrences-erase_ne p r (x ∷ xs) h = ground (arith, occurrences-erase_ne p r xs h)

-- Found anywhere among those slots, the process costs the queue one place.
pub len-remove_from :
    (n i pid : ℕ) (q : WaitQueue)
    → occurrences pid (slots q.pids i n) ≢ 0
    → (remove_from n i q pid).len ≡ q.len - 1
unfolding remove_from
len-remove_from zero i pid q h = absurd (h refl)
len-remove_from (suc n) i pid q h = ground (arith, len-remove_from n (i + 1) pid q)

pub marks-remove_from :
    (n i pid : ℕ) (q : WaitQueue)
    → ((remove_from n i q pid).inq ≡ q.inq) × ((remove_from n i q pid).req ≡ q.req)
unfolding remove_from
marks-remove_from zero i pid q = (refl, refl)
marks-remove_from (suc n) i pid q = ground (arith, marks-remove_from n (i + 1) pid q)

pub erase_absent : (p : ℕ) (xs : List ℕ) → occurrences p xs ≡ 0 → erase ℕ_discrete xs p ≡ xs
erase_absent p [] h = refl
erase_absent p (x ∷ xs) h = ground (arith, erase_absent p xs)
