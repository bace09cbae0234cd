-- ===== src/WaitQueue/Invariant.antt =====
-- The marks of a wait queue agree with its slots, and the operations are those of a list without
-- repetitions.
use mathlib.Core.List.{erase}
use native.Mathlib.Decide.{ℕ_discrete}
use native.Mathlib.Nat.{sub-zero}
use native.Mathlib.Numerals.{add-one}
use advance_synchronization.Base.{
  ℕ, zero, suc, ◌+◌, ◌-◌, ◌<◌, ◌≤◌, ◌≡◌, refl, [], ◌∷◌, ◌++◌, arith, ◌==◌, if◌then◌else◌, update,
  not, Bool, true, false, inl, inr, Bool-cases, bit, count, count-change, count-lt, count-eq-zero,
  eq→==, ne→==, sym,
}
use advance_synchronization.WaitQueue.{
  WaitQueue, num_ids, uint8, remove_from, waitq_add, waitq_remove, waitq_init, clear_marks,
  clear_below,
}
use advance_synchronization.WaitQueue.Order.{
  contents, occurrences, slots-update_last, remove_from_lem, occurrences-append,
  occurrences-erase_self, occurrences-erase_ne, len-remove_from, marks-remove_from, erase_absent,
}

abbrev pub queued : WaitQueue → ℕ → Bool
queued q p = not (q.inq p == 0)

pub record IsValid (q : WaitQueue) : Type 0 where
  pub counted : q.len ≡ count num_ids (queued q)
  pub once : (p : ℕ) → p < num_ids → occurrences p (contents q) ≡ bit (queued q p)
  pub small : (p : ℕ) → num_ids ≤ p → occurrences p (contents q) ≡ 0

-- A process that is not queued finds a free slot.
has_room :
    {q : WaitQueue} (pid : ℕ) → IsValid q → pid < num_ids → queued q pid ≡ false → q.len < num_ids
has_room {q} pid v l h = omega (arith, v.counted, count-lt num_ids (queued q) pid l h)

abbrev appended : WaitQueue → ℕ → ℕ → WaitQueue
appended q pid r = record q {
  pids = update q.pids q.len pid;
  len = q.len + 1;
  inq = update q.inq pid 1;
  req = update q.req pid (uint8 r);
}

module _ {q : WaitQueue} (pid r : ℕ) (v : IsValid q) (l : pid < num_ids) where
  waitq_add_new : queued q pid ≡ false → waitq_add q pid r ≡ appended q pid r
  unfolding waitq_add
  waitq_add_new m = ground (arith, has_room pid v l m)

  contents-appended : contents (appended q pid r) ≡ contents q ++ pid ∷ []
  contents-appended = rw add-one (slots-update_last q.pids 0 q.len q.len pid (omega arith))

  -- On a valid queue `waitq_add` puts a process that is not queued at the end, and leaves the order
  -- of the queue alone for one that is.
  pub contents-waitq_add :
      contents (waitq_add q pid r) ≡ (if queued q pid then contents q else contents q ++ pid ∷ [])
  contents-waitq_add = elim (Bool-cases (queued q pid)) [
    | inl y ↦ rw y (unfold waitq_add in ground arith)
    | inr m ↦ rw (m, waitq_add_new m) contents-appended
  ]

  appended-IsValid : queued q pid ≡ false → IsValid (appended q pid r)
  appended-IsValid m = record {
    counted = ground (
      arith,
      v.counted,
      count-change num_ids (queued q) (queued (appended q pid r)) pid l (λ j d. ground arith),
    );
    once = λ p h.
        rw contents-appended
          (ground (arith, occurrences-append p (contents q) (pid ∷ []), v.once p h));
    small = λ p h.
        rw contents-appended
          (ground (arith, occurrences-append p (contents q) (pid ∷ []), v.small p h));
  }

  waitq_add_again :
      queued q pid ≡ true → waitq_add q pid r ≡ record q { req = update q.req pid (uint8 r) }
  unfolding waitq_add
  waitq_add_again y = ground arith

  -- `waitq_add` keeps the marks and the slots in agreement.
  pub waitq_add-IsValid : IsValid (waitq_add q pid r)
  waitq_add-IsValid = elim (Bool-cases (queued q pid)) [
    | inl y ↦
        rw (waitq_add_again y) (record { counted = v.counted; once = v.once; small = v.small })
    | inr m ↦ rw (waitq_add_new m) (appended-IsValid m)
  ]

module _ {q : WaitQueue} (pid : ℕ) (v : IsValid q) (l : pid < num_ids) where
  waitq_remove-queued :
      queued q pid ≡ true → waitq_remove q pid ≡ clear_marks (remove_from q.len 0 q pid) pid
  unfolding waitq_remove
  waitq_remove-queued y = ground arith

  waitq_remove_absent : queued q pid ≡ false → waitq_remove q pid ≡ q
  unfolding waitq_remove
  waitq_remove_absent m = ground arith

  contents-remove_from : contents (remove_from q.len 0 q pid) ≡ erase ℕ_discrete (contents q) pid
  contents-remove_from = rw sub-zero at (remove_from_lem q.len 0 pid q (omega arith))

  -- On a valid queue `waitq_remove` takes the process out and keeps the others in their order.
  pub contents-waitq_remove : contents (waitq_remove q pid) ≡ erase ℕ_discrete (contents q) pid
  contents-waitq_remove = elim (Bool-cases (queued q pid)) [
    | inl y ↦ rw (waitq_remove-queued y) contents-remove_from
    | inr m ↦
        rw (waitq_remove_absent m, erase_absent pid (contents q) (ground (arith, v.once pid l)))
  ]

  abbrev taken_out : WaitQueue
  taken_out = clear_marks (remove_from q.len 0 q pid) pid

  marks : (remove_from q.len 0 q pid).inq ≡ q.inq
  marks = (marks-remove_from q.len 0 pid q).0

  queued-taken_out : (p : ℕ) → queued taken_out p ≡ (if pid == p then false else queued q p)
  queued-taken_out p = rw marks (ground arith)

  taken_out-counted : queued q pid ≡ true → taken_out.len ≡ count num_ids (queued taken_out)
  taken_out-counted y = ground (
    arith,
    v.counted,
    v.once pid l,
    len-remove_from q.len 0 pid q,
    queued-taken_out pid,
    count-change num_ids (queued q) (queued taken_out) pid l
        (λ j d. ground (arith, queued-taken_out j)),
  )

  occurrences-taken_out :
      (p : ℕ)
      → occurrences p (contents taken_out)
        ≡ (if pid == p then occurrences p (contents q) - 1 else occurrences p (contents q))
  occurrences-taken_out p = rw contents-remove_from (elim (ℕ_discrete pid p) [
    | yes e ↦ rw (eq→== _ _ e, e) (occurrences-erase_self p (contents q))
    | no ne ↦ rw (ne→== _ _ ne) (occurrences-erase_ne p pid (contents q) (λ d. ne (sym d)))
  ])

  taken_out-IsValid : queued q pid ≡ true → IsValid taken_out
  taken_out-IsValid y = record {
    counted = taken_out-counted y;
    once = λ p h. ground (arith, occurrences-taken_out p, queued-taken_out p, v.once p h);
    small = λ p h. ground (arith, occurrences-taken_out p, v.small p h);
  }

  -- `waitq_remove` keeps the marks and the slots in agreement.
  pub waitq_remove-IsValid : IsValid (waitq_remove q pid)
  waitq_remove-IsValid = elim (Bool-cases (queued q pid)) [
    | inl y ↦ rw (waitq_remove-queued y) (taken_out-IsValid y)
    | inr m ↦ rw (waitq_remove_absent m) v
  ]

  pub queued-waitq_remove :
      (p : ℕ) → queued (waitq_remove q pid) p ≡ (if pid == p then false else queued q p)
  queued-waitq_remove p = elim (Bool-cases (queued q pid)) [
    | inl y ↦ rw (waitq_remove-queued y) (queued-taken_out p)
    | inr m ↦ rw (waitq_remove_absent m) (ground arith)
  ]

module _ {q : WaitQueue} (pid r : ℕ) (v : IsValid q) (l : pid < num_ids) where
  pub queued-waitq_add :
      (p : ℕ) → queued (waitq_add q pid r) p ≡ (if pid == p then true else queued q p)
  queued-waitq_add p = elim (Bool-cases (queued q pid)) [
    | inl y ↦ rw (waitq_add_again pid r v l y) (ground arith)
    | inr m ↦ rw (waitq_add_new pid r v l m) (ground arith)
  ]

clear_below_lem : (n : ℕ) (a : ℕ → ℕ) (j : ℕ) → j < n → clear_below n a j ≡ 0
unfolding clear_below
clear_below_lem zero a j h = absurd (omega arith)
clear_below_lem (suc n) a j h = ground (arith, clear_below_lem n a j)

pub waitq_init_marks : (q : WaitQueue) (p : ℕ) → p < num_ids → queued (waitq_init q) p ≡ false
unfolding waitq_init
waitq_init_marks q p h = ground (arith, clear_below_lem num_ids q.inq p h)

-- After `flock_init` nobody is queued, whatever the memory held.
pub waitq_init_lem : (q : WaitQueue) → (contents (waitq_init q) ≡ []) × IsValid (waitq_init q)
unfolding waitq_init
waitq_init_lem q = (
  refl,
  record {
    counted = sym (count-eq-zero num_ids (queued (waitq_init q)) (waitq_init_marks q));
    once = λ p h. ground (arith, waitq_init_marks q p h);
    small = λ p h. refl;
  },
)
