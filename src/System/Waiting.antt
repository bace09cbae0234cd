-- ===== src/System/Waiting.antt =====
-- The queue in each lock holds exactly the processes that wait for that lock, in every reachable state.
use advance_synchronization.Base.{
  ℕ, ◌-◌, ◌<◌, ◌≡◌, ◌≢◌, refl, sym, arith, Bool, true, false, inl, inr, update, eq→==, ne→==, bit,
  count, count-congr, ap, ◌∙◌,
}
use native.Mathlib.Decide.{ℕ_discrete, dec_lt}
use advance_synchronization.WaitQueue.{num_ids}
use advance_synchronization.Flock.{
  Flock, Outcome, returned, asleep, flock_acquire, flock_resume, flock_init, lock_type,
}
use advance_synchronization.WaitQueue.{waitq_remove}
use advance_synchronization.WaitQueue.Invariant.{
  queued, waitq_add-IsValid, waitq_remove-IsValid, queued-waitq_add, queued-waitq_remove,
  waitq_init_lem, waitq_init_marks,
}
use advance_synchronization.File.{file_flock_enter}
use advance_synchronization.System.{
  System, running, acquiring, waiting, enter, obtain, resume, close, Unreferenced, Step, opens,
  duplicates, closes, enters, obtains, resumes, recycles, Boot, boot, Reach, start, next,
}
use advance_synchronization.System.Views.{CallInv}
use advance_synchronization.System.Entries.{enter-entered}
use advance_synchronization.System.Others.{close_entry_cases}
use advance_synchronization.System.Calls.{settled, obtain-settled, resume-settled}
use advance_synchronization.System.Reachable.{Reach-Inv}
use advance_synchronization.System.Queues.{
  waits_at, QueueInv, QueueInv-frame, nobody_at, queue_after, waits_at-wake_if, waitq-enter,
  waitq-close_lock, waitq-obtain, waitq-resume,
}
use advance_synchronization.WaitQueue.Order.{contents, occurrences}

module _ {s : System} (queues : (i : ℕ) → QueueInv s i) where
  enter-QueueInv :
      (p f operation : ℕ) → s.pc p ≡ running → (i : ℕ) → QueueInv (enter s p f operation) i
  enter-QueueInv p f operation at i = rw (enter-entered s p f operation) (
      QueueInv-frame i (queues i) (ground (arith, waitq-enter (s.file f) (s.flock j) operation))
        (λ q. ground (arith, waits_at-wake_if woke j s.pc q i)))
    where
      j : ℕ
      j = (s.file f).ip

      woke : Bool
      woke = (file_flock_enter (s.file f) (s.flock j) operation).2

  -- A section of a lock request does not touch the queues of other inodes.
  settled-elsewhere :
      (p f j operation : ℕ) (fl : Flock) (out : Outcome) (i : ℕ)
      → i ≢ j
      → waits_at i (s.pc p) ≡ false
      → QueueInv (settled s p f j operation fl out) i
  settled-elsewhere p f j operation fl out i d w =
      QueueInv-frame i (queues i) (ground arith) (λ q. ground (arith, w))

  module _ (p f j operation : ℕ) (l : p < num_ids) where
    obtained-own :
        (fl : Flock) (out : Outcome)
        → waits_at j (s.pc p) ≡ false
        → fl.waitq ≡ queue_after (s.flock j).waitq p (lock_type operation) out
        → QueueInv (settled s p f j operation fl out) j
    obtained-own fl (returned r) w e =
        QueueInv-frame j (queues j) (ground arith) (λ q. ground (arith, w))
    obtained-own fl asleep w e = record {
      valid = rw (eq→== j j refl, e) (waitq_add-IsValid p (lock_type operation) (queues j).valid l);
      marks = λ q m.
          rw (eq→== j j refl, e)
            (ground (
              arith,
              queued-waitq_add p (lock_type operation) (queues j).valid l q,
              (queues j).marks q m,
            ));
    }

    resumed-own :
        (fl : Flock) (out : Outcome)
        → waits_at j (s.pc p) ≡ true
        → fl.waitq
          ≡ elim out [ returned r ↦ waitq_remove (s.flock j).waitq p | asleep ↦ (s.flock j).waitq ]
        → QueueInv (settled s p f j operation fl out) j
    resumed-own fl asleep w e = QueueInv-frame j (queues j) (ground arith) (λ q. ground (arith, w))
    resumed-own fl (returned r) w e = record {
      valid = rw (eq→== j j refl, e) (waitq_remove-IsValid p (queues j).valid l);
      marks = λ q m.
          rw (eq→== j j refl, e)
            (ground (arith, queued-waitq_remove p (queues j).valid l q, (queues j).marks q m));
    }

  obtain-QueueInv :
      (p f operation : ℕ)
      → p < num_ids
      → s.pc p ≡ acquiring f operation
      → (i : ℕ) → QueueInv (obtain s p f operation) i
  obtain-QueueInv p f operation l at i =
      rw (obtain-settled s p f operation) (elim (ℕ_discrete i j) [
        | yes e ↦ rw e (
            obtained-own p f j operation l got.0 got.1 (rw at)
              (waitq-obtain (s.flock j) p operation))
        | no d ↦ settled-elsewhere p f j operation got.0 got.1 i d (rw at)
      ])
    where
      j : ℕ
      j = (s.file f).ip

      got : Flock × Outcome
      got = flock_acquire (s.flock j) p operation

  resume-QueueInv :
      (p f j operation : ℕ) (woken : Bool)
      → p < num_ids
      → s.pc p ≡ waiting f j operation woken
      → (i : ℕ) → QueueInv (resume s p f j operation) i
  resume-QueueInv p f j operation woken l at i =
      rw (resume-settled s p f j operation) (elim (ℕ_discrete i j) [
        | yes e ↦ rw e (
            resumed-own p f j operation l got.0 got.1 (rw (at, eq→== j j refl))
              (waitq-resume (s.flock j) p operation))
        | no d ↦
            settled-elsewhere p f j operation got.0 got.1 i d (rw (at, ne→== j i (λ e. d (sym e))))
      ])
    where
      got : Flock × Outcome
      got = flock_resume (s.flock j) p operation

  close-QueueInv : (f : ℕ) → (s.file f).ref ≢ 0 → (i : ℕ) → QueueInv (close s f) i
  unfolding close
  close-QueueInv f is_open i = elim (close_entry_cases s.file f is_open) [
    | inl (e, more) ↦ rw (e, close) (record { valid = (queues i).valid; marks = (queues i).marks })
    | inr e ↦
        rw (e, close)
          (QueueInv-frame i (queues i)
            (ground (
              arith,
              waitq-close_lock (record (s.file f) { ref = (s.file f).ref - 1 })
                  (s.flock (s.file f).ip),
            ))
            (λ q. waits_at-wake_if _ _ s.pc q i))
  ]

  recycle-QueueInv :
      CallInv s
      → (i : ℕ) → Unreferenced s i
      → (j : ℕ) → QueueInv (record s { flock = update s.flock i (flock_init (s.flock i)) }) j
  unfolding flock_init
  recycle-QueueInv v i none_open j = elim (ℕ_discrete i j) [
    | yes e ↦ rw (← e) (record {
      valid = rw (eq→== i i refl, flock_init) (waitq_init_lem (s.flock i).waitq).1;
      marks = λ p l.
          rw (eq→== i i refl, flock_init)
            (waitq_init_marks (s.flock i).waitq p l ∙ sym (nobody_at v i none_open p));
    })
    | no d ↦ QueueInv-frame j (queues j) (ground arith) (λ q. refl)
  ]

Step-QueueInv :
    {s t : System} → CallInv s → Step s t → ((i : ℕ) → QueueInv s i) → (i : ℕ) → QueueInv t i
Step-QueueInv v (opens f i readable writable h) q j = record {
  valid = (q j).valid;
  marks = (q j).marks;
}
Step-QueueInv v (duplicates f m unused h) q j = record { valid = (q j).valid; marks = (q j).marks }
Step-QueueInv v (closes f m is_open unused) q j = close-QueueInv q f is_open j
Step-QueueInv v (enters p f operation l m at is_open unused) q j =
    enter-QueueInv q p f operation at j
Step-QueueInv v (obtains p f operation l at) q j = obtain-QueueInv q p f operation l at j
Step-QueueInv v (resumes p f i operation l at) q j = resume-QueueInv q p f i operation true l at j
Step-QueueInv v (recycles i none_open) q j = recycle-QueueInv q v i none_open j

Boot-QueueInv : {s : System} → Boot s → (i : ℕ) → QueueInv s i
unfolding flock_init
Boot-QueueInv (boot t fl closed) i = record {
  valid = (waitq_init_lem (fl i).waitq).1;
  marks = λ p l. waitq_init_marks (fl i).waitq p l;
}

Reach-QueueInv : {s : System} → Reach s → (i : ℕ) → QueueInv s i
Reach-QueueInv (start b) i = Boot-QueueInv b i
Reach-QueueInv (next r st) i = Step-QueueInv (Reach-Inv r).calls st (Reach-QueueInv r) i

-- In every reachable state the wait queue of a lock lists a process once if it waits for the lock, and
-- not at all if it does not; its length is the number of processes that wait.
pub queue_exact :
    {s : System}
    → Reach s
    → (i p : ℕ)
    → (occurrences p (contents (s.flock i).waitq) ≡ bit (waits_at i (s.pc p)))
      × ((s.flock i).waitq.len ≡ count num_ids (λ q. waits_at i (s.pc q)))
queue_exact {s} r i p =
    let q = Reach-QueueInv r i in
    (
      elim (dec_lt p num_ids) [
        | yes l ↦ q.valid.once p l ∙ ap bit (q.marks p l)
        | no n ↦ rw ((Reach-Inv r).calls.known p (omega arith)) (q.valid.small p (omega arith))
      ],
      q.valid.counted
          ∙ count-congr num_ids (queued (s.flock i).waitq) (λ q. waits_at i (s.pc q)) q.marks,
    )
