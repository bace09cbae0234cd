-- ===== src/System/Queues.antt =====
-- The queue in each lock holds exactly the processes that wait for that lock.
use advance_synchronization.Base.{ℕ, ◌<◌, ◌≡◌, refl, arith, ◌==◌, Bool, false}
use advance_synchronization.WaitQueue.{num_ids}
use advance_synchronization.Flock.{
  Flock, Outcome, returned, asleep, flock_acquire, flock_resume, flock_release, lock_type,
}
use advance_synchronization.WaitQueue.{WaitQueue, waitq_add, waitq_remove}
use advance_synchronization.WaitQueue.Invariant.{IsValid, queued}
use advance_synchronization.File.{File, file_flock_enter, file_close_lock}
use advance_synchronization.System.{System, Pc, running, acquiring, waiting, wake_if, Unreferenced}
use advance_synchronization.System.Views.{CallInv}

-- The process waits at the lock of inode `i`, for either type.
abbrev pub waits_at : ℕ → Pc → Bool
waits_at i running = false
waits_at i (acquiring f operation) = false
waits_at i (waiting f j operation woken) = j == i

pub record QueueInv (s : System) (i : ℕ) : Type 0 where
  pub valid : IsValid (s.flock i).waitq
  pub marks : (p : ℕ) → p < num_ids → queued (s.flock i).waitq p ≡ waits_at i (s.pc p)

pub QueueInv-frame :
    {s u : System} (i : ℕ)
    → QueueInv s i
    → (u.flock i).waitq ≡ (s.flock i).waitq
    → ((p : ℕ) → waits_at i (u.pc p) ≡ waits_at i (s.pc p))
    → QueueInv u i
QueueInv-frame i v same kept = record {
  valid = rw same v.valid;
  marks = λ p l. rw (same, kept p) (v.marks p l);
}

pub waits_at-wake_if :
    (woke : Bool) (j : ℕ) (pc : ℕ → Pc) (q i : ℕ)
    → waits_at i (wake_if woke j pc q) ≡ waits_at i (pc q)
waits_at-wake_if woke j pc q i = ground arith

waitq-release : (fl : Flock) (t : ℕ) → (flock_release fl t).0.waitq ≡ fl.waitq
unfolding flock_release
waitq-release fl t = ground arith

pub waitq-enter :
    (f : File) (fl : Flock) (operation : ℕ) → (file_flock_enter f fl operation).1.waitq ≡ fl.waitq
unfolding file_flock_enter
waitq-enter f fl operation = ground (arith, waitq-release fl f.holding_flock)

pub waitq-close_lock : (f : File) (fl : Flock) → (file_close_lock f fl).0.waitq ≡ fl.waitq
unfolding file_close_lock
waitq-close_lock f fl = ground (arith, waitq-release fl f.holding_flock)

-- The queue after a section of a lock request, by how the section ends.
abbrev pub queue_after : WaitQueue → ℕ → ℕ → Outcome → WaitQueue
queue_after q pid t (returned r) = q
queue_after q pid t asleep = waitq_add q pid t

pub waitq-obtain :
    (fl : Flock) (pid operation : ℕ)
    → let (fl', out) = flock_acquire fl pid operation in
      fl'.waitq ≡ queue_after fl.waitq pid (lock_type operation) out
unfolding flock_acquire
waitq-obtain fl pid operation = ground arith

pub waitq-resume :
    (fl : Flock) (pid operation : ℕ)
    → let (fl', out) = flock_resume fl pid operation in
      fl'.waitq ≡ elim out [ returned r ↦ waitq_remove fl.waitq pid | asleep ↦ fl.waitq ]
unfolding flock_resume
waitq-resume fl pid operation = ground arith

-- Nobody waits at the lock of an inode that no open file has.
pub nobody_at :
    {s : System} → CallInv s → (i : ℕ) → Unreferenced s i → (q : ℕ) → waits_at i (s.pc q) ≡ false
nobody_at {s} v i none_open q = go (s.pc q) refl
  where
    go : (pc : Pc) → s.pc q ≡ pc → waits_at i pc ≡ false
    go running e = refl
    go (acquiring g operation) e = refl
    go (waiting g j operation woken) e =
        ground (arith, v.sleeping q g j operation woken e, none_open g)
