-- ===== src/System/Reachable.antt =====
-- The invariant of processes, files and locks holds in every reachable state.
use advance_synchronization.Base.{ℕ, ◌≡◌, refl, arith, true, false, count-eq-zero, count}
use advance_synchronization.WaitQueue.{num_ids}
use advance_synchronization.Flock.{lock_sh, lock_ex}
use advance_synchronization.Flock.Counts.{init-Counts}
use advance_synchronization.File.{nfile}
use advance_synchronization.System.{
  System, Step, opens, duplicates, closes, enters, obtains, resumes, recycles, Boot, boot, Reach,
  start, next,
}
use advance_synchronization.System.Views.{Inv, holds}
use advance_synchronization.System.Locks.{
  obtain-CallInv, obtain-LockInv, resume-CallInv, resume-LockInv,
}
use advance_synchronization.System.Invariant.{enter-Inv}
use advance_synchronization.System.Others.{opens-Inv, dup-Inv, close-Inv, recycle-Inv}

pub Step-Inv : {s t : System} → Step s t → Inv s → Inv t
Step-Inv (opens f i readable writable h) v = opens-Inv v f i readable writable h
Step-Inv (duplicates f m unused h) v = dup-Inv v f m unused h
Step-Inv (closes f m is_open unused) v = close-Inv v f m is_open unused
Step-Inv (enters p f operation l m at is_open unused) v =
    enter-Inv v p f operation l m at is_open unused
Step-Inv (obtains p f operation l at) v = record {
  calls = obtain-CallInv v.calls v.locks p f operation l at;
  locks = obtain-LockInv v.calls v.locks p f operation l at;
}
Step-Inv (resumes p f i operation l at) v = record {
  calls = resume-CallInv v.calls v.locks p f operation l i true at;
  locks = resume-LockInv v.calls v.locks p f operation l i true at;
}
Step-Inv (recycles i none_open) v = recycle-Inv v i none_open

Boot-Inv : {s : System} → Boot s → Inv s
Boot-Inv (boot t fl closed) = record {
  calls = record {
    opened = λ f l. closed f;
    owned = λ f r h. absurd (r (closed f));
    calling = λ p f operation e. absurd (cc);
    sleeping = λ p f i operation woken e. absurd (cc);
    alone = λ p q f h k. absurd (cc);
    known = λ p l. refl;
  };
  locks = λ j. record {
    counts =
        rw (nobody j lock_sh, nobody j lock_ex, count-eq-zero num_ids (λ p. false) (λ p l. refl))
          (init-Counts (fl j));
    stuck = λ p f operation e. absurd (cc);
  };
}
  where
    nobody : (j u : ℕ) → count nfile (holds t j u) ≡ 0
    nobody j u = count-eq-zero nfile (holds t j u) (λ f l. ground (arith, closed f))

-- The counters of every lock are exact and every sleeper that was not woken is blocked, in every
-- reachable state.
pub Reach-Inv : {s : System} → Reach s → Inv s
Reach-Inv (start b) = Boot-Inv b
Reach-Inv (next r st) = Step-Inv st (Reach-Inv r)
