-- ===== src/System/Invariant.antt =====
-- `file_flock` up to `flock_acquire` keeps the invariant of processes, files and locks.
use advance_synchronization.Base.{
  ℕ, ◌<◌, ◌≡◌, ◌≢◌, refl, arith, Bool, true, false, ◌⊎◌, inl, inr, eq→==, pos, count-pos,
}
use advance_synchronization.WaitQueue.{num_ids}
use advance_synchronization.Flock.{Flock, flock_release}
use advance_synchronization.Flock.Counts.{release-Counts}
use advance_synchronization.File.{File, nfile, file_flock_enter, Next}
use advance_synchronization.System.{System, running, enter, Unused}
use advance_synchronization.System.Views.{CallInv, LockInv, Inv, holds, holders}
use advance_synchronization.System.Entries.{
  entered, enter-entered, entered-CallInv, file_flock_enter-Entry,
}
use advance_synchronization.System.Releases.{
  Woken, waits-wake_if, wake_if-asleep, unlocked-LockInv, released-LockInv,
}

-- The first section of `file_flock` either leaves the lock alone or releases the one that is held.
enter_cases :
    (f : File) (fl : Flock) (operation : ℕ)
    → (f.holding_flock ≢ 0 → (flock_release fl f.holding_flock).2 ≡ pos 0)
    → let (f', fl', woke, go_on) = file_flock_enter f fl operation in
      ((f' ≡ f) × (fl' ≡ fl) × (woke ≡ false))
      ⊎ ((f.holding_flock ≢ 0)
          × (f' ≡ record f { holding_flock = 0 })
          × (fl' ≡ (flock_release fl f.holding_flock).0)
          × (woke ≡ (flock_release fl f.holding_flock).1))
unfolding file_flock_enter
enter_cases f fl operation h = ground arith

module _ {s : System} (v : Inv s) where
  -- The holder of a lock is counted, so its release succeeds.
  held-count :
      (f : ℕ)
      → f < nfile
      → (s.file f).ref ≢ 0
      → (s.file f).holding_flock ≢ 0
      → holds s.file (s.file f).ip (s.file f).holding_flock f ≡ true
  held-count f l r h = ground arith

  module _ (p f operation : ℕ) (l : p < num_ids) (m : f < nfile) (at : s.pc p ≡ running)
      (is_open : (s.file f).ref ≢ 0) (unused : Unused s f) where
    abbrev i : ℕ
    i = (s.file f).ip

    abbrev first : File × Flock × Bool × Next
    first = file_flock_enter (s.file f) (s.flock i) operation

    abbrev ended : System
    ended = entered s p f i operation first.0 first.1 first.2 first.3

    enter-Woken : Woken s ended first.2 i
    enter-Woken = record {
      waits_kept = λ j t q. ground (arith, waits-wake_if first.2 i s.pc q j t);
      sleepers = λ q g j other e. ground (arith, wake_if-asleep first.2 i s.pc q g j other);
    }

    enter-CallInv : CallInv ended
    enter-CallInv =
        entered-CallInv i first.1 first.2 v.calls l m is_open unused
          (file_flock_enter-Entry (s.file f) (s.flock i) operation)

    release-succeeds :
        (s.file f).holding_flock ≢ 0
        → (flock_release (s.flock i) (s.file f).holding_flock).2 ≡ pos 0
    release-succeeds h =
        let some_holder : 0 < holders s i (s.file f).holding_flock =
          count-pos nfile (holds s.file i (s.file f).holding_flock) f m
            (held-count f m is_open h) in
        (release-Counts (v.locks i).counts (s.file f).holding_flock
          (elim (v.calls.owned f is_open h).0 [
            | inl e ↦ inl (e, rw e at some_holder)
            | inr e ↦ inr (e, rw e at some_holder)
          ])).2

    enter-LockInv : (j : ℕ) → LockInv ended j
    enter-LockInv j = elim (enter_cases (s.file f) (s.flock i) operation release-succeeds) [
      | inl (same, still, silent) ↦
          unlocked-LockInv v.locks f first.0 ended.pc first.2 i ended.flock enter-Woken
            (λ k. ground arith) (λ k t n. rw (eq→== f f refl, same)) j
      | inr (h, new, gave, woke) ↦ rw gave (
          released-LockInv v.locks f first.0 ended.pc first.2 i m (s.file f).holding_flock
            (v.calls.owned f is_open h).0 (held-count f m is_open h)
            (record { waits_kept = enter-Woken.waits_kept; sleepers = enter-Woken.sleepers }) woke
            (λ k t n. rw (eq→== f f refl, new) (ground arith)) j)
    ]

    pub enter-Inv : Inv (enter s p f operation)
    enter-Inv =
        rw (enter-entered s p f operation) (record { calls = enter-CallInv; locks = enter-LockInv })
