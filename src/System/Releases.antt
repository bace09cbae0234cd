-- ===== src/System/Releases.antt =====
-- The release of a lock, by `file_flock` or by the last close, keeps the counters of every lock right
-- and leaves nobody asleep without reason; and so do the calls that touch no lock.
use advance_synchronization.Base.{
  ℕ, ◌-◌, ◌<◌, ◌≡◌, ◌≢◌, refl, arith, ◌==◌, Bool, true, false, inl, inr, update, eq→==, bit,
  count-congr, count-pos,
}
use native.Mathlib.Decide.{ℕ_discrete}
use advance_synchronization.WaitQueue.{num_ids}
use advance_synchronization.Flock.{Flock, flock_release, lock_type, lock_sh, lock_ex}
use advance_synchronization.Flock.Counts.{release-Counts, release-blocked}
use advance_synchronization.File.{File, nfile}
use advance_synchronization.System.{System, Pc, running, acquiring, waiting, wake, wake_if}
use advance_synchronization.System.Views.{
  LockInv, LockInv-frame, IsLock, holds, waits, holders, waiters, holders-change,
}

pub waits-wake_if :
    (woke : Bool) (i : ℕ) (pc : ℕ → Pc) (q j t : ℕ)
    → waits j t (wake_if woke i pc q) ≡ waits j t (pc q)
waits-wake_if woke i pc q j t = ground arith

-- Who sleeps after a wake-up slept before, at another lock if the wake-up took place.
wake-asleep :
    (pc : Pc) (i g j other : ℕ)
    → wake i pc ≡ waiting g j other false
    → (pc ≡ waiting g j other false) × (i ≢ j)
wake-asleep running i g j other h = absurd (cc)
wake-asleep (acquiring k o) i g j other h = absurd (cc)
wake-asleep (waiting k m o before) i g j other h = ground arith

pub wake_if-asleep :
    (woke : Bool) (i : ℕ) (pc : ℕ → Pc) (q g j other : ℕ)
    → wake_if woke i pc q ≡ waiting g j other false
    → (pc q ≡ waiting g j other false) × ((woke ≡ true) → i ≢ j)
wake_if-asleep true i pc q g j other h =
    let (e, d) = wake-asleep (pc q) i g j other h in (e, λ _. d)
wake_if-asleep false i pc q g j other h = (h, λ e. absurd (cc))

-- The processes of `u` stand where those of `s` do, but for wake-ups at inode `i` and for moves that
-- neither begin nor end a wait.
pub record Woken (s u : System) (woke : Bool) (i : ℕ) : Type 0 where
  pub waits_kept : (j t q : ℕ) → waits j t (u.pc q) ≡ waits j t (s.pc q)
  pub sleepers :
      (q g j other : ℕ)
      → u.pc q ≡ waiting g j other false
      → (s.pc q ≡ waiting g j other false) × ((woke ≡ true) → i ≢ j)

module _ {s : System} (locks : (j : ℕ) → LockInv s j) (f : ℕ) (new : File) (pc : ℕ → Pc)
    (woke : Bool) (i : ℕ) where
  -- No lock changes hands: every lock is as it was, and the changed entry holds what it held.
  module _ (flock : ℕ → Flock) where
    abbrev unlocked : System
    unlocked = record { file = update s.file f new; flock = flock; pc = pc }

    pub unlocked-LockInv :
        Woken s unlocked woke i
        → ((j : ℕ) → flock j ≡ s.flock j)
        → ((j t : ℕ) → IsLock t → holds unlocked.file j t f ≡ holds s.file j t f)
        → (j : ℕ) → LockInv unlocked j
    unlocked-LockInv w same kept j =
        LockInv-frame j (locks j) (same j) (λ t g k l. ground (arith, kept j t k))
          (λ t q. w.waits_kept j t q) (λ q g other e. (w.sleepers q g j other e).0)

  -- The lock that the entry holds is released, and the entry holds none afterwards.
  module _ (l : f < nfile) (t : ℕ) (k : IsLock t) (held : holds s.file i t f ≡ true) where
    abbrev let_go : Flock
    let_go = (flock_release (s.flock i) t).0

    abbrev released : System
    released = record { file = update s.file f new; flock = update s.flock i let_go; pc = pc }

    module _ (w : Woken s released woke i) (woke_lem : woke ≡ (flock_release (s.flock i) t).1)
        (gone : (j u : ℕ) → IsLock u → holds released.file j u f ≡ false) where
      released-holders : (u : ℕ) → IsLock u → holders released i u ≡ holders s i u - bit (t == u)
      released-holders u n =
          ground
            (arith, holders-change s.file released.file i u f l (λ g d. ground arith), gone i u n)

      released-waiters : (u : ℕ) → waiters released i u ≡ waiters s i u
      released-waiters u =
          count-congr num_ids (λ q. waits i u (pc q)) (λ q. waits i u (s.pc q))
            (λ q _. w.waits_kept i u q)

      some_holder : 0 < holders s i t
      some_holder = count-pos nfile (holds s.file i t) f l held

      released-own : LockInv released i
      released-own =
          let counted = release-Counts (locks i).counts t (elim k [
            | inl e ↦ inl (e, rw e at some_holder)
            | inr e ↦ inr (e, rw e at some_holder)
          ]) in
          record {
            counts =
                rw
                  (
                    eq→== i i refl,
                    released-holders lock_sh (inl refl),
                    released-holders lock_ex (inr refl),
                    released-waiters lock_sh,
                    released-waiters lock_ex,
                  )
                  counted.0;
            stuck = λ q g other e.
                let (before, other_lock) = w.sleepers q g i other e in
                rw (eq→== i i refl) (
                  release-blocked (locks i).counts t (lock_type other)
                    (ground (arith, woke_lem, other_lock)) ((locks i).stuck q g other before));
          }

      pub released-LockInv : (j : ℕ) → LockInv released j
      released-LockInv j = elim (ℕ_discrete j i) [
        | yes e ↦ rw e released-own
        | no d ↦
            LockInv-frame j (locks j) (ground arith) (λ u g n m. ground (arith, gone j u n))
              (λ u q. w.waits_kept j u q) (λ q g other e. (w.sleepers q g j other e).0)
      ]
