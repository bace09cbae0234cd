-- ===== src/Flock/Counts.antt =====
-- The counters of a lock against the numbers of those that hold it and of those that wait for it.
use advance_synchronization.Base.{
  ℕ, ◌+◌, ◌-◌, ◌<◌, ◌≡◌, refl, arith, ◌==◌, if◌then◌else◌, Bool, true, false, bit, pos, negsuc,
  zero, suc, ◌≢◌, ◌⊎◌,
}
use advance_synchronization.WaitQueue.{waitq_add, waitq_remove}
use advance_synchronization.Flock.{
  Flock, LockState, inactive, shared, exclusive, lock_type, lock_sh, lock_ex, lock_un, Outcome,
  returned, asleep, is_inactive, shared_blocked, exclusive_blocked, flock_init, flock_acquire,
  flock_resume, flock_release,
}

-- What a state says of the numbers of shared and of exclusive holders.
abbrev pub Holds : LockState → ℕ → ℕ → Type 0
Holds inactive sh ex = (sh ≡ 0) × (ex ≡ 0)
Holds shared sh ex = (0 < sh) × (ex ≡ 0)
Holds exclusive sh ex = (sh ≡ 0) × (ex ≡ 1)

pub record Counts (fl : Flock) (sh ex wsh wex : ℕ) : Type 0 where
  pub held : Holds fl.state sh ex
  pub holders : fl.shared_holders ≡ sh
  pub sharers : fl.waiting_shared ≡ wsh
  pub writers : fl.waiting_exclusive ≡ wex

-- The test that a sleeper of that kind of lock makes.
abbrev pub blocked : ℕ → Flock → Bool
blocked type fl = if type == lock_sh then shared_blocked fl else exclusive_blocked fl

pub init-Counts : (fl : Flock) → Counts (flock_init fl) 0 0 0 0
unfolding flock_init
init-Counts fl = record { held = (refl, refl); holders = refl; sharers = refl; writers = refl }

-- What `flock_acquire` may do with a request for a lock of type `t`: grant it, put the caller to
-- sleep on a test that fails, or refuse and leave the lock as it was.
abbrev pub Obtained : ℕ → ℕ → Flock → ℕ → ℕ → ℕ → ℕ → Flock → Outcome → Type 0
Obtained t pid fl sh ex wsh wex fl' (returned (pos zero)) =
    ((t ≡ lock_sh) ⊎ (t ≡ lock_ex))
    × Counts fl' (sh + bit (t == lock_sh)) (ex + bit (t == lock_ex)) wsh wex
    × (blocked t fl ≡ false)
    × (fl'.waitq ≡ fl.waitq)
Obtained t pid fl sh ex wsh wex fl' (returned (pos (suc n))) = ⊥
Obtained t pid fl sh ex wsh wex fl' (returned (negsuc n)) = fl' ≡ fl
Obtained t pid fl sh ex wsh wex fl' asleep =
    ((t ≡ lock_sh) ⊎ (t ≡ lock_ex))
    × Counts fl' sh ex (wsh + bit (t == lock_sh)) (wex + bit (t == lock_ex))
    × (blocked t fl' ≡ true)
    × (fl'.waitq ≡ waitq_add fl.waitq pid t)

-- What a sleeper that runs again may do: take the lock, or go back to sleep.
abbrev pub Resumed : ℕ → ℕ → Flock → ℕ → ℕ → ℕ → ℕ → Flock → Outcome → Type 0
Resumed t pid fl sh ex wsh wex fl' (returned (pos zero)) =
    Counts fl' (sh + bit (t == lock_sh)) (ex + bit (t == lock_ex)) (wsh - bit (t == lock_sh))
      (wex - bit (t == lock_ex))
    × (blocked t fl ≡ false)
    × (fl'.waitq ≡ waitq_remove fl.waitq pid)
Resumed t pid fl sh ex wsh wex fl' (returned (pos (suc n))) = ⊥
Resumed t pid fl sh ex wsh wex fl' (returned (negsuc n)) = ⊥
Resumed t pid fl sh ex wsh wex fl' asleep = (fl' ≡ fl) × (blocked t fl ≡ true)

module _ {fl : Flock} {sh ex wsh wex : ℕ} (c : Counts fl sh ex wsh wex) where
  -- With the counters right, the release of a lock of a type that is held takes one holder of that type
  -- away, returns 0 and leaves the queue alone, and wakes the sleepers just when nobody holds the lock
  -- afterwards.
  pub release-Counts :
      (t : ℕ)
      → ((t ≡ lock_sh) × (0 < sh)) ⊎ ((t ≡ lock_ex) × (0 < ex))
      → let (fl', woke, r) = flock_release fl t in
        Counts fl' (sh - bit (t == lock_sh)) (ex - bit (t == lock_ex)) wsh wex
        × (woke ≡ is_inactive fl'.state)
        × (r ≡ pos 0)
        × (fl'.waitq ≡ fl.waitq)
  unfolding flock_release
  release-Counts t h = ground arith

  pub acquire-Obtained :
      (pid operation : ℕ)
      → lock_type operation ≢ lock_un
      → let (fl', out) = flock_acquire fl pid operation in
        Obtained (lock_type operation) pid fl sh ex wsh wex fl' out
  unfolding flock_acquire
  acquire-Obtained pid operation h = ground arith

  -- With the counters right, a sleeper that runs again takes the lock, with result 0, the counters right
  -- for one more holder and one fewer that waits, and the sleeper out of the queue, or goes back to sleep
  -- on a test that still fails and changes nothing.
  pub resume-Resumed :
      (pid operation : ℕ)
      → (lock_type operation ≡ lock_sh) ⊎ (lock_type operation ≡ lock_ex)
      → let (fl', out) = flock_resume fl pid operation in
        Resumed (lock_type operation) pid fl sh ex wsh wex fl' out
  unfolding flock_resume
  resume-Resumed pid operation h = ground arith

  -- A test that failed still fails after another process has gone through `flock_acquire`.
  pub acquire-blocked :
      (pid operation t : ℕ)
      → blocked t fl ≡ true
      → blocked t (flock_acquire fl pid operation).0 ≡ true
  unfolding flock_acquire
  acquire-blocked pid operation t h = ground arith

  pub resume-blocked :
      (pid operation t : ℕ)
      → blocked t fl ≡ true
      → blocked t (flock_resume fl pid operation).0 ≡ true
  unfolding flock_resume
  resume-blocked pid operation t h = ground arith

  pub release-blocked :
      (t u : ℕ)
      → let (fl', woke, r) = flock_release fl t in
        woke ≡ false → blocked u fl ≡ true → blocked u fl' ≡ true
  unfolding flock_release
  release-blocked t u h k = ground arith

-- An exclusive holder is the only holder.
pub exclusive_alone :
    {fl : Flock} {sh ex wsh wex : ℕ} → Counts fl sh ex wsh wex → 0 < ex → (sh ≡ 0) × (ex ≡ 1)
exclusive_alone {fl} {sh} {ex} c h = go fl.state c.held
  where
    go : (st : LockState) → Holds st sh ex → (sh ≡ 0) × (ex ≡ 1)
    go inactive d = absurd (omega arith)
    go shared d = absurd (omega arith)
    go exclusive d = d

-- A lock that is not inactive has a holder.
pub active_holder :
    {fl : Flock} {sh ex wsh wex : ℕ}
    → Counts fl sh ex wsh wex
    → is_inactive fl.state ≡ false
    → 0 < sh + ex
active_holder {fl} {sh} {ex} c h = go fl.state c.held h
  where
    go : (st : LockState) → Holds st sh ex → is_inactive st ≡ false → 0 < sh + ex
    go inactive d e = absurd (cc)
    go shared d e = omega arith
    go exclusive d e = omega arith
