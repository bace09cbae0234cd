-- ===== src/System/Liveness.antt =====
-- Progress at a lock: somebody can always go on, and a waiting writer comes before new readers.
use advance_synchronization.Base.{
  pos, ℕ, ◌<◌, ◌≡◌, ◌≢◌, refl, arith, Bool, true, false, ◌⊎◌, inl, inr, count_witness,
}
use native.Mathlib.Decide.{dec_lt}
use advance_synchronization.WaitQueue.{num_ids}
use advance_synchronization.Flock.{
  Flock, LockState, lock_type, lock_sh, lock_ex, inactive, shared, exclusive, is_inactive, returned,
  flock_resume,
}
use advance_synchronization.Flock.Counts.{blocked, active_holder}
use advance_synchronization.File.{nfile}
use advance_synchronization.System.{System, Pc, running, acquiring, waiting, Reach}
use advance_synchronization.System.Views.{Inv, IsLock, holds, waits, holders, waiters}
use advance_synchronization.System.Reachable.{Reach-Inv}

-- What it means to be counted among those that wait.
waits_lem :
    (pc : Pc) (i t : ℕ)
    → waits i t pc ≡ true
    → (f : ℕ) × (operation : ℕ) × (woken : Bool) × (pc ≡ waiting f i operation woken)
      × (lock_type operation ≡ t)
waits_lem running i t h = absurd (cc)
waits_lem (acquiring f operation) i t h = absurd (cc)
waits_lem (waiting f j operation woken) i t h = (f, operation, woken, ground arith, ground arith)

-- A sleeper whose test no longer fails takes the lock when it runs.
resume_unblocked :
    (fl : Flock) (q operation : ℕ)
    → IsLock (lock_type operation)
    → blocked (lock_type operation) fl ≡ false
    → (flock_resume fl q operation).1 ≡ returned (pos 0)
unfolding flock_resume
resume_unblocked fl q operation k h = ground arith

state_cases : (st : LockState) → (st ≡ inactive) ⊎ (is_inactive st ≡ false)
state_cases inactive = inl refl
state_cases shared = inr refl
state_cases exclusive = inr refl

module _ {s : System} (v : Inv s) (i : ℕ) where
  -- A process that can take the lock of inode `i` as soon as it runs.
  abbrev Ready : Type 0
  Ready =
      (q g operation : ℕ) × (q < num_ids)
      × (s.pc q ≡ waiting g i operation true)
      × ((flock_resume (s.flock i) q operation).1 ≡ returned (pos 0))

  abbrev Held : Type 0
  Held = (g : ℕ) × ((s.file g).ref ≢ 0) × ((s.file g).ip ≡ i) × ((s.file g).holding_flock ≢ 0)

  holder_witness : (t : ℕ) → IsLock t → 0 < holders s i t → Held
  holder_witness t k h =
      let (g, l, e) = count_witness nfile (holds s.file i t) h in
      (g, ground arith, ground arith, ground arith)

  -- A process whose test no longer fails has been woken.
  ready :
      (p f operation : ℕ) (woken : Bool)
      → s.pc p ≡ waiting f i operation woken
      → blocked (lock_type operation) (s.flock i) ≡ false
      → Ready
  ready p f operation true at free = (
    p,
    f,
    operation,
    known_process,
    at,
    resume_unblocked (s.flock i) p operation (v.calls.sleeping p f i operation true at).5 free,
  )
    where
      known_process : p < num_ids
      known_process = elim (dec_lt p num_ids) [
        | yes l ↦ l
        | no n ↦ absurd (cc (at, v.calls.known p (omega arith)))
      ]
  ready p f operation false at free = absurd (cc (free, (v.locks i).stuck p f operation at))

  -- Where nobody holds the lock and a writer waits, a writer is ready.
  ready_writer : (s.flock i).state ≡ inactive → 0 < waiters s i lock_ex → Ready
  ready_writer idle h =
      let (q, l, e) = count_witness num_ids (λ p. waits i lock_ex (s.pc p)) h in
      let (g, operation, woken, at, type) = waits_lem (s.pc q) i lock_ex e in
      ready q g operation woken at (rw (type, idle) refl)

  -- Where nobody holds the lock and no writer waits, whoever waits is ready.
  ready_reader :
      (p f operation : ℕ) (woken : Bool)
      → s.pc p ≡ waiting f i operation woken
      → (s.flock i).state ≡ inactive
      → waiters s i lock_ex ≡ 0
      → Ready
  ready_reader p f operation woken at idle h =
      ready p f operation woken at
        (ground (arith, (v.locks i).counts, v.calls.sleeping p f i operation woken at))

-- No deadlock: in every reachable state, when a process waits for the lock of an inode, either an open
-- entry of that inode holds the lock, or some process that waits for it has been woken and takes the
-- lock, with result 0, when it runs next.
pub no_deadlock :
    {s : System}
    → Reach s
    → (p f i operation : ℕ) (woken : Bool) → s.pc p ≡ waiting f i operation woken
    → ((g : ℕ) × ((s.file g).ref ≢ 0) × ((s.file g).ip ≡ i) × ((s.file g).holding_flock ≢ 0))
      ⊎ ((q g other : ℕ) × (q < num_ids)
          × (s.pc q ≡ waiting g i other true)
          × ((flock_resume (s.flock i) q other).1 ≡ returned (pos 0)))
no_deadlock {s} r p f i operation woken at =
    let v = Reach-Inv r in
    elim (state_cases (s.flock i).state) [
      | inl idle ↦ elim (dec_lt 0 (waiters s i lock_ex)) [
        | yes h ↦ inr (ready_writer v i idle h)
        | no n ↦ inr (ready_reader v i p f operation woken at idle (omega arith))
      ]
      | inr active ↦ inl (elim (dec_lt 0 (holders s i lock_sh)) [
        | yes h ↦ holder_witness v i lock_sh (inl refl) h
        | no n ↦
            holder_witness v i lock_ex (inr refl)
              (omega (arith, active_holder (v.locks i).counts active))
      ])
    ]
