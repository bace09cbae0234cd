-- ===== src/System/Locks.antt =====
-- A section of `flock_acquire` keeps the counters of every lock right and every sleeper blocked.
use advance_synchronization.Base.{
  ℕ, ◌+◌, ◌<◌, ◌≡◌, ◌≢◌, refl, arith, ◌==◌, Bool, true, false, ◌&&◌, inl, inr, eq→==, pos, zero,
  bit,
}
use native.Mathlib.Decide.{ℕ_discrete}
use advance_synchronization.WaitQueue.{num_ids}
use advance_synchronization.Flock.{
  Flock, flock_acquire, flock_resume, lock_type, lock_sh, lock_ex, Outcome, returned, asleep,
}
use advance_synchronization.Flock.Counts.{
  Counts, blocked, Obtained, Resumed, acquire-Obtained, resume-Resumed, acquire-blocked,
  resume-blocked,
}
use advance_synchronization.System.{System, acquiring, waiting, obtain, resume}
use advance_synchronization.System.Views.{
  CallInv, LockInv, LockInv-frame, IsLock, waits, holders, waiters, holders-change, waiters-change,
}
use advance_synchronization.System.Calls.{
  Caller, Allowed, settled, settled-sleeping, settled-CallInv, obtain-settled, resume-settled,
}

abbrev pub granted : Outcome → Bool
granted (returned (pos zero)) = true
granted _ = false

abbrev pub is_asleep : Outcome → Bool
is_asleep asleep = true
is_asleep _ = false

module _ {s : System} {p f i operation : ℕ} {out : Outcome} (fl : Flock) (v : CallInv s)
    (c : Caller s p f i operation out) where
  -- A grant makes one more holder of that type.
  pub settled-holders :
      (t : ℕ)
      → IsLock t
      → holders (settled s p f i operation fl out) i t
        ≡ holders s i t + bit (granted out && lock_type operation == t)
  settled-holders t k = ground (
    arith,
    holders-change s.file (settled s p f i operation fl out).file i t f c.entry
        (λ g d. ground arith),
    c,
  )

  -- The caller waits afterwards if it sleeps.
  pub settled-waiters :
      (t : ℕ)
      → waiters (settled s p f i operation fl out) i t + bit (waits i t (s.pc p))
        ≡ waiters s i t + bit (is_asleep out && lock_type operation == t)
  settled-waiters t = ground (
    arith,
    waiters-change s.pc (settled s p f i operation fl out).pc i t p c.process (λ q d. ground arith),
  )

  module _ (locks : (j : ℕ) → LockInv s j) where
    -- The locks of other inodes do not notice.
    settled-other :
        (j : ℕ)
        → j ≢ i
        → ((t : ℕ) → waits j t (s.pc p) ≡ false)
        → LockInv (settled s p f i operation fl out) j
    settled-other j d w =
        LockInv-frame j (locks j) (ground arith) (λ t g k l. ground (arith, c))
          (λ t q. ground (arith, w t))
          (λ q g other e. ground (arith, settled-sleeping fl v c q g j other false e))

    settled-stuck :
        ((t : ℕ) → blocked t (s.flock i) ≡ true → blocked t fl ≡ true)
        → (out ≡ asleep → blocked (lock_type operation) fl ≡ true)
        → (q g other : ℕ) → (settled s p f i operation fl out).pc q ≡ waiting g i other false
        → blocked (lock_type other) ((settled s p f i operation fl out).flock i) ≡ true
    settled-stuck keeps own q g other e = rw (eq→== i i refl) (
        ground (
          arith,
          settled-sleeping fl v c q g i other false e,
          keeps (lock_type other),
          (locks i).stuck q g other,
        ))

    abbrev SettledCounts : Type 0
    SettledCounts =
        let u = settled s p f i operation fl out in
        Counts fl (holders u i lock_sh) (holders u i lock_ex) (waiters u i lock_sh)
          (waiters u i lock_ex)

    obtained-Counts :
        ((t : ℕ) → waits i t (s.pc p) ≡ false)
        → Obtained
            (lock_type operation)
            p
            (s.flock i)
            (holders s i lock_sh)
            (holders s i lock_ex)
            (waiters s i lock_sh)
            (waiters s i lock_ex)
            fl
            out
        → SettledCounts
    obtained-Counts w o = ground (
      arith,
      settled-holders lock_sh (inl refl),
      settled-holders lock_ex (inr refl),
      settled-waiters lock_sh,
      settled-waiters lock_ex,
      w lock_sh,
      w lock_ex,
      locks i,
    )

    resumed-Counts :
        ((t : ℕ) → waits i t (s.pc p) ≡ (lock_type operation == t))
        → Resumed
            (lock_type operation)
            p
            (s.flock i)
            (holders s i lock_sh)
            (holders s i lock_ex)
            (waiters s i lock_sh)
            (waiters s i lock_ex)
            fl
            out
        → SettledCounts
    resumed-Counts w o = ground (
      arith,
      settled-holders lock_sh (inl refl),
      settled-holders lock_ex (inr refl),
      settled-waiters lock_sh,
      settled-waiters lock_ex,
      w lock_sh,
      w lock_ex,
      locks i,
    )

-- How `flock_acquire` and a sleeper end is how a lock request may end.
Obtained-Allowed :
    (operation p sh ex wsh wex : ℕ) (fl fl' : Flock) (out : Outcome)
    → Obtained (lock_type operation) p fl sh ex wsh wex fl' out
    → Allowed operation out
Obtained-Allowed operation p sh ex wsh wex fl fl' out o = ground arith

Resumed-Allowed :
    (operation p sh ex wsh wex : ℕ) (fl fl' : Flock) (out : Outcome)
    → IsLock (lock_type operation)
    → Resumed (lock_type operation) p fl sh ex wsh wex fl' out
    → Allowed operation out
Resumed-Allowed operation p sh ex wsh wex fl fl' out k o = ground arith

Obtained-blocked :
    (t p sh ex wsh wex : ℕ) (fl fl' : Flock) (out : Outcome)
    → Obtained t p fl sh ex wsh wex fl' out
    → out ≡ asleep
    → blocked t fl' ≡ true
Obtained-blocked t p sh ex wsh wex fl fl' out o e = ground arith

Resumed-blocked :
    (t p sh ex wsh wex : ℕ) (fl fl' : Flock) (out : Outcome)
    → Resumed t p fl sh ex wsh wex fl' out
    → out ≡ asleep
    → blocked t fl' ≡ true
Resumed-blocked t p sh ex wsh wex fl fl' out o e = ground arith

module _ {s : System} (v : CallInv s) (locks : (j : ℕ) → LockInv s j) (p f operation : ℕ)
    (l : p < num_ids) where
  module _ (at : s.pc p ≡ acquiring f operation) where
    abbrev pub obtained : Flock × Outcome
    obtained = flock_acquire (s.flock (s.file f).ip) p operation

    abbrev pub own_inode : ℕ
    own_inode = (s.file f).ip

    pub obtained_lem :
        Obtained
          (lock_type operation)
          p
          (s.flock own_inode)
          (holders s own_inode lock_sh)
          (holders s own_inode lock_ex)
          (waiters s own_inode lock_sh)
          (waiters s own_inode lock_ex)
          obtained.0
          obtained.1
    obtained_lem =
        acquire-Obtained (locks own_inode).counts p operation (v.calling p f operation at).4

    pub obtain-Caller : Caller s p f own_inode operation obtained.1
    obtain-Caller =
        let (entry, is_open, of_inode, free, other) = v.calling p f operation at in
        record {
          process = l;
          entry = entry;
          is_open = is_open;
          of_inode = of_inode;
          free = free;
          at_inode = refl;
          here = rw (at, eq→== f f refl);
          result =
              Obtained-Allowed operation p _ _ _ _ (s.flock own_inode) obtained.0 obtained.1
                obtained_lem;
        }

    pub obtain-CallInv : CallInv (obtain s p f operation)
    obtain-CallInv =
        rw (obtain-settled s p f operation) (settled-CallInv obtained.0 v obtain-Caller)

    quiet : (j t : ℕ) → waits j t (s.pc p) ≡ false
    quiet j t = rw at

    obtain-LockInv_own : LockInv (settled s p f own_inode operation obtained.0 obtained.1) own_inode
    obtain-LockInv_own = record {
      counts =
          rw (eq→== own_inode own_inode refl)
            (obtained-Counts obtained.0 v obtain-Caller locks (quiet own_inode) obtained_lem);
      stuck =
          settled-stuck obtained.0 v obtain-Caller locks
            (acquire-blocked (locks own_inode).counts p operation)
            (Obtained-blocked (lock_type operation) p _ _ _ _ (s.flock own_inode) obtained.0
              obtained.1 obtained_lem);
    }

    pub obtain-LockInv : (j : ℕ) → LockInv (obtain s p f operation) j
    obtain-LockInv j = rw (obtain-settled s p f operation) (elim (ℕ_discrete j own_inode) [
      | yes e ↦ rw e obtain-LockInv_own
      | no d ↦ settled-other obtained.0 v obtain-Caller locks j d (quiet j)
    ])

  module _ (i : ℕ) (woken : Bool) (at : s.pc p ≡ waiting f i operation woken) where
    abbrev pub resumed : Flock × Outcome
    resumed = flock_resume (s.flock i) p operation

    pub resumed_lem :
        Resumed
          (lock_type operation)
          p
          (s.flock i)
          (holders s i lock_sh)
          (holders s i lock_ex)
          (waiters s i lock_sh)
          (waiters s i lock_ex)
          resumed.0
          resumed.1
    resumed_lem =
        resume-Resumed (locks i).counts p operation (v.sleeping p f i operation woken at).5

    pub resume-Caller : Caller s p f i operation resumed.1
    resume-Caller =
        let (entry, is_open, of_inode, free, at_inode, kind) =
          v.sleeping p f i operation woken at in
        record {
          process = l;
          entry = entry;
          is_open = is_open;
          of_inode = of_inode;
          free = free;
          at_inode = at_inode;
          here = rw (at, eq→== f f refl);
          result =
              Resumed-Allowed operation p _ _ _ _ (s.flock i) resumed.0 resumed.1 kind resumed_lem;
        }

    pub resume-CallInv : CallInv (resume s p f i operation)
    resume-CallInv =
        rw (resume-settled s p f i operation) (settled-CallInv resumed.0 v resume-Caller)

    waiting_at : (j t : ℕ) → waits j t (s.pc p) ≡ (i == j && lock_type operation == t)
    waiting_at j t = rw at

    resume-LockInv_own : LockInv (settled s p f i operation resumed.0 resumed.1) i
    resume-LockInv_own = record {
      counts = rw (eq→== i i refl) (
          resumed-Counts resumed.0 v resume-Caller locks (λ t. ground (arith, waiting_at i t))
            resumed_lem);
      stuck =
          settled-stuck resumed.0 v resume-Caller locks
            (resume-blocked (locks i).counts p operation)
            (Resumed-blocked (lock_type operation) p _ _ _ _ (s.flock i) resumed.0 resumed.1
              resumed_lem);
    }

    pub resume-LockInv : (j : ℕ) → LockInv (resume s p f i operation) j
    resume-LockInv j = rw (resume-settled s p f i operation) (elim (ℕ_discrete j i) [
      | yes e ↦ rw e resume-LockInv_own
      | no d ↦
          settled-other resumed.0 v resume-Caller locks j d (λ t. ground (arith, waiting_at j t))
    ])
