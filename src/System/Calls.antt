-- ===== src/System/Calls.antt =====
-- Every step keeps `CallInv`: processes stay out of one another's files.
use advance_synchronization.Base.{
  ℕ, ◌<◌, ◌≤◌, ◌≡◌, ◌≢◌, refl, arith, Bool, true, ◌⊎◌, update, pos, negsuc, zero, suc,
}
use advance_synchronization.WaitQueue.{num_ids}
use advance_synchronization.Flock.{
  Flock, flock_acquire, flock_resume, lock_type, Outcome, returned, asleep,
}
use advance_synchronization.File.{nfile, fd_inode, keep_lock, file_flock_acquire, file_flock_resume}
use advance_synchronization.System.{
  System, acquiring, waiting, inside, after_acquire, obtain, resume,
}
use advance_synchronization.System.Views.{CallInv, IsLock}

-- The state after a section of `flock_acquire` that process `p` ran for entry `f`, on inode `i`.
abbrev pub settled : System → ℕ → ℕ → ℕ → ℕ → Flock → Outcome → System
settled s p f i operation fl out = record {
  file = update s.file f (keep_lock (s.file f) operation out);
  flock = update s.flock i fl;
  pc = update s.pc p (after_acquire out f i operation);
}

pub obtain-settled :
    (s : System) (p f operation : ℕ)
    → let (fl, out) = flock_acquire (s.flock (s.file f).ip) p operation in
      obtain s p f operation ≡ settled s p f (s.file f).ip operation fl out
unfolding obtain file_flock_acquire
obtain-settled s p f operation = refl

pub resume-settled :
    (s : System) (p f i operation : ℕ)
    → let (fl, out) = flock_resume (s.flock i) p operation in
      resume s p f i operation ≡ settled s p f i operation fl out
unfolding resume file_flock_resume
resume-settled s p f i operation = refl

-- How a section of a lock request may end.
abbrev pub Allowed : ℕ → Outcome → Type 0
Allowed operation (returned (pos zero)) = IsLock (lock_type operation)
Allowed operation (returned (pos (suc n))) = ⊥
Allowed operation (returned (negsuc n)) = Unit
Allowed operation asleep = IsLock (lock_type operation)

-- The caller is on a file that nobody else is on, and the section ends as a lock request may.
pub record Caller (s : System) (p f i operation : ℕ) (out : Outcome) : Type 0 where
  pub process : p < num_ids
  pub entry : f < nfile
  pub is_open : (s.file f).ref ≢ 0
  pub of_inode : (s.file f).kind ≡ fd_inode
  pub free : (s.file f).holding_flock ≡ 0
  pub at_inode : (s.file f).ip ≡ i
  pub here : inside (s.pc p) f ≡ true
  pub result : Allowed operation out

module _ {s : System} {p f i operation : ℕ} {out : Outcome} (fl : Flock) (v : CallInv s)
    (c : Caller s p f i operation out) where
  settled-opened : (g : ℕ) → nfile ≤ g → ((settled s p f i operation fl out).file g).ref ≡ 0
  settled-opened g h = ground (arith, v.opened g)

  settled-owned :
      (g : ℕ)
      → ((settled s p f i operation fl out).file g).ref ≢ 0
      → ((settled s p f i operation fl out).file g).holding_flock ≢ 0
      → IsLock ((settled s p f i operation fl out).file g).holding_flock
        × (((settled s p f i operation fl out).file g).kind ≡ fd_inode)
  settled-owned g h k = ground (arith, v.owned g)

  -- Another process that is inside a call is on another file.
  pub elsewhere : (q g : ℕ) → q ≢ p → inside (s.pc q) g ≡ true → g ≢ f
  elsewhere q g d h e = d (v.alone q p f (rw (← e) h) c.here)

  settled-calling :
      (q g other : ℕ)
      → (settled s p f i operation fl out).pc q ≡ acquiring g other
      → s.pc q ≡ acquiring g other × (g ≢ f)
  settled-calling q g other h = ground (arith, elsewhere q g)

  pub settled-sleeping :
      (q g j other : ℕ) (woken : Bool)
      → (settled s p f i operation fl out).pc q ≡ waiting g j other woken
      → ((q ≡ p) × (g ≡ f) × (j ≡ i) × (other ≡ operation) × (out ≡ asleep))
        ⊎ ((s.pc q ≡ waiting g j other woken) × (g ≢ f))
  settled-sleeping q g j other woken h = ground (arith, elsewhere q g)

  settled-inside :
      (q g : ℕ)
      → inside ((settled s p f i operation fl out).pc q) g ≡ true
      → inside (s.pc q) g ≡ true
  settled-inside q g h = ground (arith, c.here)

  pub settled-CallInv : CallInv (settled s p f i operation fl out)
  settled-CallInv = record {
    opened = settled-opened;
    owned = settled-owned;
    calling = λ q g other h. ground (arith, settled-calling q g other h, v.calling q g other);
    sleeping = λ q g j other woken h.
        ground (arith, settled-sleeping q g j other woken h, v.sleeping q g j other woken);
    alone = λ q r g h k. v.alone q r g (settled-inside q g h) (settled-inside r g k);
    known = λ q h. ground (arith, v.known q h);
  }
