-- ===== src/System/Entries.antt =====
-- `file_flock` up to `flock_acquire`, and the calls that open and close files, keep `CallInv`.
use advance_synchronization.Base.{
  ℕ, ◌<◌, ◌≡◌, ◌≢◌, refl, arith, Bool, true, false, ◌⊎◌, update, eq→==,
}
use advance_synchronization.WaitQueue.{num_ids}
use advance_synchronization.Flock.{Flock, lock_type, lock_un}
use advance_synchronization.File.{File, nfile, fd_inode, file_flock_enter, Next, acquire}
use advance_synchronization.System.{
  System, Pc, running, acquiring, waiting, inside, after_enter, enter, Unused, wake, wake_if,
}
use advance_synchronization.System.Views.{CallInv}

-- What the first section of `file_flock` does to the entry, and when it goes on.
pub record Entry (f : File) (operation : ℕ) (f' : File) (go_on : Next) : Type 0 where
  pub ref_kept : f'.ref ≡ f.ref
  pub kind_kept : f'.kind ≡ f.kind
  pub ip_kept : f'.ip ≡ f.ip
  pub holding : (f'.holding_flock ≡ f.holding_flock) ⊎ (f'.holding_flock ≡ 0)
  pub going_on :
      go_on ≡ acquire
      → (f'.holding_flock ≡ 0) × (f'.kind ≡ fd_inode) × (lock_type operation ≢ lock_un)

pub file_flock_enter-Entry :
    (f : File) (fl : Flock) (operation : ℕ)
    → let (f', fl', woke, go_on) = file_flock_enter f fl operation in Entry f operation f' go_on
unfolding file_flock_enter
file_flock_enter-Entry f fl operation = ground arith

abbrev pub entered : System → ℕ → ℕ → ℕ → ℕ → File → Flock → Bool → Next → System
entered s p f i operation f' fl' woke go_on = record {
  file = update s.file f f';
  flock = update s.flock i fl';
  pc = update (wake_if woke i s.pc) p (after_enter go_on f operation);
}

pub enter-entered :
    (s : System) (p f operation : ℕ)
    → let (f', fl', woke, go_on) = file_flock_enter (s.file f) (s.flock (s.file f).ip) operation in
      enter s p f operation ≡ entered s p f (s.file f).ip operation f' fl' woke go_on
unfolding enter
enter-entered s p f operation = refl

pub inside-wake_if :
    (woke : Bool) (i : ℕ) (pc : ℕ → Pc) (q f : ℕ) → inside (wake_if woke i pc q) f ≡ inside (pc q) f
inside-wake_if woke i pc q f = ground arith

pub wake_if-acquiring :
    (woke : Bool) (i : ℕ) (pc : ℕ → Pc) (q f operation : ℕ)
    → wake_if woke i pc q ≡ acquiring f operation
    → pc q ≡ acquiring f operation
wake_if-acquiring woke i pc q f operation h = ground arith

wake-waiting :
    (pc : Pc) (i f j operation : ℕ) (woken : Bool)
    → wake i pc ≡ waiting f j operation woken
    → (before : Bool) × (pc ≡ waiting f j operation before)
wake-waiting running i f j operation woken h = absurd (cc)
wake-waiting (acquiring g other) i f j operation woken h = absurd (cc)
wake-waiting (waiting g k other before) i f j operation woken h = (before, ground arith)

pub wake_if-waiting :
    (woke : Bool) (i : ℕ) (pc : ℕ → Pc) (q f j operation : ℕ) (woken : Bool)
    → wake_if woke i pc q ≡ waiting f j operation woken
    → (before : Bool) × (pc q ≡ waiting f j operation before)
wake_if-waiting true i pc q f j operation woken h = wake-waiting (pc q) i f j operation woken h
wake_if-waiting false i pc q f j operation woken h = (woken, h)

pub wake_if-running :
    (woke : Bool) (i : ℕ) (pc : ℕ → Pc) (q : ℕ) → pc q ≡ running → wake_if woke i pc q ≡ running
wake_if-running woke i pc q h = ground arith

module _ {s : System} {p f operation : ℕ} {f' : File} (i : ℕ) (fl' : Flock) (woke : Bool)
    {go_on : Next} (v : CallInv s) (l : p < num_ids) (m : f < nfile) (is_open : (s.file f).ref ≢ 0)
    (unused : Unused s f) (e : Entry (s.file f) operation f' go_on) where
  pub away : (q g : ℕ) → inside (s.pc q) g ≡ true → g ≢ f
  away q g h d = ground (arith, unused q)

  pub entered-calling :
      (q g other : ℕ)
      → (entered s p f i operation f' fl' woke go_on).pc q ≡ acquiring g other
      → ((g ≡ f) × (other ≡ operation) × (go_on ≡ acquire))
        ⊎ ((s.pc q ≡ acquiring g other) × (g ≢ f))
  entered-calling q g other h = ground (arith, wake_if-acquiring woke i s.pc q g other, away q g)

  pub entered-sleeping :
      (q g j other : ℕ) (woken : Bool)
      → (entered s p f i operation f' fl' woke go_on).pc q ≡ waiting g j other woken
      → (before : Bool) × (s.pc q ≡ waiting g j other before) × (g ≢ f)
  entered-sleeping q g j other woken h =
      let kept : wake_if woke i s.pc q ≡ waiting g j other woken = ground arith in
      let (before, b) = wake_if-waiting woke i s.pc q g j other woken kept in
      (before, b, away q g (rw (b, eq→== g g refl)))

  entered-inside :
      (q g : ℕ)
      → inside ((entered s p f i operation f' fl' woke go_on).pc q) g ≡ true
      → ((q ≡ p) × (g ≡ f)) ⊎ ((inside (s.pc q) g ≡ true) × (g ≢ f))
  entered-inside q g h = ground (arith, inside-wake_if woke i s.pc q g, away q g)

  pub entered-CallInv : CallInv (entered s p f i operation f' fl' woke go_on)
  entered-CallInv = record {
    opened = λ g h. ground (arith, v.opened g h);
    owned = λ g h k. ground (arith, v.owned g, e);
    calling = λ q g other h. ground (arith, entered-calling q g other h, v.calling q g other, e);
    sleeping = λ q g j other woken h.
        let (before, b, d) = entered-sleeping q g j other woken h in
        ground (arith, v.sleeping q g j other before);
    alone = λ q r g h k. ground (arith, entered-inside q g h, entered-inside r g k, v.alone q r g);
    known = λ q h. ground (arith, v.known q h, wake_if-running woke i s.pc q);
  }
