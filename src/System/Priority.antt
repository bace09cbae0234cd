-- ===== src/System/Priority.antt =====
-- Writers come first: while one waits for a lock, no step adds a reader to it.
use advance_synchronization.Base.{
  ℕ, ◌+◌, ◌-◌, ◌<◌, ◌≤◌, ◌≡◌, ◌≢◌, arith, ◌==◌, Bool, true, false, ◌&&◌, inl, inr, update, some,
  bit_mono, count,
}
use advance_synchronization.WaitQueue.{num_ids}
use advance_synchronization.Flock.{Flock, Outcome, lock_type, lock_sh, lock_ex}
use advance_synchronization.Flock.Counts.{blocked, Obtained, Resumed}
use advance_synchronization.File.{
  FileTable, File, nfile, fd_none, file_alloc, file_dup, file_flock_enter, Next,
}
use advance_synchronization.System.{
  System, acquiring, waiting, enter, obtain, resume, close, open_entry, Step, opens, duplicates,
  closes, enters, obtains, resumes, recycles, Reach,
}
use advance_synchronization.System.Views.{Inv, holds, waits, holders, waiters, holders-change}
use advance_synchronization.System.Entries.{entered, enter-entered, file_flock_enter-Entry}
use advance_synchronization.System.Opens.{file_alloc_lem}
use advance_synchronization.System.Locks.{
  obtained, resumed, obtained_lem, obtain-Caller, resumed_lem, resume-Caller, granted,
}
use advance_synchronization.System.Others.{opened, open_entry_lem, file_dup_lem, close_entry_cases}
use advance_synchronization.System.Calls.{settled, obtain-settled, resume-settled, Caller}
use advance_synchronization.System.Reachable.{Reach-Inv}

holders-le :
    (table other : FileTable) (i t f : ℕ)
    → f < nfile
    → ((g : ℕ) → g ≢ f → other g ≡ table g)
    → (holds other i t f ≡ true → holds table i t f ≡ true)
    → count nfile (holds other i t) ≤ count nfile (holds table i t)
holders-le table other i t f l same h =
    omega (arith, holders-change table other i t f l same, bit_mono _ _ h)

Obtained-unblocked :
    (t p sh ex wsh wex : ℕ) (fl fl' : Flock) (out : Outcome)
    → Obtained t p fl sh ex wsh wex fl' out
    → granted out ≡ true
    → blocked t fl ≡ false
Obtained-unblocked t p sh ex wsh wex fl fl' out o e = ground arith

Resumed-unblocked :
    (t p sh ex wsh wex : ℕ) (fl fl' : Flock) (out : Outcome)
    → Resumed t p fl sh ex wsh wex fl' out
    → granted out ≡ true
    → blocked t fl ≡ false
Resumed-unblocked t p sh ex wsh wex fl fl' out o e = ground arith

module _ {s : System} (v : Inv s) where
  module _ {p f i operation : ℕ} {out : Outcome} (fl : Flock)
      (c : Caller s p f i operation out) where
    -- A section of a lock request adds a reader only to the lock of its own inode, and by a grant.
    settled-le :
        (j : ℕ)
        → (granted out && lock_type operation == lock_sh ≡ true → j ≢ i)
        → holders (settled s p f i operation fl out) j lock_sh ≤ holders s j lock_sh
    settled-le j h =
        holders-le s.file (settled s p f i operation fl out).file j lock_sh f c.entry
          (λ g d. ground arith) (λ e. ground (arith, h, c))

  module _ (p f operation : ℕ) (l : p < num_ids) (j : ℕ) (writer : 0 < waiters s j lock_ex) where
    reader_blocked : (t : ℕ) → t ≡ lock_sh → blocked t (s.flock j) ≡ true
    reader_blocked t e = ground (arith, (v.locks j).counts)

    obtain-le :
        s.pc p ≡ acquiring f operation
        → holders (obtain s p f operation) j lock_sh ≤ holders s j lock_sh
    obtain-le at = rw (obtain-settled s p f operation) (
        settled-le got.0 (obtain-Caller v.calls v.locks p f operation l at) j (λ g e. ground (
          arith,
          Obtained-unblocked (lock_type operation) p _ _ _ _ (s.flock (s.file f).ip) got.0 got.1
              (obtained_lem v.calls v.locks p f operation l at),
          reader_blocked (lock_type operation),
        )))
      where
        got : Flock × Outcome
        got = obtained v.calls v.locks p f operation l at

    resume-le :
        (i : ℕ) (woken : Bool)
        → s.pc p ≡ waiting f i operation woken
        → holders (resume s p f i operation) j lock_sh ≤ holders s j lock_sh
    resume-le i woken at = rw (resume-settled s p f i operation) (
        settled-le got.0 (resume-Caller v.calls v.locks p f operation l i woken at) j (λ g e.
          ground (
            arith,
            Resumed-unblocked (lock_type operation) p _ _ _ _ (s.flock i) got.0 got.1
                (resumed_lem v.calls v.locks p f operation l i woken at),
            reader_blocked (lock_type operation),
          )))
      where
        got : Flock × Outcome
        got = resumed v.calls v.locks p f operation l i woken at

  enter-le :
      (p f operation j : ℕ)
      → f < nfile
      → holders (enter s p f operation) j lock_sh ≤ holders s j lock_sh
  enter-le p f operation j l = rw (enter-entered s p f operation) (
      holders-le s.file (entered s p f (s.file f).ip operation got.0 got.1 got.2 got.3).file j
        lock_sh f l (λ g d. ground arith)
        (λ e. ground (arith, file_flock_enter-Entry (s.file f) (s.flock (s.file f).ip) operation)))
    where
      got : File × Flock × Bool × Next
      got = file_flock_enter (s.file f) (s.flock (s.file f).ip) operation

  opens-le :
      (f i j : ℕ) (t : FileTable) (readable writable : Bool)
      → file_alloc s.file ≡ some (f, t)
      → count nfile (holds (open_entry t f i readable writable) j lock_sh) ≤ holders s j lock_sh
  opens-le f i j t readable writable h =
      let (l, free, made) = file_alloc_lem s.file h in
      rw (open_entry_lem s.file t f i readable writable made) (
        holders-le s.file (update s.file f (opened (s.file f) i readable writable)) j lock_sh f l
          (λ g d. ground arith) (λ e. ground arith))

  dup-le :
      (f j : ℕ) (t : FileTable)
      → f < nfile
      → file_dup s.file f ≡ some t
      → count nfile (holds t j lock_sh) ≤ holders s j lock_sh
  dup-le f j t l h =
      let (is_open, made) = file_dup_lem s.file f t h in
      rw made (
        holders-le s.file (update s.file f (record (s.file f) { ref = (s.file f).ref + 1 })) j
          lock_sh f l (λ g d. ground arith) (λ e. ground arith))

  close-le :
      (f j : ℕ)
      → f < nfile
      → (s.file f).ref ≢ 0
      → holders (close s f) j lock_sh ≤ holders s j lock_sh
  unfolding close
  close-le f j l is_open = elim (close_entry_cases s.file f is_open) [
    | inl (e, more) ↦
        rw (e, close)
          (holders-le s.file (update s.file f (record (s.file f) { ref = (s.file f).ref - 1 })) j
            lock_sh f l (λ g d. ground arith) (λ h. ground arith))
    | inr e ↦
        rw (e, close)
          (holders-le s.file (update s.file f (record (s.file f) { ref = 0; kind = fd_none })) j
            lock_sh f l (λ g d. ground arith) (λ h. ground arith))
  ]

Step-readers :
    {s t : System}
    → Inv s
    → Step s t
    → (j : ℕ) → 0 < waiters s j lock_ex
    → holders t j lock_sh ≤ holders s j lock_sh
Step-readers v (opens f i {t} readable writable h) j w = opens-le v f i j t readable writable h
Step-readers v (duplicates f {t} m unused h) j w = dup-le v f j t m h
Step-readers v (closes f m is_open unused) j w = close-le v f j m is_open
Step-readers v (enters p f operation l m at is_open unused) j w = enter-le v p f operation j m
Step-readers v (obtains p f operation l at) j w = obtain-le v p f operation l j w at
Step-readers v (resumes p f i operation l at) j w = resume-le v p f operation l j w i true at
Step-readers v (recycles i none_open) j w = omega arith

-- Writers come first: in every reachable state where some process waits for an exclusive lock on an
-- inode, no step of any process adds an open entry that holds a shared lock on that inode.
pub writer_priority :
    {s t : System}
    → Reach s
    → Step s t
    → (i : ℕ) → 0 < count num_ids (λ p. waits i lock_ex (s.pc p))
    → count nfile (holds t.file i lock_sh) ≤ count nfile (holds s.file i lock_sh)
writer_priority r st i h = Step-readers (Reach-Inv r) st i h
