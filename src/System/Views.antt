-- ===== src/System/Views.antt =====
-- Who holds the lock of an inode and who waits for it, as tests to count by, and the invariants.
use advance_synchronization.Base.{
  ℕ, ◌+◌, ◌<◌, ◌≤◌, ◌≡◌, ◌≢◌, refl, ◌==◌, Bool, true, false, not, ◌&&◌, bit, ◌⊎◌, inl, inr, count,
  count-change, count-congr,
}
use advance_synchronization.WaitQueue.{num_ids}
use advance_synchronization.Flock.{lock_type, lock_sh, lock_ex, lock_un}
use advance_synchronization.Flock.Counts.{Counts, blocked}
use advance_synchronization.File.{FileTable, nfile, fd_inode}
use advance_synchronization.System.{System, Pc, running, acquiring, waiting, inside}

-- Entry `f` is open on inode `i` and holds a lock of type `t`.
abbrev pub holds : FileTable → ℕ → ℕ → ℕ → Bool
holds table i t f = not ((table f).ref == 0) && ((table f).ip == i && (table f).holding_flock == t)

-- A process that stands there sleeps, or has just been woken, at the lock of inode `i`.
abbrev pub waits : ℕ → ℕ → Pc → Bool
waits i t running = false
waits i t (acquiring f operation) = false
waits i t (waiting f j operation woken) = j == i && lock_type operation == t

abbrev pub holders : System → ℕ → ℕ → ℕ
holders s i t = count nfile (holds s.file i t)

abbrev pub waiters : System → ℕ → ℕ → ℕ
waiters s i t = count num_ids (λ p. waits i t (s.pc p))

-- The counters of the lock of inode `i` are right, and a process that sleeps and has not been woken
-- has reason to.
pub record LockInv (s : System) (i : ℕ) : Type 0 where
  pub counts :
      Counts
        (s.flock i)
        (holders s i lock_sh)
        (holders s i lock_ex)
        (waiters s i lock_sh)
        (waiters s i lock_ex)
  pub stuck :
      (p f operation : ℕ)
      → s.pc p ≡ waiting f i operation false
      → blocked (lock_type operation) (s.flock i) ≡ true

abbrev pub IsLock : ℕ → Type 0
IsLock t = (t ≡ lock_sh) ⊎ (t ≡ lock_ex)

-- A process inside a call is the only one on its file, which is open and holds no lock.
pub record CallInv (s : System) : Type 0 where
  pub opened : (f : ℕ) → nfile ≤ f → (s.file f).ref ≡ 0
  pub owned :
      (f : ℕ)
      → (s.file f).ref ≢ 0
      → (s.file f).holding_flock ≢ 0
      → IsLock (s.file f).holding_flock × ((s.file f).kind ≡ fd_inode)
  pub calling :
      (p f operation : ℕ)
      → s.pc p ≡ acquiring f operation
      → (f < nfile)
        × ((s.file f).ref ≢ 0)
        × ((s.file f).kind ≡ fd_inode)
        × ((s.file f).holding_flock ≡ 0)
        × (lock_type operation ≢ lock_un)
  pub sleeping :
      (p f i operation : ℕ) (woken : Bool)
      → s.pc p ≡ waiting f i operation woken
      → (f < nfile)
        × ((s.file f).ref ≢ 0)
        × ((s.file f).kind ≡ fd_inode)
        × ((s.file f).holding_flock ≡ 0)
        × ((s.file f).ip ≡ i)
        × IsLock (lock_type operation)
  pub alone : (p q f : ℕ) → inside (s.pc p) f ≡ true → inside (s.pc q) f ≡ true → p ≡ q
  pub known : (p : ℕ) → num_ids ≤ p → s.pc p ≡ running

-- What holds of the processes, the file table and the locks at every moment.
pub record Inv (s : System) : Type 0 where
  pub calls : CallInv s
  pub locks : (j : ℕ) → LockInv s j

-- What a change of one file does to the number of holders.
pub holders-change :
    (table other : FileTable) (i t f : ℕ)
    → f < nfile
    → ((g : ℕ) → g ≢ f → other g ≡ table g)
    → count nfile (holds other i t) + bit (holds table i t f)
      ≡ count nfile (holds table i t) + bit (holds other i t f)
holders-change table other i t f l h =
    count-change nfile (holds table i t) (holds other i t) f l (λ g d. rw (h g d))

-- What a change of where one process stands does to the number of those that wait.
pub waiters-change :
    (pc after : ℕ → Pc) (i t p : ℕ)
    → p < num_ids
    → ((q : ℕ) → q ≢ p → waits i t (after q) ≡ waits i t (pc q))
    → count num_ids (λ q. waits i t (after q)) + bit (waits i t (pc p))
      ≡ count num_ids (λ q. waits i t (pc q)) + bit (waits i t (after p))
waiters-change pc after i t p l h =
    count-change num_ids (λ q. waits i t (pc q)) (λ q. waits i t (after q)) p l (λ q d. rw (h q d))

-- A step that leaves the lock of an inode, its holders and its sleepers alone keeps its invariant.
pub LockInv-frame :
    {s u : System} (i : ℕ)
    → LockInv s i
    → u.flock i ≡ s.flock i
    → ((t f : ℕ) → IsLock t → f < nfile → holds u.file i t f ≡ holds s.file i t f)
    → ((t p : ℕ) → waits i t (u.pc p) ≡ waits i t (s.pc p))
    → ((p f operation : ℕ)
        → u.pc p ≡ waiting f i operation false
        → s.pc p ≡ waiting f i operation false)
    → LockInv u i
LockInv-frame {s} {u} i v same files pcs sleepers = record {
  counts =
      rw
        (
          same,
          held lock_sh (inl refl),
          held lock_ex (inr refl),
          waiting_for lock_sh,
          waiting_for lock_ex,
        )
        v.counts;
  stuck = λ p f operation e. rw same (v.stuck p f operation (sleepers p f operation e));
}
  where
    held : (t : ℕ) → IsLock t → holders u i t ≡ holders s i t
    held t k = count-congr nfile (holds u.file i t) (holds s.file i t) (λ f l. files t f k l)

    waiting_for : (t : ℕ) → waiters u i t ≡ waiters s i t
    waiting_for t =
        count-congr num_ids (λ p. waits i t (u.pc p)) (λ p. waits i t (s.pc p)) (λ p l. pcs t p)
