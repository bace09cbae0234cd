-- ===== src/System/Others.antt =====
-- The calls that open, duplicate and close files, and the reuse of an inode's slot, keep the invariant
-- of processes, files and locks.
use advance_synchronization.Base.{
  ℕ, ◌+◌, ◌-◌, ◌<◌, ◌≡◌, ◌≢◌, refl, arith, Bool, false, ◌⊎◌, inl, inr, update, eq→==, some,
  count-eq-zero, fun_ext,
}
use native.Mathlib.Decide.{ℕ_discrete}
use advance_synchronization.WaitQueue.{num_ids}
use advance_synchronization.Flock.{Flock, flock_init, flock_release, lock_sh, lock_ex}
use advance_synchronization.Flock.Counts.{init-Counts}
use advance_synchronization.File.{
  FileTable, File, nfile, fd_inode, fd_none, file_alloc, file_dup, file_close_entry,
  file_close_lock, still_open, last_close,
}
use advance_synchronization.System.{
  System, Pc, running, acquiring, waiting, wake_if, close, open_entry, Unused, Unreferenced,
}
use advance_synchronization.System.Views.{
  CallInv, LockInv, LockInv-frame, Inv, IsLock, holds, waits, holders, waiters,
}
use advance_synchronization.System.Opens.{allocated, file_alloc_lem, inside-open, replaced-CallInv}
use advance_synchronization.System.Releases.{
  Woken, waits-wake_if, wake_if-asleep, unlocked-LockInv, released-LockInv,
}

-- The entry that `sys_open` makes of a free one.
abbrev pub opened : File → ℕ → Bool → Bool → File
opened f i readable writable = record f {
  kind = fd_inode;
  ref = 1;
  readable = readable;
  writable = writable;
  ip = i;
  off = 0;
  holding_flock = 0;
}

pub open_entry_lem :
    (t u : FileTable) (f i : ℕ) (readable writable : Bool)
    → u ≡ update t f (allocated (t f))
    → open_entry u f i readable writable ≡ update t f (opened (t f) i readable writable)
unfolding open_entry
open_entry_lem t u f i readable writable h = rw h (fun_ext λ g. ground arith)

pub file_dup_lem :
    (t : FileTable) (f : ℕ) (u : FileTable)
    → file_dup t f ≡ some u
    → ((t f).ref ≢ 0) × (u ≡ update t f (record (t f) { ref = (t f).ref + 1 }))
unfolding file_dup
file_dup_lem t f u h = ground arith

-- `file_close` drops one reference, or empties the entry with the last.
pub close_entry_cases :
    (t : FileTable) (f : ℕ)
    → (t f).ref ≢ 0
    → ((file_close_entry t f ≡ still_open (update t f (record (t f) { ref = (t f).ref - 1 })))
        × ((t f).ref - 1 ≢ 0))
      ⊎ (file_close_entry t f
          ≡ last_close
              (record (t f) { ref = (t f).ref - 1 })
              (update t f (record (t f) { ref = 0; kind = fd_none })))
unfolding file_close_entry
close_entry_cases t f h = ground arith

pub close_lock_cases :
    (ff : File) (fl : Flock)
    → (ff.holding_flock ≢ 0 → ff.kind ≡ fd_inode)
    → let (fl', woke) = file_close_lock ff fl in
      ((ff.holding_flock ≡ 0) × (fl' ≡ fl) × (woke ≡ false))
      ⊎ ((ff.holding_flock ≢ 0)
          × (fl' ≡ (flock_release fl ff.holding_flock).0)
          × (woke ≡ (flock_release fl ff.holding_flock).1))
unfolding file_close_lock
close_lock_cases ff fl h = ground arith

module _ {s : System} (v : Inv s) where
  -- A changed entry that nobody is inside a call on.
  module _ (f : ℕ) (m : f < nfile) (unused : Unused s f) (new : File) where
    abbrev swapped : System
    swapped = record s { file = update s.file f new }

    swapped-CallInv :
        (new.ref ≢ 0 → new.holding_flock ≢ 0 → IsLock new.holding_flock × (new.kind ≡ fd_inode))
        → CallInv swapped
    swapped-CallInv owned = replaced-CallInv v.calls f new false 0 s.flock unused m owned

    swapped-Inv :
        (new.ref ≢ 0 → new.holding_flock ≢ 0 → IsLock new.holding_flock × (new.kind ≡ fd_inode))
        → ((j t : ℕ) → IsLock t → holds swapped.file j t f ≡ holds s.file j t f)
        → Inv swapped
    swapped-Inv owned kept = record {
      calls = swapped-CallInv owned;
      locks =
          unlocked-LockInv v.locks f new s.pc false 0 s.flock
            (record {
              waits_kept = λ j t q. refl;
              sleepers = λ q g j other e. (e, λ b. absurd (cc));
            })
            (λ j. refl) kept;
    }

  pub opens-Inv :
      (f i : ℕ) {t : FileTable} (readable writable : Bool)
      → file_alloc s.file ≡ some (f, t)
      → Inv (record s { file = open_entry t f i readable writable })
  opens-Inv f i {t} readable writable h =
      let (m, free, made) = file_alloc_lem s.file h in
      rw (open_entry_lem s.file t f i readable writable made) (
        swapped-Inv f m (λ q. ground (arith, inside-open v.calls q f))
          (opened (s.file f) i readable writable) (λ r k. absurd (k refl))
          (λ j u n. rw (eq→== f f refl) (ground arith)))

  pub dup-Inv :
      (f : ℕ) {t : FileTable}
      → f < nfile
      → Unused s f
      → file_dup s.file f ≡ some t
      → Inv (record s { file = t })
  dup-Inv f {t} m unused h =
      let (is_open, made) = file_dup_lem s.file f t h in
      rw made (
        swapped-Inv f m unused (record (s.file f) { ref = (s.file f).ref + 1 })
          (λ r k. v.calls.owned f is_open k) (λ j u n. rw (eq→== f f refl) (ground arith)))

  module _ (f : ℕ) (m : f < nfile) (is_open : (s.file f).ref ≢ 0) (unused : Unused s f) where
    abbrev ff : File
    ff = record (s.file f) { ref = (s.file f).ref - 1 }

    abbrev let_go : Flock × Bool
    let_go = file_close_lock ff (s.flock ff.ip)

    abbrev emptied : File
    emptied = record (s.file f) { ref = 0; kind = fd_none }

    abbrev closed : System
    closed = record {
      file = update s.file f emptied;
      flock = update s.flock ff.ip let_go.0;
      pc = wake_if let_go.1 ff.ip s.pc;
    }

    closed-Woken : Woken s closed let_go.1 ff.ip
    closed-Woken = record {
      waits_kept = λ j t q. waits-wake_if let_go.1 ff.ip s.pc q j t;
      sleepers = λ q g j other e. wake_if-asleep let_go.1 ff.ip s.pc q g j other e;
    }

    closed-LockInv : (j : ℕ) → LockInv closed j
    closed-LockInv j =
        elim (close_lock_cases ff (s.flock ff.ip) (λ h. (v.calls.owned f is_open h).1)) [
          | inl (none_held, still, silent) ↦
              unlocked-LockInv v.locks f emptied closed.pc let_go.1 ff.ip closed.flock closed-Woken
                (λ k. ground arith) (λ k t n. rw (eq→== f f refl) (ground arith)) j
          | inr (h, gave, woke) ↦ rw gave (
              released-LockInv v.locks f emptied closed.pc let_go.1 ff.ip m (s.file f).holding_flock
                (v.calls.owned f is_open h).0 (ground arith)
                (record { waits_kept = closed-Woken.waits_kept; sleepers = closed-Woken.sleepers })
                woke (λ k t n. rw (eq→== f f refl) refl) j)
        ]

    closed-Inv : Inv closed
    closed-Inv = record {
      calls =
          replaced-CallInv v.calls f emptied let_go.1 ff.ip closed.flock unused m
            (λ r k. absurd (r refl));
      locks = closed-LockInv;
    }

    pub close-Inv : Inv (close s f)
    unfolding close
    close-Inv = elim (close_entry_cases s.file f is_open) [
      | inl (e, more) ↦
          rw (e, close)
            (swapped-Inv f m unused ff (λ r k. v.calls.owned f is_open k)
              (λ j u n. rw (eq→== f f refl) (ground arith)))
      | inr e ↦ rw (e, close) closed-Inv
    ]

  module _ (i : ℕ) (none_open : Unreferenced s i) where
    -- Nobody waits at the lock of an inode that no open file has.
    nobody_waits : (q t : ℕ) → waits i t (s.pc q) ≡ false
    nobody_waits q t = go (s.pc q) refl
      where
        go : (pc : Pc) → s.pc q ≡ pc → waits i t pc ≡ false
        go running e = refl
        go (acquiring g operation) e = refl
        go (waiting g j operation woken) e =
            ground (arith, v.calls.sleeping q g j operation woken e, none_open g)

    abbrev recycled : System
    recycled = record s { flock = update s.flock i (flock_init (s.flock i)) }

    no_holders : (t : ℕ) → holders s i t ≡ 0
    no_holders t = count-eq-zero nfile (holds s.file i t) (λ f l. ground (arith, none_open f))

    no_waiters : (t : ℕ) → waiters s i t ≡ 0
    no_waiters t = count-eq-zero num_ids (λ q. waits i t (s.pc q)) (λ q l. nobody_waits q t)

    recycled-own : LockInv recycled i
    recycled-own = record {
      counts =
          rw
            (
              eq→== i i refl,
              no_holders lock_sh,
              no_holders lock_ex,
              no_waiters lock_sh,
              no_waiters lock_ex,
            )
            (init-Counts (s.flock i));
      stuck = λ q g other e. absurd (
          none_open g (v.calls.sleeping q g i other false e).1
            (v.calls.sleeping q g i other false e).4);
    }

    pub recycle-Inv : Inv recycled
    recycle-Inv = record {
      calls = record {
        opened = v.calls.opened;
        owned = v.calls.owned;
        calling = v.calls.calling;
        sleeping = v.calls.sleeping;
        alone = v.calls.alone;
        known = v.calls.known;
      };
      locks = λ j. elim (ℕ_discrete j i) [
        | yes e ↦ rw e recycled-own
        | no d ↦
            LockInv-frame j (v.locks j) (ground arith) (λ t f k l. refl) (λ t q. refl)
              (λ q g other e. e)
      ];
    }
