-- ===== src/Descriptors/Locking.antt =====
-- `sys_close` and `sys_flock` check the descriptor, and then do what `file_close` and `file_flock` do.
use advance_synchronization.Base.{
  ℕ, zero, suc, ◌+◌, ◌-◌, ◌<◌, ◌≡◌, ◌≢◌, refl, sym, ◌∙◌, arith, ltb, Bool, false, none, some,
  update, ℤ, pos, negsuc, minus_one, eq→==,
}
use native.Mathlib.Decide.{ℕ_discrete}
use advance_synchronization.Flock.{Flock, Outcome, returned, asleep}
use advance_synchronization.File.{
  File, FileTable, fd_none, file_close_entry, file_close_lock, file_flock,
}
use advance_synchronization.File.Requests.{requested, flock_succeeds}
use advance_synchronization.Descriptors.{
  Files, file_close, sys_close, sys_flock, lookup, magnitude, reply, e_succ, e_badf, answer,
}

answer-zero : (out : Outcome) → answer out ≡ some (reply e_succ (pos 0)) → out ≡ returned (pos 0)
answer-zero asleep h = absurd (cc)
answer-zero (returned (pos zero)) h = refl
answer-zero (returned (pos (suc n))) h = ground arith
answer-zero (returned (negsuc n)) h = ground arith

module _ (s : Files) (pid : ℕ) (fd : ℤ) (operation f : ℕ) (e : lookup s fd ≡ some f) where
  call : File × Flock × Bool × Outcome
  call = file_flock (s.table f) (s.flock (s.table f).ip) pid operation

  flock_reply : (sys_flock s pid fd operation).2 ≡ answer call.3
  unfolding sys_flock call
  flock_reply = rw (e, sys_flock) refl

  flock_table : (sys_flock s pid fd operation).0.table ≡ update s.table f call.0
  unfolding sys_flock call
  flock_table = rw (e, sys_flock) refl

  -- A `sys_flock` that returns 0 leaves the entry of the descriptor holding the type of lock asked for,
  -- and no lock after an unlock.
  pub sys_flock_succeeds :
      (sys_flock s pid fd operation).2 ≡ some (reply e_succ (pos 0))
      → ((sys_flock s pid fd operation).0.table f).holding_flock ≡ requested operation
  unfolding call
  sys_flock_succeeds h =
      rw (flock_table, eq→== f f refl)
        (flock_succeeds (s.table f) (s.flock (s.table f).ip) pid operation
          (answer-zero call.3 (sym flock_reply ∙ h)))

-- Without an open file behind the descriptor, `sys_flock` and `sys_close` answer with E_BADF and change
-- nothing.
bad_descriptor :
    (s : Files) (pid : ℕ) (fd : ℤ) (operation : ℕ)
    → lookup s fd ≡ none
    → (sys_flock s pid fd operation ≡ (s, false, some (reply e_badf minus_one)))
      × (sys_close s fd ≡ some (s, reply e_badf minus_one))
unfolding sys_flock sys_close
bad_descriptor s pid fd operation e = (rw (e, sys_flock) refl, rw (e, sys_close) refl)

-- What the close of a descriptor of entry `f` leaves behind.
pub record Closed (s u : Files) (fd f : ℕ) : Type 0 where
  pub descriptors : u.openfiles ≡ update s.openfiles fd none
  pub fewer : (u.table f).ref + 1 ≡ (s.table f).ref
  pub others : (g : ℕ) → g ≢ f → u.table g ≡ s.table g

close_more :
    (t : FileTable) (fl : ℕ → Flock) (f : ℕ)
    → 1 < (t f).ref
    → file_close t fl f ≡ some (update t f (record (t f) { ref = (t f).ref - 1 }), fl)
unfolding file_close file_close_entry
close_more t fl f h = ground arith

-- The copy that the last close works on.
abbrev last_copy : File → File
last_copy e = record e { ref = e.ref - 1 }

close_last :
    (t : FileTable) (fl : ℕ → Flock) (f : ℕ)
    → (t f).ref ≡ 1
    → file_close t fl f
      ≡ some (
        update t f (record (t f) { ref = 0; kind = fd_none }),
        update fl (t f).ip (file_close_lock (last_copy (t f)) (fl (t f).ip)).0,
      )
unfolding file_close file_close_entry
close_last t fl f h = ground arith

module _ (s : Files) (fd : ℤ) (f : ℕ) (e : lookup s fd ≡ some f) where
  close_reply :
      (u : FileTable) (fl : ℕ → Flock)
      → (s.table f).ref ≢ 0
      → file_close s.table s.flock f ≡ some (u, fl)
      → sys_close s fd
        ≡ some (
          record { openfiles = update s.openfiles (magnitude fd) none; table = u; flock = fl },
          reply e_succ (pos 0),
        )
  unfolding sys_close
  close_reply u fl h c =
      let test : ltb (s.table f).ref 1 ≡ false = ground arith in rw (e, sys_close, test, c) refl

  -- `sys_close` of a descriptor with an open file succeeds: it frees the descriptor, takes one reference
  -- of the entry away, and touches no other entry.
  pub sys_close_lem :
      (s.table f).ref ≢ 0
      → (u : Files) × (sys_close s fd ≡ some (u, reply e_succ (pos 0)))
        × Closed s u (magnitude fd) f
  sys_close_lem h = elim (ℕ_discrete (s.table f).ref 1) [
    | yes one ↦ (
      record {
        openfiles = update s.openfiles (magnitude fd) none;
        table = update s.table f (record (s.table f) { ref = 0; kind = fd_none });
        flock =
            update s.flock (s.table f).ip
              (file_close_lock (last_copy (s.table f)) (s.flock (s.table f).ip)).0;
      },
      close_reply _ _ h (close_last s.table s.flock f one),
      record { descriptors = refl; fewer = ground arith; others = λ g d. ground arith },
    )
    | no more ↦ (
      record {
        openfiles = update s.openfiles (magnitude fd) none;
        table = update s.table f (record (s.table f) { ref = (s.table f).ref - 1 });
        flock = s.flock;
      },
      close_reply _ _ h (close_more s.table s.flock f (omega arith)),
      record { descriptors = refl; fewer = ground arith; others = λ g d. ground arith },
    )
  ]
