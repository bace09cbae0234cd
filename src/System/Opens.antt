-- ===== src/System/Opens.antt =====
-- The calls that open, duplicate and close files keep `CallInv`.
use advance_synchronization.Base.{
  ℕ, ◌+◌, ◌<◌, ◌≤◌, ◌≡◌, ◌≢◌, refl, arith, Bool, true, false, update, some, none, zero, suc,
}
use advance_synchronization.Flock.{Flock}
use advance_synchronization.File.{FileTable, File, nfile, fd_inode, file_alloc, alloc_from}
use advance_synchronization.System.{System, Pc, running, acquiring, waiting, inside, wake_if}
use advance_synchronization.System.Views.{CallInv, IsLock}
use advance_synchronization.System.Entries.{
  wake_if-acquiring, wake_if-waiting, wake_if-running, inside-wake_if,
}

abbrev pub allocated : File → File
allocated f = record f { ref = 1; holding_flock = 0 }

alloc_from_lem :
    (n i : ℕ) (t : FileTable) (f : ℕ) (u : FileTable)
    → alloc_from n i t ≡ some (f, u)
    → (f < i + n) × ((t f).ref ≡ 0) × (u ≡ update t f (allocated (t f)))
unfolding alloc_from
alloc_from_lem zero i t f u h = absurd (cc)
alloc_from_lem (suc n) i t f u h = ground (arith, alloc_from_lem n (i + 1) t f u)

-- `file_alloc` hands out an entry that nobody refers to, with one reference and no lock, and touches no other.
pub file_alloc_lem :
    (t : FileTable) {f : ℕ} {u : FileTable}
    → file_alloc t ≡ some (f, u)
    → (f < nfile) × ((t f).ref ≡ 0) × (u ≡ update t f (allocated (t f)))
unfolding file_alloc
file_alloc_lem t {f} {u} h = ground (arith, alloc_from_lem nfile 0 t f u h)

alloc_from-none :
    (n i : ℕ) (t : FileTable) (g : ℕ) → alloc_from n i t ≡ none → i ≤ g → g < i + n → (t g).ref ≢ 0
unfolding alloc_from
alloc_from-none zero i t g h lo hi = absurd (omega arith)
alloc_from-none (suc n) i t g h lo hi = ground (arith, alloc_from-none n (i + 1) t g)

-- It fails only when every entry of the table is referred to.
pub file_alloc_full : (t : FileTable) → file_alloc t ≡ none → (g : ℕ) → g < nfile → (t g).ref ≢ 0
unfolding file_alloc
file_alloc_full t h g l = alloc_from-none nfile 0 t g h (omega arith) (omega arith)

module _ {s : System} (v : CallInv s) where
  -- A process is inside a call only on an open file.
  pub inside-open : (q g : ℕ) → inside (s.pc q) g ≡ true → (s.file g).ref ≢ 0
  inside-open q g h = go (s.pc q) refl h
    where
      go : (pc : Pc) → s.pc q ≡ pc → inside pc g ≡ true → (s.file g).ref ≢ 0
      go running e h = absurd (cc)
      go (acquiring k operation) e h = ground (arith, v.calling q k operation e)
      go (waiting k i operation woken) e h = ground (arith, v.sleeping q k i operation woken e)

  -- A file that nobody is inside a call on may change its `ref`, and any of its fields as long as a
  -- held lock stays one.
  module _ (f : ℕ) (new : File) (woke : Bool) (i : ℕ) (fl : ℕ → Flock) where
    abbrev replaced : System
    replaced = record { file = update s.file f new; flock = fl; pc = wake_if woke i s.pc }

    module _ (idle : (q : ℕ) → inside (s.pc q) f ≡ false) (m : f < nfile)
        (owned : new.ref ≢ 0
          → new.holding_flock ≢ 0
          → IsLock new.holding_flock × (new.kind ≡ fd_inode)) where
      pub replaced-CallInv : CallInv replaced
      replaced-CallInv = record {
        opened = λ g h. ground (arith, v.opened g h);
        owned = λ g h k. ground (arith, v.owned g, owned);
        calling = λ q g other h.
            ground (arith, wake_if-acquiring woke i s.pc q g other h, v.calling q g other, idle q);
        sleeping = λ q g j other woken h.
            let (before, b) = wake_if-waiting woke i s.pc q g j other woken h in
            ground (arith, v.sleeping q g j other before, idle q);
        alone = λ q r g h k. v.alone q r g (rw inside-wake_if at h) (rw inside-wake_if at k);
        known = λ q h. wake_if-running woke i s.pc q (v.known q h);
      }
