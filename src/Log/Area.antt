-- ===== src/Log/Area.antt =====
-- What the disk holds when a crash can be repaired, and what reading and writing the header does.
use advance_synchronization.Base.{
  ℕ, zero, suc, ◌+◌, ◌-◌, ◌%◌, ◌^◌, ◌<◌, ◌≡◌, ◌≢◌, refl, ap, arith, ◌⊎◌, List, [], ◌∷◌, update,
}
use native.Mathlib.Decide.{ℕ_discrete}
use advance_synchronization.Log.{
  Block, Disk, Log, sb_size, sb_nlog, read_sectors, write_sectors, write_head,
}

abbrev pub All : (Disk → Type 0) → List Disk → Type 0
All P [] = Unit {0}
All P (d ∷ ds) = P d × All P ds

-- The super block puts the log at this block.
abbrev pub LogAt : ℕ → Block → Type 0
LogAt start sb = (sb_size sb + 2 ^ 32 - sb_nlog sb) % 2 ^ 32 ≡ start

-- A log with a transaction that was committed: with what it holds, the blocks before the log are `new`.
pub record IsCommitted (start n : ℕ) (sector : ℕ → ℕ) (new d : Disk) : Type 0 where
  pub counted : d start 0 ≡ n
  pub named : (i : ℕ) → i < n → d start (suc i) ≡ sector i
  pub logged : (i : ℕ) → i < n → d (start + i + 1) ≡ new (sector i)
  pub before : (i : ℕ) → i < n → sector i < start
  pub not_super : (i : ℕ) → i < n → sector i ≢ 1
  pub rest : (s : ℕ) → s < start → ((i : ℕ) → i < n → sector i ≢ s) → d s ≡ new s

-- An empty log behind the blocks `new`.
pub record IsClear (start : ℕ) (new d : Disk) : Type 0 where
  pub empty : d start 0 ≡ 0
  pub same : (s : ℕ) → s < start → d s ≡ new s

abbrev pub IsRecoverable : ℕ → Disk → Disk → Type 0
IsRecoverable start new d =
    IsClear start new d ⊎ ((n : ℕ) × (sector : ℕ → ℕ) × IsCommitted start n sector new d)

pub read_sectors_lem :
    (n : ℕ) (b : Block) (sector : ℕ → ℕ) (i : ℕ) → i < n → read_sectors n b sector i ≡ b (suc i)
unfolding read_sectors
read_sectors_lem zero b sector i l = absurd (omega arith)
read_sectors_lem (suc n) b sector i l = elim (ℕ_discrete n i) [
  | yes e ↦ ground (arith, ap b (ap suc e))
  | no d ↦ ground (arith, read_sectors_lem n b sector i (omega arith))
]

pub write_sectors_lem :
    (n : ℕ) (b : Block) (sector : ℕ → ℕ) (i : ℕ)
    → i < n
    → write_sectors n sector b (suc i) ≡ sector i
unfolding write_sectors
write_sectors_lem zero b sector i l = absurd (omega arith)
write_sectors_lem (suc n) b sector i l = elim (ℕ_discrete n i) [
  | yes e ↦ ground (arith, ap sector e)
  | no d ↦ ground (arith, write_sectors_lem n b sector i (omega arith))
]

pub write_sectors_first : (n : ℕ) (b : Block) (sector : ℕ → ℕ) → write_sectors n sector b 0 ≡ b 0
unfolding write_sectors
write_sectors_first zero b sector = refl
write_sectors_first (suc n) b sector = ground (arith, write_sectors_first n b sector)

module _ (l : Log) where
  pub header_counted : (write_head l).disk l.start 0 ≡ l.n
  unfolding write_head
  header_counted = ground (arith, write_sectors_first l.n (update (l.view l.start) 0 l.n) l.sector)

  pub header_named : (i : ℕ) → i < l.n → (write_head l).disk l.start (suc i) ≡ l.sector i
  unfolding write_head
  header_named i h =
      ground (arith, write_sectors_lem l.n (update (l.view l.start) 0 l.n) l.sector i h)

  pub header_others : (s : ℕ) → s ≢ l.start → (write_head l).disk s ≡ l.disk s
  unfolding write_head
  header_others s d = ground arith

  pub header_view : (s : ℕ) → s ≢ l.start → (write_head l).view s ≡ l.view s
  unfolding write_head
  header_view s d = ground arith
