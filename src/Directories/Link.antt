-- ===== src/Directories/Link.antt =====
-- The place that `dir_link` looks for, and the directory with the entry that it writes.
use advance_synchronization.Base.{
  ℕ, zero, suc, ◌+◌, ◌-◌, ◌/◌, ◌%◌, ◌^◌, ◌<◌, ◌≤◌, ◌≡◌, ◌≢◌, refl, sym, ap, ◌∙◌, arith, ◌==◌,
  if◌then◌else◌, ltb, ne→==, some, fun_ext, Bool-cases, true, false, inl, inr,
}
use mathlib.Core.Path.{subst}
use native.Mathlib.Decide.{dec_lt}
use advance_synchronization.Log.{Disk, Log}
use advance_synchronization.Paths.{dirsiz}
use advance_synchronization.Inodes.{Inode}
use advance_synchronization.Inodes.Data.{Devsw, bsize}
use advance_synchronization.Inodes.Cache.{Slots}
use advance_synchronization.Inodes.Entries.{IsFile}
use advance_synchronization.Inodes.Saving.{IsSaved}
use advance_synchronization.Directories.{
  dirent_size, dirent_inum, dirent_name, is_match, strncpy, free_from, new_dirent, same_name,
}
use advance_synchronization.Directories.Names.{same_name-copy, same_name-same, strncpy-bytes}
use advance_synchronization.Directories.Lookup.{
  dirent_at, IsDirectory, same_slots, small_size, read_dirent-there,
}

pub new_dirent-bytes :
    (inum : ℕ) (name : ℕ → ℕ) → ((j : ℕ) → name j < 256) → (i : ℕ) → new_dirent inum name i < 256
unfolding new_dirent
new_dirent-bytes inum name h zero = omega arith
new_dirent-bytes inum name h (suc zero) = omega arith
new_dirent-bytes inum name h (suc (suc i)) =
    strncpy-bytes dirsiz 0 false (λ j. 0) name (λ j. omega arith) h i

-- The entry for the name and a number that is not 0 matches the name.
pub matches-new :
    (de : ℕ → ℕ) (inum : ℕ) (name : ℕ → ℕ)
    → ((i : ℕ) → i < dirent_size → de i ≡ new_dirent inum name i)
    → inum % 2 ^ 16 ≢ 0
    → (dirent_inum de ≡ inum % 2 ^ 16) × (is_match de name ≡ true)
unfolding new_dirent
matches-new de inum name h z =
    let low = h 0 (omega arith) in
    let high = h 1 (omega arith) in
    let number : dirent_inum de ≡ inum % 2 ^ 16 = omega arith in
    let named : same_name (dirent_name de) name ≡ true =
      same_name-same (dirent_name de) (strncpy dirsiz 0 false (λ j. 0) name) name (λ j k.
        let next : 2 + j ≡ suc (suc j) = omega arith in ap de next ∙ h (suc (suc j)) (omega arith))
      ∙ same_name-copy (λ j. 0) name in
    (number, rw (named, number, ne→== (inum % 2 ^ 16) 0 z) refl)

module _ (devsw : Devsw) (l : Log) (d : Disk) (slots : Slots) (dp : ℕ)
    (h : IsDirectory l d (slots dp)) where
  abbrev dir : Inode
  dir = slots dp

  free-step :
      (k : ℕ) (off : ℕ)
      → off % dirent_size ≡ 0
      → off < dir.size
      → free_from (suc k) devsw l slots dp off ≡ (
          if dirent_inum (dirent_at d dir off) == 0
          then some (l, slots, off)
          else free_from k devsw l slots dp ((off + dirent_size) % 2 ^ 32))
  unfolding free_from
  free-step k off a small =
      let t : ltb off dir.size ≡ true = ground arith in
      rw (t, read_dirent-there devsw l d slots dp h off a small, same_slots slots dp) refl

  free-end :
      (k : ℕ) (off : ℕ)
      → dir.size ≤ off
      → free_from (suc k) devsw l slots dp off ≡ some (l, slots, off)
  unfolding free_from
  free-end k off h' = let t : ltb off dir.size ≡ false = ground arith in rw t refl

  -- `dir_link` finds the place of an entry, or the end of the directory.
  pub free_from-lem :
      (k : ℕ) (off : ℕ)
      → off % dirent_size ≡ 0
      → off ≤ dir.size
      → dir.size < off + k
      → (o : ℕ) × (o ≤ dir.size)
        × (o % dirent_size ≡ 0)
        × (free_from k devsw l slots dp off ≡ some (l, slots, o))
  free_from-lem zero off a g f = absurd (omega arith)
  free_from-lem (suc k) off a g f = elim (dec_lt off dir.size) [
    | no z ↦ (off, g, a, free-end k off (omega arith))
    | yes z ↦ elim (Bool-cases (dirent_inum (dirent_at d dir off) == 0)) [
      | inl t ↦ (off, g, a, free-step k off a z ∙ rw t refl)
      | inr t ↦
          let (fits, small) = small_size dir.size off (λ o p q. (h.all o p q).0) h.whole a z in
          let next : (off + dirent_size) % 2 ^ 32 ≡ off + dirent_size = omega arith in
          let (o, o_le, o_at, e) =
            free_from-lem k (off + dirent_size) (omega arith) fits (omega arith) in
          let step : free_from (suc k) devsw l slots dp off
              ≡ free_from k devsw l slots dp (off + dirent_size) =
            free-step k off a z ∙ rw (t, next) refl in
          (o, o_le, o_at, step ∙ e)
    ]
  ]

-- The directory after the entry at `o` was written.
module _ {old d : Disk} {l : Log} {ip : Inode} (h : IsDirectory l d ip) (src : ℕ → ℕ) (o : ℕ)
    {d' : Disk} {l' : Log} {ip' : Inode} (s : IsSaved old d l ip src o dirent_size d' l' ip')
    (o_le : o ≤ ip.size) (o_at : o % dirent_size ≡ 0) where
  pub new_size : ip'.size ≡ (if ip.size == o then o + dirent_size else ip.size)
  new_size =
      let (a, b) : (ip.size % dirent_size ≡ 0)
          × (ip'.size ≡ (if ltb ip.size (o + dirent_size) then o + dirent_size else ip.size)) =
        (h.whole, s.size) in
      ground arith

  pub linked-IsDirectory : IsDirectory l' d' ip'
  linked-IsDirectory =
      let size = new_size in
      record {
        shown = s.active.shown;
        file = subst (λ x. IsFile x d' ip') (sym s.log_start) s.file;
        kind = s.same_kind ∙ h.kind;
        whole = let w = h.whole in ground arith;
        all = λ p a b. elim (dec_lt p ip.size) [
          | yes k ↦
              let (small, z) = h.all p (omega arith) (omega arith) in
              (small, λ y. z (sym (s.others (p / bsize) small z) ∙ y))
          | no k ↦ s.there p (omega arith) (ground arith)
        ];
      }

  pub other_entry :
      (p : ℕ) → p % dirent_size ≡ 0 → p < ip.size → p ≢ o → dirent_at d' ip' p ≡ dirent_at d ip p
  other_entry p a k n = fun_ext λ i. elim (dec_lt i dirent_size) [
    | no q ↦ ground arith
    | yes q ↦
        let fits : p + i < ip.size = let w = h.whole in omega arith in
        let same = s.bytes (p + i) (h.all (p + i) (omega arith) (omega arith)).0 in
        ground (arith, same)
  ]

  pub new_entry : (i : ℕ) → i < dirent_size → dirent_at d' ip' o i ≡ src i % 256
  new_entry i k =
      let place : o + i - o ≡ i = omega arith in
      let byte = s.bytes (o + i) (s.there (o + i) (omega arith) (omega arith)).0 in
      ground (arith, byte, ap (λ x. src x % 256) place)
