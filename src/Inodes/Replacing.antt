-- ===== src/Inodes/Replacing.antt =====
-- A file with new bytes in one of its blocks.
use advance_synchronization.Base.{
  ℕ, ◌+◌, ◌-◌, ◌/◌, ◌%◌, ◌<◌, ◌≤◌, ◌≡◌, ◌≢◌, refl, sym, ap, ◌∙◌, arith, ◌==◌, if◌then◌else◌, ltb,
  leb, ◌&&◌, update, eq→==, ne→==,
}
use native.Mathlib.Decide.{ℕ_discrete}
use advance_synchronization.Log.{Block, Disk}
use advance_synchronization.Inodes.{Inode, ndirect, maxfile}
use advance_synchronization.Inodes.Data.{byte_at, bsize, copy_in}
use advance_synchronization.Inodes.Bytes.{byte_at-copy_in}
use advance_synchronization.Inodes.Volume.{IsVolume, IsKept, Kept-IsData, update-IsKept}
use advance_synchronization.Inodes.Entries.{entry, content, IsFile}

-- One block `x` of the file gets new bytes.
module _ {start : ℕ} {d : Disk} {ip : Inode} (v : IsVolume start ip.inum d) (f : IsFile start d ip)
    (bn : ℕ) (k : bn < maxfile) (z : entry d ip bn ≢ 0) (b : Block) where
  abbrev pub replaced : Disk
  replaced = update d (entry d ip bn) b

  pub replaced-IsKept : IsKept d replaced
  replaced-IsKept =
      let x = f.mapped bn k z in update-IsKept d (entry d ip bn) b x.not_super x.not_bitmap

  pub replaced_entries : (m : ℕ) → m < maxfile → entry replaced ip m ≡ entry d ip m
  replaced_entries m n = let q = f.apart bn k z in ground arith

  pub replaced-IsFile : IsFile start replaced ip
  replaced-IsFile = record {
    mapped = λ m n y. rw (replaced_entries m n) (
        Kept-IsData replaced-IsKept (entry d ip m) v.start_le
          (f.mapped m n (λ e. y (replaced_entries m n ∙ e))));
    indirect = λ y. Kept-IsData replaced-IsKept (ip.addrs ndirect) v.start_le (f.indirect y);
    distinct = λ m n i j y e.
        f.distinct m n i j (λ q. y (replaced_entries m i ∙ q))
          (sym (replaced_entries m i) ∙ e ∙ replaced_entries n j);
    apart =
        λ m i y e. f.apart m i (λ q. y (replaced_entries m i ∙ q)) (sym (replaced_entries m i) ∙ e);
  }

  replaced-content :
      (o : ℕ)
      → o / bsize < maxfile
      → content replaced ip o ≡ (if bn == o / bsize then byte_at b (o % bsize) else content d ip o)
  replaced-content o n = elim (ℕ_discrete bn (o / bsize)) [
    | yes e ↦
        let x = entry d ip (o / bsize) in
        let here : entry d ip bn ≡ x = ap (entry d ip) e in
        rw
          (
            replaced_entries (o / bsize) n,
            ne→== x 0 (λ y. z (here ∙ y)),
            eq→== bn (o / bsize) e,
            eq→== (entry d ip bn) x here,
          )
          refl
    | no q ↦ elim (ℕ_discrete (entry d ip (o / bsize)) 0) [
      | yes y ↦ rw (replaced_entries (o / bsize) n, y, ne→== bn (o / bsize) q) refl
      | no y ↦
          let x = entry d ip (o / bsize) in
          let apart : entry d ip bn ≢ x = λ e. q (f.distinct bn (o / bsize) k n z e) in
          rw
            (
              replaced_entries (o / bsize) n,
              ne→== x 0 y,
              ne→== bn (o / bsize) q,
              ne→== (entry d ip bn) x apart,
            )
            refl
    ]
  ]

  held : (o : ℕ) → bn ≡ o / bsize → content d ip o ≡ byte_at (d (entry d ip bn)) (o % bsize)
  held o e =
      let here : entry d ip bn ≡ entry d ip (o / bsize) = ap (entry d ip) e in
      rw (← here, ne→== (entry d ip bn) 0 z) refl

-- The bytes of one round.
pub round_bytes :
    {start : ℕ} {d : Disk} {ip : Inode} (v : IsVolume start ip.inum d) (f : IsFile start d ip)
    (off m : ℕ) (src : ℕ → ℕ) (k : off / bsize < maxfile) (z : entry d ip (off / bsize) ≢ 0)
    → off % bsize + m ≤ bsize
    → (o : ℕ) → o / bsize < maxfile
    → content
        (replaced v f
          (off / bsize)
          k
          z
          (copy_in m (d (entry d ip (off / bsize))) (off % bsize) src))
        ip
        o
      ≡ (if leb off o && ltb o (off + m) then src (o - off) % 256 else content d ip o)
round_bytes {d = d} {ip = ip} v f off m src k z fits o n =
    elim (ℕ_discrete (off / bsize) (o / bsize)) [
      | yes e ↦ ground (
        arith,
        replaced-content v f (off / bsize) k z
            (copy_in m (d (entry d ip (off / bsize))) (off % bsize) src) o n,
        byte_at-copy_in m (d (entry d ip (off / bsize))) (off % bsize) src (o % bsize),
        held v f (off / bsize) k z (copy_in m (d (entry d ip (off / bsize))) (off % bsize) src) o e,
      )
      | no q ↦ ground (
        arith,
        replaced-content v f (off / bsize) k z
            (copy_in m (d (entry d ip (off / bsize))) (off % bsize) src) o n,
      )
    ]
