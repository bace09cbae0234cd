-- ===== src/Inodes/Recorded.antt =====
-- A file whose inode is written to its block.
use advance_synchronization.Base.{
  ℕ, ◌-◌, ◌/◌, ◌%◌, ◌<◌, ◌≡◌, refl, sym, ap, ◌∙◌, arith, update, ne→==,
}
use native.Mathlib.Decide.{ℕ_discrete}
use advance_synchronization.Log.{Block, Disk}
use advance_synchronization.Inodes.{Inode, ndirect, maxfile, iblock}
use advance_synchronization.Inodes.Data.{byte_at, bsize}
use advance_synchronization.Inodes.Volume.{IsVolume, IsData, IsKept, Kept-IsData, update-IsKept}
use advance_synchronization.Inodes.Entries.{entry, content, IsFile}

-- A write of the block of the inode.
module _ {start : ℕ} {d : Disk} {ip : Inode} (v : IsVolume start ip.inum d) (f : IsFile start d ip)
    (b : Block) where
  abbrev pub with_inode : Disk
  with_inode = update d (iblock ip.inum) b

  pub with_inode-IsKept : IsKept d with_inode
  with_inode-IsKept =
      update-IsKept d (iblock ip.inum) b (λ e. absurd (omega arith))
        (λ c h e. absurd (omega (arith, v.inode_known)))

  data_stays : (x : ℕ) → IsData start ip.inum d x → with_inode x ≡ d x
  data_stays x h = rw (ne→== (iblock ip.inum) x h.not_inode) refl

  pub inode_entries : (m : ℕ) → entry with_inode ip m ≡ entry d ip m
  inode_entries m = elim (ℕ_discrete (ip.addrs ndirect) 0) [
    | yes e ↦ ground arith
    | no y ↦
        let s =
          ap (λ (x : Block). x (m - ndirect)) (data_stays (ip.addrs ndirect) (f.indirect y)) in
        ground (arith, s)
  ]

  pub with_inode-IsFile : IsFile start with_inode ip
  with_inode-IsFile = record {
    mapped = λ m n y. rw (inode_entries m) (
        Kept-IsData with_inode-IsKept (entry d ip m) v.start_le
          (f.mapped m n (λ e. y (inode_entries m ∙ e))));
    indirect = λ y. Kept-IsData with_inode-IsKept (ip.addrs ndirect) v.start_le (f.indirect y);
    distinct = λ m n i j y e.
        f.distinct m n i j (λ q. y (inode_entries m ∙ q))
          (sym (inode_entries m) ∙ e ∙ inode_entries n);
    apart = λ m i y e. f.apart m i (λ q. y (inode_entries m ∙ q)) (sym (inode_entries m) ∙ e);
  }

  pub inode_content : (o : ℕ) → o / bsize < maxfile → content with_inode ip o ≡ content d ip o
  inode_content o k = elim (ℕ_discrete (entry d ip (o / bsize)) 0) [
    | yes z ↦ rw (inode_entries (o / bsize), z) refl
    | no z ↦
        rw (inode_entries (o / bsize), ne→== (entry d ip (o / bsize)) 0 z)
          (ap (λ (y : Block). byte_at y (o % bsize))
            (data_stays (entry d ip (o / bsize)) (f.mapped (o / bsize) k z)))
  ]

pub resized-IsFile :
    {start : ℕ} {d : Disk} {ip : Inode} (s : ℕ)
    → IsFile start d ip
    → IsFile start d (record ip { size = s })
resized-IsFile s f = record {
  mapped = f.mapped;
  indirect = f.indirect;
  distinct = f.distinct;
  apart = f.apart;
}
