-- ===== src/Inodes/Volume.antt =====
-- The blocks of a file system as far as one inode depends on them, and which changes keep them in order.
use advance_synchronization.Base.{ℕ, ◌<◌, ◌≤◌, ◌≡◌, ◌≢◌, sym, ap, ◌∙◌, arith, update}
use advance_synchronization.Log.{Block, Disk, sb_size, sb_ninodes}
use advance_synchronization.Blocks.Search.{used}
use advance_synchronization.Blocks.Bitmap.{
  bitmap_block, IsLaidOut, used-elsewhere, mark-super, allocated, used-allocated, free-≢-super,
}
use advance_synchronization.Inodes.{iblock}

-- The bitmap is in order and has the log, block 0 and the block of the inode in use.
pub record IsVolume (start inum : ℕ) (d : Disk) : Type 0 where
  pub laid : IsLaidOut start d
  pub start_le : start ≤ sb_size (d 1)
  pub log_used : (c : ℕ) → start ≤ c → c < sb_size (d 1) → used d c ≢ 0
  pub zero_used : used d 0 ≢ 0
  pub inode_used : used d (iblock inum) ≢ 0
  pub inode_known : inum < sb_ninodes (d 1)
  pub inode_before : iblock inum < start

-- A block in use that is neither the super block nor of the bitmap nor that of the inode.
pub record IsData (start inum : ℕ) (d : Disk) (a : ℕ) : Type 0 where
  pub before : a < start
  pub in_use : used d a ≢ 0
  pub not_super : a ≢ 1
  pub not_bitmap : (c : ℕ) → c < sb_size (d 1) → bitmap_block d c ≢ a
  pub not_inode : iblock inum ≢ a

-- The super block stays, and no block goes out of use.
pub record IsKept (d d' : Disk) : Type 0 where
  pub super : d' 1 ≡ d 1
  pub in_use : (c : ℕ) → c < sb_size (d 1) → used d c ≢ 0 → used d' c ≢ 0

module _ {d d' : Disk} (k : IsKept d d') where
  size_kept : sb_size (d' 1) ≡ sb_size (d 1)
  size_kept = ap (λ (x : Block). sb_size x) k.super

  place_kept : (c : ℕ) → bitmap_block d' c ≡ bitmap_block d c
  place_kept c = ap (λ (x : Block). bitmap_block (λ _. x) c) k.super

  pub Kept-IsVolume : {start inum : ℕ} → IsVolume start inum d → IsVolume start inum d'
  Kept-IsVolume {inum = inum} v =
      let size = size_kept in
      record {
        laid = record {
          some_block = omega (arith, v.laid.some_block);
          bitmap_before = λ c h. rw (place_kept c) (v.laid.bitmap_before c (omega arith));
          bitmap_used = λ c h.
              let old = v.laid.bitmap_before c (omega arith) in
              rw (place_kept c) (
                k.in_use (bitmap_block d c) (omega (arith, v.start_le))
                  (v.laid.bitmap_used c (omega arith)));
          super_used =
              k.in_use 1 (omega (arith, v.start_le, v.laid.bitmap_before 0 v.laid.some_block))
                v.laid.super_used;
        };
        start_le = omega (arith, v.start_le);
        log_used = λ c a h. k.in_use c (omega arith) (v.log_used c a (omega arith));
        zero_used = k.in_use 0 v.laid.some_block v.zero_used;
        inode_used =
            k.in_use (iblock inum) (omega (arith, v.start_le, v.inode_before)) v.inode_used;
        inode_known = rw k.super v.inode_known;
        inode_before = v.inode_before;
      }

  pub Kept-IsData :
      {start inum : ℕ} (a : ℕ)
      → start ≤ sb_size (d 1)
      → IsData start inum d a
      → IsData start inum d' a
  Kept-IsData a le x =
      let size = size_kept in
      record {
        before = x.before;
        in_use = k.in_use a (omega (arith, x.before)) x.in_use;
        not_super = x.not_super;
        not_bitmap = λ c h. rw (place_kept c) (x.not_bitmap c (omega arith));
        not_inode = x.not_inode;
      }

-- A write of a block that is not of the bitmap.
pub update-IsKept :
    (d : Disk) (a : ℕ) (b : Block)
    → a ≢ 1
    → ((c : ℕ) → c < sb_size (d 1) → bitmap_block d c ≢ a)
    → IsKept d (update d a b)
update-IsKept d a b p q = record {
  super = ground arith;
  in_use = λ c h u e. u (sym (used-elsewhere d a c b (λ x. p x) (λ x. q c h (sym x))) ∙ e);
}

-- An allocation.
pub allocated-IsKept :
    (start : ℕ) (d : Disk) (b : ℕ) → IsLaidOut start d → used d b ≡ 0 → IsKept d (allocated d b)
allocated-IsKept start d b laid free =
    let apart = free-≢-super d b start laid free in
    record {
      super = ground (arith, mark-super d b);
      in_use = λ c h u e. let f = used-allocated d b start laid free c h in ground arith;
    }
