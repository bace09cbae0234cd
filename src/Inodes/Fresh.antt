-- ===== src/Inodes/Fresh.antt =====
-- A block that `block_alloc` has returned, for the inode that gets it.
use advance_synchronization.Base.{ℕ, ◌<◌, ◌≡◌, ◌≢◌, sym, ap, ◌∙◌, arith, some}
use advance_synchronization.Log.{Block, Disk, Log, sb_size}
use advance_synchronization.Log.Append.{IsActive}
use advance_synchronization.Blocks.{block_alloc}
use advance_synchronization.Blocks.Search.{used}
use advance_synchronization.Blocks.Bitmap.{
  bitmap_block, allocated, used-allocated, free-≢-super, free-≢-bitmap,
}
use advance_synchronization.Blocks.Exhausted.{block_alloc-some}
use advance_synchronization.Inodes.Volume.{
  IsVolume, IsData, IsKept, Kept-IsVolume, allocated-IsKept,
}

-- A block that `block_alloc` has returned.
pub record IsFresh (start inum : ℕ) (d : Disk) (b : ℕ) : Type 0 where
  pub free : used d b ≡ 0
  pub below : b < start
  pub nonzero : b ≢ 0
  pub volume : IsVolume start inum (allocated d b)
  pub is_data : IsData start inum (allocated d b) b
  pub same : (x : ℕ) → IsData start inum d x → allocated d b x ≡ d x
  pub zeros : allocated d b b ≡ (λ w. 0)
  pub kept : IsKept d (allocated d b)

pub fresh_lem :
    (start inum : ℕ) (d : Disk) (b : ℕ)
    → IsVolume start inum d
    → used d b ≡ 0
    → b < start
    → IsFresh start inum d b
fresh_lem start inum d b v free below =
    let kept = allocated-IsKept start d b v.laid free in
    let size : b < sb_size (d 1) = omega (arith, v.start_le) in
    record {
      free = free;
      below = below;
      nonzero = λ e. v.zero_used (sym (ap (used d) e) ∙ free);
      volume = Kept-IsVolume kept v;
      is_data = record {
        before = below;
        in_use = λ e. let f = used-allocated d b start v.laid free b size in ground arith;
        not_super = free-≢-super d b start v.laid free;
        not_bitmap = λ c h e.
            let known : c < sb_size (d 1) =
              omega (arith, ap (λ (x : Block). sb_size x) kept.super) in
            free-≢-bitmap d b start v.laid free c known
              (sym e ∙ ap (λ (x : Block). bitmap_block (λ _. x) c) kept.super);
        not_inode = λ e. v.inode_used (ap (used d) e ∙ free);
      };
      same = λ x h.
          let apart : b ≢ x = λ e. h.in_use (sym (ap (used d) e) ∙ free) in
          let elsewhere = h.not_bitmap b size in ground arith;
      zeros = ground arith;
      kept = kept;
    }

-- What `block_alloc` did where it returned `b`.
pub alloc-IsFresh :
    {old d : Disk} {l : Log} (inum : ℕ)
    → IsActive old d l
    → IsVolume l.start inum d
    → (l' : Log) (b : ℕ) → block_alloc l ≡ some (l', b)
    → IsFresh l.start inum d b × IsActive old (allocated d b) l' × (l'.start ≡ l.start)
alloc-IsFresh {d = d} {l = l} inum h v l' b e =
    let r = block_alloc-some h v.laid v.log_used l' b e in
    (fresh_lem l.start inum d b v r.was_free r.before, r.active, r.log_start)
