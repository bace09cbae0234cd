-- ===== src/Inodes/Indirect.antt =====
-- `bmap` for the blocks behind the indirect block.
use advance_synchronization.Base.{
  ℕ, ◌+◌, ◌-◌, ◌/◌, ◌%◌, ◌<◌, ◌≡◌, ◌≢◌, refl, sym, ap, ◌∙◌, arith, ◌==◌, if◌then◌else◌, update,
  ne→==, some, bind-some, inl, inr,
}
use mathlib.Core.Path.{subst}
use native.Mathlib.Decide.{ℕ_discrete}
use advance_synchronization.Log.{Block, Disk, Log, sb_size}
use advance_synchronization.Log.Append.{IsActive}
use advance_synchronization.Blocks.Bitmap.{allocated}
use advance_synchronization.Inodes.{Inode, ndirect, nindirect, maxfile, bmap_direct, block_or_alloc}
use advance_synchronization.Inodes.Data.{byte_at, bsize}
use advance_synchronization.Inodes.Volume.{IsVolume, IsData, IsKept, Kept-IsData, update-IsKept}
use advance_synchronization.Inodes.Entries.{entry, content, IsFile, IsAdded, with_addrs, not_free}
use advance_synchronization.Inodes.Mapping.{or_alloc, same_addrs}
use advance_synchronization.Inodes.Fresh.{IsFresh, alloc-IsFresh}

Kept-trans : (d d1 d2 : Disk) → IsKept d d1 → IsKept d1 d2 → IsKept d d2
Kept-trans d d1 d2 h k = record {
  super = k.super ∙ h.super;
  in_use =
      λ c l u. k.in_use c (omega (arith, ap (λ (x : Block). sb_size x) h.super)) (h.in_use c l u);
}

-- The file has its indirect block `ind`.
pub record IsReady (old d : Disk) (l : Log) (ip : Inode) (d1 : Disk) (l1 : Log) (a : ℕ → ℕ)
    (ind : ℕ) : Type 0 where
  pub active : IsActive old d1 l1
  pub log_start : l1.start ≡ l.start
  pub volume : IsVolume l.start ip.inum d1
  pub file : IsFile l.start d1 (with_addrs ip a)
  pub at : a ndirect ≡ ind
  pub nonzero : ind ≢ 0
  pub entries : (m : ℕ) → m < maxfile → entry d1 (with_addrs ip a) m ≡ entry d ip m
  pub same : (o : ℕ) → o / bsize < maxfile → content d1 (with_addrs ip a) o ≡ content d ip o

module _ (old d : Disk) (l : Log) (ip : Inode) (h : IsActive old d l)
    (v : IsVolume l.start ip.inum d) (f : IsFile l.start d ip) where
  module _ (ind : ℕ) (unmapped : ip.addrs ndirect ≡ 0) (r : IsFresh l.start ip.inum d ind) where
    abbrev pub grown : Inode
    grown = with_addrs ip (update ip.addrs ndirect ind)

    grown_entries : (m : ℕ) → m < maxfile → entry (allocated d ind) grown m ≡ entry d ip m
    grown_entries m k =
        let z = ap (λ (x : Block). x (m - ndirect)) r.zeros in ground (arith, r.nonzero)

    grown-IsFile : IsFile l.start (allocated d ind) grown
    grown-IsFile = record {
      mapped = λ m k z. rw (grown_entries m k) (
          Kept-IsData r.kept (entry d ip m) v.start_le
            (f.mapped m k (λ y. z (grown_entries m k ∙ y))));
      indirect = λ z. r.is_data;
      distinct = λ m n k i z e.
          f.distinct m n k i (λ y. z (grown_entries m k ∙ y))
            (sym (grown_entries m k) ∙ e ∙ grown_entries n i);
      apart = λ m k z e.
          not_free ind (entry d ip m) r.free (f.mapped m k (λ y. z (grown_entries m k ∙ y)))
            (sym (sym (grown_entries m k) ∙ e));
    }

    grown-content :
        (o : ℕ) → o / bsize < maxfile → content (allocated d ind) grown o ≡ content d ip o
    grown-content o k = elim (ℕ_discrete (entry d ip (o / bsize)) 0) [
      | yes z ↦ rw (grown_entries (o / bsize) k, z) refl
      | no z ↦
          rw (grown_entries (o / bsize) k, ne→== (entry d ip (o / bsize)) 0 z)
            (ap (λ (y : Block). byte_at y (o % bsize))
              (r.same (entry d ip (o / bsize)) (f.mapped (o / bsize) k z)))
    ]

  pub ready :
      (l1 : Log) (ip1 : Inode) (ind : ℕ)
      → bmap_direct l ip ndirect ≡ some (l1, ip1, ind)
      → (d1 : Disk) × (a : ℕ → ℕ) × (ip1 ≡ with_addrs ip a) × IsReady old d l ip d1 l1 a ind
  unfolding bmap_direct
  ready l1 ip1 ind e =
      let ((l2, b2), e1, e2) = bind-some (block_or_alloc l (ip.addrs ndirect)) _ (l1, ip1, ind) e in
      let same_log : l2 ≡ l1 = cc in
      let same_block : b2 ≡ ind = cc in
      let same_inode : ip1 ≡ with_addrs ip (update ip.addrs ndirect ind) = cc in
      let found : block_or_alloc l (ip.addrs ndirect) ≡ some (l1, ind) = cc in
      elim (or_alloc l l1 (ip.addrs ndirect) ind found) [
        | inl (z, got) ↦
            let (r, active, at) = alloc-IsFresh ip.inum h v l1 ind got in
            (
              allocated d ind,
              update ip.addrs ndirect ind,
              same_inode,
              record {
                active = active;
                log_start = at;
                volume = r.volume;
                file = grown-IsFile ind z r;
                at = refl;
                nonzero = r.nonzero;
                entries = grown_entries ind z r;
                same = grown-content ind z r;
              },
            )
        | inr (z, stay, addr) ↦ (
          d,
          ip.addrs,
          same_inode ∙ ap (with_addrs ip) (sym (same_addrs ip.addrs ndirect ind addr)),
          record {
            active = subst (λ x. IsActive old d x) stay h;
            log_start = ap (λ (x : Log). x.start) (sym stay);
            volume = v;
            file = f;
            at = addr;
            nonzero = λ y. z (addr ∙ y);
            entries = λ m k. refl;
            same = λ o k. refl;
          },
        )
      ]

  module _ (ind j b : ℕ) (at : ip.addrs ndirect ≡ ind) (z : ind ≢ 0) (k : j < nindirect)
      (empty : d ind j ≡ 0) (r : IsFresh l.start ip.inum d b) where
    pub indirect-IsData : IsData l.start ip.inum d ind
    indirect-IsData = subst (λ x. IsData l.start ip.inum d x) at (f.indirect (λ y. z (sym at ∙ y)))

    abbrev pub entered : Disk
    entered = update (allocated d b) ind (update (allocated d b ind) j b)

    entered-IsKept : IsKept (allocated d b) entered
    entered-IsKept =
        let x = Kept-IsData r.kept ind v.start_le indirect-IsData in
        update-IsKept (allocated d b) ind (update (allocated d b ind) j b) x.not_super x.not_bitmap

    entered_entries :
        (m : ℕ) → m < maxfile → entry entered ip m ≡ (if ndirect + j == m then b else entry d ip m)
    entered_entries m n =
        let s = ap (λ (x : Block). x (m - ndirect)) (r.same ind indirect-IsData) in
        rw at (ground arith)

    pub entered-IsAdded : IsAdded l.start d entered ip ip.addrs (ndirect + j) b
    entered-IsAdded = record {
      kept = Kept-trans d (allocated d b) entered r.kept entered-IsKept;
      free = r.free;
      nonzero = r.nonzero;
      is_data =
          Kept-IsData entered-IsKept b
            (omega (arith, ap (λ (x : Block). sb_size x) r.kept.super, v.start_le)) r.is_data;
      entries = entered_entries;
      same_indirect = refl;
      none_before =
          (let place : ndirect + j - ndirect ≡ j = omega arith in
            rw at (ground (arith, ap (d ind) place, empty)));
      same = λ x y n. rw (ne→== ind x (λ e. n (sym e ∙ sym at))) (r.same x y);
      zeros = rw (ne→== ind b (λ e. not_free b ind r.free indirect-IsData (sym e))) r.zeros;
    }
