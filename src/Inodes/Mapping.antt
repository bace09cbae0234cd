-- ===== src/Inodes/Mapping.antt =====
-- `bmap` below NDIRECT, and what a call of `bmap` does to the file.
use advance_synchronization.Base.{
  ℕ, ◌-◌, ◌/◌, ◌<◌, ◌≡◌, ◌≢◌, refl, sym, ap, ◌∙◌, arith, if◌then◌else◌, update, eq→==, ne→==,
  Option, some, bind-some, fun_ext, ◌⊎◌, inl, inr,
}
use mathlib.Core.Path.{subst}
use native.Mathlib.Decide.{ℕ_discrete}
use advance_synchronization.Log.{Block, Disk, Log}
use advance_synchronization.Log.Append.{IsActive}
use advance_synchronization.Blocks.{block_alloc}
use advance_synchronization.Blocks.Bitmap.{allocated}
use advance_synchronization.Inodes.{Inode, ndirect, maxfile, bmap_direct, block_or_alloc}
use advance_synchronization.Inodes.Data.{bsize}
use advance_synchronization.Inodes.Volume.{IsVolume, Kept-IsVolume}
use advance_synchronization.Inodes.Entries.{
  entry, content, IsFile, IsAdded, with_addrs, Added-IsFile, Added-content,
}
use advance_synchronization.Inodes.Fresh.{IsFresh, alloc-IsFresh}

pub record IsMapped (old d : Disk) (l : Log) (ip : Inode) (bn : ℕ) (d' : Disk) (l' : Log)
    (a : ℕ → ℕ) (b : ℕ) : Type 0 where
  pub active : IsActive old d' l'
  pub log_start : l'.start ≡ l.start
  pub volume : IsVolume l.start ip.inum d'
  pub file : IsFile l.start d' (with_addrs ip a)
  pub at : entry d' (with_addrs ip a) bn ≡ b
  pub nonzero : b ≢ 0
  pub same : (o : ℕ) → o / bsize < maxfile → content d' (with_addrs ip a) o ≡ content d ip o
  pub others :
      (m : ℕ) → m < maxfile → entry d ip m ≢ 0 → entry d' (with_addrs ip a) m ≡ entry d ip m

or_alloc-zero : (l : Log) (addr : ℕ) → addr ≡ 0 → block_or_alloc l addr ≡ block_alloc l
unfolding block_or_alloc
or_alloc-zero l addr z = rw (eq→== addr 0 z) refl

pub or_alloc-there : (l : Log) (addr : ℕ) → addr ≢ 0 → block_or_alloc l addr ≡ some (l, addr)
unfolding block_or_alloc
or_alloc-there l addr z = rw (ne→== addr 0 z) refl

pub or_alloc :
    (l l' : Log) (addr b : ℕ)
    → block_or_alloc l addr ≡ some (l', b)
    → ((addr ≡ 0) × (block_alloc l ≡ some (l', b))) ⊎ ((addr ≢ 0) × (l ≡ l') × (addr ≡ b))
or_alloc l l' addr b e = elim (ℕ_discrete addr 0) [
  | yes z ↦ inl (z, sym (or_alloc-zero l addr z) ∙ e)
  | no z ↦
      let here : ◌≡◌ {A = Option (Log × ℕ)} (some (l, addr)) (some (l', b)) =
        sym (or_alloc-there l addr z) ∙ e in
      inr (z, cc, cc)
]

pub same_addrs : (a : ℕ → ℕ) (bn b : ℕ) → a bn ≡ b → a ≡ update a bn b
same_addrs a bn b e = fun_ext λ j. elim (ℕ_discrete bn j) [
  | yes q ↦ rw (eq→== bn j q) (ap a (sym q) ∙ e)
  | no q ↦ rw (ne→== bn j q) refl
]

module _ (old d : Disk) (l : Log) (ip : Inode) (h : IsActive old d l)
    (v : IsVolume l.start ip.inum d) (f : IsFile l.start d ip) where
  pub added-IsMapped :
      (bn : ℕ) (d' : Disk) (l' : Log) (a : ℕ → ℕ) (b : ℕ)
      → bn < maxfile
      → IsActive old d' l'
      → l'.start ≡ l.start
      → IsAdded l.start d d' ip a bn b
      → IsMapped old d l ip bn d' l' a b
  added-IsMapped bn d' l' a b k active at g = record {
    active = active;
    log_start = at;
    volume = Kept-IsVolume g.kept v;
    file = Added-IsFile v f g;
    at = g.entries bn k ∙ ap (λ t. if t then b else entry d ip bn) (eq→== bn bn refl);
    nonzero = g.nonzero;
    same = Added-content v f g;
    others = λ m n z.
        g.entries m n
        ∙ ap (λ t. if t then b else entry d ip m)
            (ne→== bn m (λ e. z (ap (entry d ip) (sym e) ∙ g.none_before)));
  }

  pub there-IsMapped :
      (bn : ℕ) → entry d ip bn ≢ 0 → IsMapped old d l ip bn d l ip.addrs (entry d ip bn)
  there-IsMapped bn z = record {
    active = h;
    log_start = refl;
    volume = v;
    file = f;
    at = refl;
    nonzero = z;
    same = λ o k. refl;
    others = λ m n y. refl;
  }

  direct-IsAdded :
      (bn b : ℕ)
      → bn < ndirect
      → ip.addrs bn ≡ 0
      → IsFresh l.start ip.inum d b
      → IsAdded l.start d (allocated d b) ip (update ip.addrs bn b) bn b
  direct-IsAdded bn b k z r = record {
    kept = r.kept;
    free = r.free;
    nonzero = r.nonzero;
    is_data = r.is_data;
    entries = λ m n. elim (ℕ_discrete (ip.addrs ndirect) 0) [
      | yes e ↦ ground arith
      | no y ↦
          let s = ap (λ (x : Block). x (m - ndirect)) (r.same (ip.addrs ndirect) (f.indirect y)) in
          ground arith
    ];
    same_indirect = ground arith;
    none_before = ground arith;
    same = λ x y _. r.same x y;
    zeros = r.zeros;
  }

  pub direct-IsMapped :
      (bn : ℕ) (l' : Log) (ip' : Inode) (b : ℕ)
      → bn < ndirect
      → bmap_direct l ip bn ≡ some (l', ip', b)
      → (d' : Disk) × (a : ℕ → ℕ) × (ip' ≡ with_addrs ip a) × IsMapped old d l ip bn d' l' a b
  unfolding bmap_direct
  direct-IsMapped bn l' ip' b k e =
      let ((l1, b1), e1, e2) = bind-some (block_or_alloc l (ip.addrs bn)) _ (l', ip', b) e in
      let same_log : l1 ≡ l' = cc in
      let same_block : b1 ≡ b = cc in
      let same_inode : ip' ≡ with_addrs ip (update ip.addrs bn b) = cc in
      let found : block_or_alloc l (ip.addrs bn) ≡ some (l', b) = cc in
      elim (or_alloc l l' (ip.addrs bn) b found) [
        | inl (z, got) ↦
            let (r, active, at) = alloc-IsFresh ip.inum h v l' b got in
            let small : bn < maxfile = omega arith in
            (
              allocated d b,
              update ip.addrs bn b,
              same_inode,
              added-IsMapped bn (allocated d b) l' (update ip.addrs bn b) b small active at
                  (direct-IsAdded bn b k z r),
            )
        | inr (z, stay, addr) ↦
            let low : entry d ip bn ≡ ip.addrs bn = ground arith in
            let there = there-IsMapped bn (λ y. z (sym low ∙ y)) in
            (
              d,
              update ip.addrs bn b,
              same_inode,
              subst (λ x. IsMapped old d l ip bn d l' x b) (same_addrs ip.addrs bn b addr)
                  (subst (λ x. IsMapped old d l ip bn d x ip.addrs b) stay
                    (subst (λ x. IsMapped old d l ip bn d l ip.addrs x) (low ∙ addr) there)),
            )
      ]
