-- ===== src/Inodes/Entries.antt =====
-- The blocks of a file, what it means that they are in order, and a file that gets another block.
use advance_synchronization.Base.{
  ℕ, zero, suc, ◌-◌, ◌/◌, ◌%◌, ◌<◌, ◌≡◌, ◌≢◌, refl, sym, ap, ◌∙◌, arith, ◌==◌, if◌then◌else◌, ltb,
  eq→==, ne→==,
}
use native.Mathlib.Decide.{ℕ_discrete}
use advance_synchronization.Log.{Block, Disk}
use advance_synchronization.Blocks.Search.{used}
use advance_synchronization.Inodes.{Inode, ndirect, maxfile}
use advance_synchronization.Inodes.Data.{byte_at, get_byte, bsize}
use advance_synchronization.Inodes.Volume.{IsVolume, IsData, IsKept, Kept-IsData}

-- The address of block `bn` of the file, 0 where it has none.
abbrev pub entry : Disk → Inode → ℕ → ℕ
entry d ip bn =
    if ltb bn ndirect
    then ip.addrs bn
    else if ip.addrs ndirect == 0
    then 0
    else d (ip.addrs ndirect) (bn - ndirect)

-- Byte `o` of the file; a block that it does not have counts as zero.
abbrev pub content : Disk → Inode → ℕ → ℕ
content d ip o =
    if entry d ip (o / bsize) == 0 then 0 else byte_at (d (entry d ip (o / bsize))) (o % bsize)

-- The blocks of the file, the indirect block among them, are data blocks and all different.
pub record IsFile (start : ℕ) (d : Disk) (ip : Inode) : Type 0 where
  pub mapped : (bn : ℕ) → bn < maxfile → entry d ip bn ≢ 0 → IsData start ip.inum d (entry d ip bn)
  pub indirect : ip.addrs ndirect ≢ 0 → IsData start ip.inum d (ip.addrs ndirect)
  pub distinct :
      (m n : ℕ) → m < maxfile → n < maxfile → entry d ip m ≢ 0 → entry d ip m ≡ entry d ip n → m ≡ n
  pub apart : (bn : ℕ) → bn < maxfile → entry d ip bn ≢ 0 → entry d ip bn ≢ ip.addrs ndirect

abbrev pub with_addrs : Inode → (ℕ → ℕ) → Inode
with_addrs ip a = record ip { addrs = a }

get_byte-zero : (j : ℕ) → get_byte j 0 ≡ 0
unfolding get_byte
get_byte-zero zero = refl
get_byte-zero (suc j) = get_byte-zero j

-- The file gets block `b`, which was free, as its block `bn`.
pub record IsAdded (start : ℕ) (d d' : Disk) (ip : Inode) (a : ℕ → ℕ) (bn b : ℕ) : Type 0 where
  pub kept : IsKept d d'
  pub free : used d b ≡ 0
  pub nonzero : b ≢ 0
  pub is_data : IsData start ip.inum d' b
  pub entries :
      (m : ℕ) → m < maxfile → entry d' (with_addrs ip a) m ≡ (if bn == m then b else entry d ip m)
  pub same_indirect : a ndirect ≡ ip.addrs ndirect
  pub none_before : entry d ip bn ≡ 0
  pub same : (x : ℕ) → IsData start ip.inum d x → x ≢ ip.addrs ndirect → d' x ≡ d x
  pub zeros : d' b ≡ (λ w. 0)

pub not_free : {start inum : ℕ} {d : Disk} (b x : ℕ) → used d b ≡ 0 → IsData start inum d x → b ≢ x
not_free {d = d} b x free h e = h.in_use (sym (ap (used d) e) ∙ free)

module _ {start : ℕ} {d d' : Disk} {ip : Inode} {a : ℕ → ℕ} {bn b : ℕ}
    (v : IsVolume start ip.inum d) (f : IsFile start d ip) (h : IsAdded start d d' ip a bn b) where
  old_entry : (m : ℕ) → m < maxfile → bn ≢ m → entry d' (with_addrs ip a) m ≡ entry d ip m
  old_entry m k n = rw (h.entries m k, ne→== bn m n) refl

  new_entry : (m : ℕ) → m < maxfile → bn ≡ m → entry d' (with_addrs ip a) m ≡ b
  new_entry m k e = rw (h.entries m k, eq→== bn m e) refl

  -- The new block is none of the others.
  new_apart : (m : ℕ) → m < maxfile → b ≢ entry d ip m
  new_apart m k e = not_free b (entry d ip m) h.free (f.mapped m k (λ y. h.nonzero (e ∙ y))) e

  new-≢-indirect : b ≢ ip.addrs ndirect
  new-≢-indirect e = not_free b (ip.addrs ndirect) h.free (f.indirect (λ y. h.nonzero (e ∙ y))) e

  pub Added-IsFile : IsFile start d' (with_addrs ip a)
  Added-IsFile = record {
    mapped = λ m k z. elim (ℕ_discrete bn m) [
      | yes e ↦ rw (new_entry m k e) h.is_data
      | no n ↦
          let same = old_entry m k n in
          rw same (Kept-IsData h.kept (entry d ip m) v.start_le (f.mapped m k (λ y. z (same ∙ y))))
    ];
    indirect = λ z. rw h.same_indirect (
        Kept-IsData h.kept (ip.addrs ndirect) v.start_le
          (f.indirect (λ y. z (h.same_indirect ∙ y))));
    distinct = λ m n k l z e. elim (ℕ_discrete bn m) [
      | yes p ↦ elim (ℕ_discrete bn n) [
        | yes q ↦ omega arith
        | no q ↦ absurd (new_apart n l (sym (new_entry m k p) ∙ e ∙ old_entry n l q))
      ]
      | no p ↦ elim (ℕ_discrete bn n) [
        | yes q ↦ absurd (new_apart m k (sym (new_entry n l q) ∙ sym e ∙ old_entry m k p))
        | no q ↦
            f.distinct m n k l (λ y. z (old_entry m k p ∙ y))
              (sym (old_entry m k p) ∙ e ∙ old_entry n l q)
      ]
    ];
    apart = λ m k z e. elim (ℕ_discrete bn m) [
      | yes p ↦ new-≢-indirect (sym (new_entry m k p) ∙ e ∙ h.same_indirect)
      | no p ↦
          f.apart m k (λ y. z (old_entry m k p ∙ y)) (sym (old_entry m k p) ∙ e ∙ h.same_indirect)
    ];
  }

  -- What the file holds does not change.
  pub Added-content :
      (o : ℕ) → o / bsize < maxfile → content d' (with_addrs ip a) o ≡ content d ip o
  Added-content o k = elim (ℕ_discrete bn (o / bsize)) [
    | yes e ↦
        let old : entry d ip (o / bsize) ≡ 0 = ap (entry d ip) (sym e) ∙ h.none_before in
        rw (new_entry (o / bsize) k e, ne→== b 0 h.nonzero, old, h.zeros)
          (get_byte-zero (o % bsize % 4))
    | no n ↦ elim (ℕ_discrete (entry d ip (o / bsize)) 0) [
      | yes z ↦ rw (old_entry (o / bsize) k n, z) refl
      | no z ↦
          let x = entry d ip (o / bsize) in
          rw (old_entry (o / bsize) k n, ne→== x 0 z)
            (ap (λ (y : Block). byte_at y (o % bsize))
              (h.same x (f.mapped (o / bsize) k z) (f.apart (o / bsize) k z)))
    ]
  ]
