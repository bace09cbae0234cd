-- ===== src/Blocks/Bitmap.antt =====
-- The blocks with a bit of the bitmap changed.
use advance_synchronization.Base.{
  ℕ, ◌+◌, ◌/◌, ◌%◌, ◌<◌, ◌≡◌, ◌≢◌, sym, ap, ◌∙◌, arith, ◌==◌, if◌then◌else◌, update,
}
use native.Mathlib.Decide.{ℕ_discrete}
use advance_synchronization.Log.{Block, Disk, sb_size, sb_ninodes}
use advance_synchronization.Blocks.{set_at, clear_at, bpb, bblock}
use advance_synchronization.Blocks.Bits.{bit_at-set_at, bit_at-clear_at}
use advance_synchronization.Blocks.Search.{used}

abbrev pub bitmap_block : Disk → ℕ → ℕ
bitmap_block d c = bblock c (sb_ninodes (d 1))

-- The bitmap stands before the log, and has the super block and itself in use.
pub record IsLaidOut (start : ℕ) (d : Disk) : Type 0 where
  pub some_block : 0 < sb_size (d 1)
  pub bitmap_before : (c : ℕ) → c < sb_size (d 1) → bitmap_block d c < start
  pub bitmap_used : (c : ℕ) → c < sb_size (d 1) → used d (bitmap_block d c) ≢ 0
  pub super_used : used d 1 ≢ 0

-- The blocks with block `b` marked, and all zero.
abbrev pub mark : Disk → ℕ → Disk
mark d b = update d (bitmap_block d b) (set_at (d (bitmap_block d b)) (b % bpb))

abbrev pub allocated : Disk → ℕ → Disk
allocated d b = update (mark d b) b (λ w. 0)

abbrev pub freed : Disk → ℕ → Disk
freed d b = update d (bitmap_block d b) (clear_at (d (bitmap_block d b)) (b % bpb))

same_bit : (b c : ℕ) → b / bpb ≡ c / bpb → b % bpb ≡ c % bpb → b ≡ c
same_bit b c p q = omega arith

pub bitmap-≢-super : (d : Disk) (c : ℕ) → bitmap_block d c ≢ 1
bitmap-≢-super d c = λ e. absurd (omega arith)

used-mark : (d : Disk) (b c : ℕ) → used (mark d b) c ≡ (if b == c then 1 else used d c)
used-mark d b c =
    let super : mark d b 1 ≡ d 1 = ground (arith, bitmap-≢-super d b) in
    rw super (elim (ℕ_discrete (b / bpb) (c / bpb)) [
      | yes e ↦
          let m = bit_at-set_at (d (bitmap_block d b)) (b % bpb) (c % bpb) in
          ground (arith, m, same_bit b c, ap (λ x. d (x + sb_ninodes (d 1) / 8 + 3)) e)
      | no n ↦ ground arith
    ])

pub used-elsewhere :
    (e : Disk) (b c : ℕ) (z : Block)
    → b ≢ 1
    → b ≢ bitmap_block e c
    → used (update e b z) c ≡ used e c
used-elsewhere e b c z p q =
    let super : update e b z 1 ≡ e 1 = ground arith in rw super (ground arith)

pub mark-super : (d : Disk) (b : ℕ) → mark d b 1 ≡ d 1
mark-super d b = ground (arith, bitmap-≢-super d b)

module _ (d : Disk) (b : ℕ) (start : ℕ) (laid : IsLaidOut start d) (free : used d b ≡ 0) where
  pub free-≢-super : b ≢ 1
  free-≢-super e = laid.super_used (sym (ap (used d) e) ∙ free)

  pub free-≢-bitmap : (c : ℕ) → c < sb_size (d 1) → b ≢ bitmap_block d c
  free-≢-bitmap c h e = laid.bitmap_used c h (sym (ap (used d) e) ∙ free)

  -- Block `b` is in use then, and no other block changes.
  pub used-allocated :
      (c : ℕ) → c < sb_size (d 1) → used (allocated d b) c ≡ (if b == c then 1 else used d c)
  used-allocated c h =
      let apart : b ≢ bitmap_block (mark d b) c = rw (mark-super d b) (free-≢-bitmap c h) in
      used-elsewhere (mark d b) b c (λ w. 0) free-≢-super apart ∙ used-mark d b c

pub used-freed : (d : Disk) (b c : ℕ) → used (freed d b) c ≡ (if b == c then 0 else used d c)
used-freed d b c =
    let super : freed d b 1 ≡ d 1 = ground (arith, bitmap-≢-super d b) in
    rw super (elim (ℕ_discrete (b / bpb) (c / bpb)) [
      | yes e ↦
          let m = bit_at-clear_at (d (bitmap_block d b)) (b % bpb) (c % bpb) in
          ground (arith, m, same_bit b c, ap (λ x. d (x + sb_ninodes (d 1) / 8 + 3)) e)
      | no n ↦ ground arith
    ])
