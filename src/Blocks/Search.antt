-- ===== src/Blocks/Search.antt =====
-- The search of `block_alloc` through the bitmap.
use advance_synchronization.Base.{
  ℕ, zero, suc, ◌+◌, ◌-◌, ◌*◌, ◌/◌, ◌%◌, ◌<◌, ◌≤◌, ◌≡◌, ◌≢◌, refl, sym, ◌∙◌, arith, none, some, ltb,
  ◌⊎◌, inl, inr, true,
}
use mathlib.Core.Path.{subst}
use native.Mathlib.Decide.{ℕ_discrete, dec_lt}
use advance_synchronization.Log.{Block, Disk, Log, sb_size, sb_ninodes}
use advance_synchronization.Blocks.{
  bit_at, bpb, bblock, find_bit, take_block, block_alloc_from, block_alloc,
}

-- The bit of block `c` in the bitmap of the blocks `d`.
abbrev pub used : Disk → ℕ → ℕ
used d c = bit_at (d (bblock c (sb_ninodes (d 1)))) (c % bpb)

abbrev pub Found : ℕ → ℕ → ℕ → ℕ → Block → Type 0
Found k bi b size blk =
    ((find_bit k bi b size blk ≡ none)
      × ((j : ℕ) → bi ≤ j → j < bi + k → b + j < size → bit_at blk j ≢ 0))
    ⊎ ((r : ℕ) × (find_bit k bi b size blk ≡ some r)
        × (bi ≤ r)
        × (r < bi + k)
        × (b + r < size)
        × (bit_at blk r ≡ 0)
        × ((j : ℕ) → bi ≤ j → j < r → bit_at blk j ≢ 0))

pub find_bit_lem : (k bi b size : ℕ) (blk : Block) → Found k bi b size blk
unfolding find_bit
find_bit_lem zero bi b size blk = inl (refl, λ j u v w. absurd (omega arith))
find_bit_lem (suc k) bi b size blk = elim (dec_lt (b + bi) size) [
  | no n ↦ inl (ground arith, λ j u v w. absurd (omega arith))
  | yes h ↦ elim (ℕ_discrete (bit_at blk bi) 0) [
    | yes e ↦ inr (bi, ground arith, omega arith, omega arith, h, e, λ j u v. absurd (omega arith))
    | no d ↦ elim (find_bit_lem k (bi + 1) b size blk) [
      | inl (e, f) ↦ inl (
        ground (arith, e),
        λ j u v w. elim (ℕ_discrete j bi) [
          | yes q ↦ rw q d
          | no q ↦ f j (omega arith) (omega arith) w
        ],
      )
      | inr (r, e, u, v, w, x, f) ↦ inr (
        r,
        ground (arith, e),
        omega arith,
        omega arith,
        w,
        x,
        λ j a c. elim (ℕ_discrete j bi) [ yes q ↦ rw q d | no q ↦ f j (omega arith) (omega arith) ],
      )
    ]
  ]
]

module _ (l : Log) where
  abbrev size : ℕ
  size = sb_size (l.view 1)

  abbrev ninodes : ℕ
  ninodes = sb_ninodes (l.view 1)

  -- Block `r` is the first from `b` on that is free.
  abbrev pub IsFirst : ℕ → ℕ → Type 0
  IsFirst b r = (b ≤ r) × (used l.view r ≡ 0) × ((c : ℕ) → b ≤ c → c < r → used l.view c ≢ 0)

  pub in_block :
      (b r : ℕ) → b % bpb ≡ 0 → r < bpb → used l.view (b + r) ≡ bit_at (l.view (bblock b ninodes)) r
  in_block b r e h =
      let p : (b + r) / bpb ≡ b / bpb = omega arith in
      let q : (b + r) % bpb ≡ r = omega arith in rw (p, q) refl

  in_block_at :
      (b c : ℕ)
      → b % bpb ≡ 0
      → b ≤ c
      → c < b + bpb
      → used l.view c ≡ bit_at (l.view (bblock b ninodes)) (c - b)
  in_block_at b c e h k =
      let p : b + (c - b) ≡ c = omega arith in
      subst (λ x. used l.view x ≡ bit_at (l.view (bblock b ninodes)) (c - b)) p
        (in_block b (c - b) e (omega arith))

  block_alloc_from_lem :
      (k b f : ℕ)
      → b % bpb ≡ 0
      → size ≤ b + k * bpb
      → b ≤ f
      → f < size
      → used l.view f ≡ 0
      → (r : ℕ) × (block_alloc_from k l size ninodes b ≡ take_block l (bblock r ninodes) r)
        × IsFirst b r
        × (r ≤ f)
  unfolding block_alloc_from
  block_alloc_from_lem zero b f m fuel lo hi free = absurd (omega arith)
  block_alloc_from_lem (suc k) b f m fuel lo hi free =
      let t : ltb b size ≡ true = ground arith in
      elim (find_bit_lem bpb 0 b size (l.view (bblock b ninodes))) [
        | inl (e, g) ↦
            let all : (c : ℕ) → b ≤ c → c < b + bpb → c < size → used l.view c ≢ 0 = λ c u v w z.
              g (c - b) (omega arith) (omega arith) (omega arith)
                (sym (in_block_at b c m u v) ∙ z) in
            let far : b + bpb ≤ f = elim (dec_lt f (b + bpb)) [
              | yes q ↦ absurd (all f lo q hi free)
              | no q ↦ omega arith
            ] in
            let (r, eq, (a, z, first), below) =
              block_alloc_from_lem k (b + bpb) f (omega arith) (omega arith) far hi free in
            (
              r,
              rw (t, e) eq,
              (
                omega arith,
                z,
                λ c u v. elim (dec_lt c (b + bpb)) [
                  | yes q ↦ all c u q (omega arith)
                  | no q ↦ first c (omega arith) v
                ],
              ),
              below,
            )
        | inr (r, e, u, v, w, x, g) ↦
            let p : (b + r) / bpb ≡ b / bpb = omega arith in
            let earlier : (c : ℕ) → b ≤ c → c < b + r → used l.view c ≢ 0 = λ c y z o.
              g (c - b) (omega arith) (omega arith) (sym (in_block_at b c m y (omega arith)) ∙ o) in
            let below : b + r ≤ f = elim (dec_lt f (b + r)) [
              | yes q ↦ absurd (earlier f lo q free)
              | no q ↦ omega arith
            ] in
            (
              b + r,
              rw (t, e, p) refl,
              (omega arith, in_block b r m (omega arith) ∙ x, earlier),
              below,
            )
      ]

  -- With a block below the size of the file system free, `block_alloc` takes the first free block.
  pub block_alloc-IsFirst :
      (f : ℕ)
      → f < size
      → used l.view f ≡ 0
      → (r : ℕ) × (block_alloc l ≡ take_block l (bblock r ninodes) r) × IsFirst 0 r × (r ≤ f)
  unfolding block_alloc
  block_alloc-IsFirst f h free =
      block_alloc_from_lem (suc (size / bpb)) 0 f refl (omega arith) (omega arith) h free
