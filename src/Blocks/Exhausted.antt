-- ===== src/Blocks/Exhausted.antt =====
-- The results of `block_alloc`, a panic and a block.
use advance_synchronization.Base.{
  ℕ, zero, suc, ◌+◌, ◌/◌, ◌%◌, ◌<◌, ◌≤◌, ◌≡◌, ◌≢◌, refl, sym, ap, ◌∙◌, arith, none, some, ◌⊎◌, inl,
  inr, update, bind-some,
}
use mathlib.Core.Path.{subst}
use native.Mathlib.Decide.{ℕ_discrete, dec_lt}
use advance_synchronization.Log.{Block, Disk, Log, sb_size, sb_ninodes, log_write, set_data}
use advance_synchronization.Log.Append.{IsActive, log_write-IsActive}
use advance_synchronization.Blocks.{
  set_at, bpb, bblock, find_bit, take_block, block_alloc, block_alloc_from, block_zero,
}
use advance_synchronization.Blocks.Search.{used, find_bit_lem, in_block, block_alloc-IsFirst}
use advance_synchronization.Blocks.Bitmap.{
  bitmap_block, IsLaidOut, mark, bitmap-≢-super, used-allocated, free-≢-super,
}
use advance_synchronization.Blocks.Allocation.{IsAllocation, super_shown, used_shown}

-- A free block below the bound, or none.
free_or_full :
    (d : Disk) (n : ℕ) → ((f : ℕ) × (f < n) × (used d f ≡ 0)) ⊎ ((c : ℕ) → c < n → used d c ≢ 0)
free_or_full d zero = inr (λ c h. absurd (omega arith))
free_or_full d (suc n) = elim (ℕ_discrete (used d n) 0) [
  | yes e ↦ inl (n, omega arith, e)
  | no m ↦ elim (free_or_full d n) [
    | inl (f, h, e) ↦ inl (f, omega arith, e)
    | inr all ↦ inr (λ c h. elim (ℕ_discrete c n) [ yes e ↦ rw e m | no q ↦ all c (omega arith) ])
  ]
]

module _ (l : Log) (all : (c : ℕ) → c < sb_size (l.view 1) → used l.view c ≢ 0) where
  find_bit-none :
      (b : ℕ)
      → b % bpb ≡ 0
      → find_bit bpb 0 b (sb_size (l.view 1)) (l.view (bblock b (sb_ninodes (l.view 1)))) ≡ none
  find_bit-none b m =
      elim (find_bit_lem bpb 0 b (sb_size (l.view 1)) (l.view (bblock b (sb_ninodes (l.view 1))))) [
        | inl (e, _) ↦ e
        | inr (r, e, u, v, w, x, g) ↦ absurd (all (b + r) w (in_block l b r m (omega arith) ∙ x))
      ]

  block_alloc_from-none :
      (k b : ℕ)
      → b % bpb ≡ 0
      → block_alloc_from k l (sb_size (l.view 1)) (sb_ninodes (l.view 1)) b ≡ none
  unfolding block_alloc_from
  block_alloc_from-none zero b m = refl
  block_alloc_from-none (suc k) b m =
      ground (arith, find_bit-none b m, block_alloc_from-none k (b + bpb) (omega arith))

  pub block_alloc-none : block_alloc l ≡ none
  unfolding block_alloc
  block_alloc-none = block_alloc_from-none (suc (sb_size (l.view 1) / bpb)) 0 refl

-- The two writes of the log, where both succeed.
take_block-some :
    (l : Log) (bb b : ℕ) (l' : Log) (b' : ℕ)
    → take_block l bb b ≡ some (l', b')
    → (b ≡ b')
      × (l1 : Log) × (log_write (set_data l bb (set_at (l.view bb) (b % bpb))) bb ≡ some l1)
      × (log_write (set_data l1 b (λ w. 0)) b ≡ some l')
unfolding take_block block_zero
take_block-some l bb b l' b' e =
    let (l1, f, e1) =
      bind-some (log_write (set_data l bb (set_at (l.view bb) (b % bpb))) bb) _ (l', b') e in
    let (l2, g, e2) = bind-some (log_write (set_data l1 b (λ w. 0)) b) _ (l', b') e1 in
    let same : l2 ≡ l' = cc in (cc, l1, f, rw same at g)

module _ {old new : Disk} {l : Log} (h : IsActive old new l) (laid : IsLaidOut l.start new)
    (sealed : (c : ℕ) → l.start ≤ c → c < sb_size (new 1) → used new c ≢ 0) where
  taken :
      (l' : Log) (b : ℕ)
      → b < l.start
      → b < sb_size (new 1)
      → used new b ≡ 0
      → ((c : ℕ) → c < b → used new c ≢ 0)
      → (l1 : Log)
      → log_write
          (set_data l (bitmap_block new b) (set_at (l.view (bitmap_block new b)) (b % bpb)))
          (bitmap_block new b)
        ≡ some l1
      → log_write (set_data l1 b (λ w. 0)) b ≡ some l'
      → IsAllocation old new l l' b
  taken l' b below k free first l1 e1 e2 =
      let bb = bitmap_block new b in
      let at_bb = laid.bitmap_before b k in
      let x = set_at (l.view bb) (b % bpb) in
      let (h1, s1, z1, n1) = log_write-IsActive h bb x l1 at_bb (bitmap-≢-super new b) e1 in
      let marked : IsActive old (mark new b) l1 =
        subst (λ (y : Block). IsActive old (update new bb (set_at y (b % bpb))) l1)
          (h.shown bb at_bb) h1 in
      let (h2, s2, z2, n2) =
        log_write-IsActive marked b (λ w. 0) l' (rw s1 below) (free-≢-super new b l.start laid free)
          e2 in
      record {
        was_free = free;
        first = first;
        before = below;
        used_after = used-allocated new b l.start laid free;
        active = h2;
        log_start = s2 ∙ s1;
        log_size = z2 ∙ z1;
        log_room = omega arith;
      }

  -- Where the bitmap has the log in use, a block that block_alloc returns was free, and stands before the log.
  pub block_alloc-some :
      (l' : Log) (b : ℕ) → block_alloc l ≡ some (l', b) → IsAllocation old new l l' b
  block_alloc-some l' b e = elim (free_or_full l.view (sb_size (l.view 1))) [
    | inr all ↦ let e' = sym (block_alloc-none l all) ∙ e in cc
    | inl (f, hi, free) ↦
        let size : sb_size (l.view 1) ≡ sb_size (new 1) =
          ap (λ (x : Block). sb_size x) (super_shown h laid) in
        let (r, eq, (_, z, first), le) = block_alloc-IsFirst l f hi free in
        let place : bblock r (sb_ninodes (l.view 1)) ≡ bitmap_block new r =
          ap (λ (x : Block). bblock r (sb_ninodes x)) (super_shown h laid) in
        let took : take_block l (bitmap_block new r) r ≡ some (l', b) =
          ap (λ x. take_block l x r) (sym place) ∙ sym eq ∙ e in
        let (same, l1, e1, e2) = take_block-some l (bitmap_block new r) r l' b took in
        let k : r < sb_size (new 1) = omega arith in
        let free' : used new r ≡ 0 = sym (used_shown h laid r k) ∙ z in
        let below : r < l.start = elim (dec_lt r l.start) [
          | yes q ↦ q
          | no q ↦ absurd (sealed r (omega arith) k free')
        ] in
        let earlier : (c : ℕ) → c < r → used new c ≢ 0 =
          λ c u v. first c (omega arith) u (used_shown h laid c (omega arith) ∙ v) in
        subst (λ x. IsAllocation old new l l' x) same (taken l' r below k free' earlier l1 e1 e2)
  ]
