-- ===== src/Pages/Allocator.antt =====
-- What `palloc` promises: a free page of the users' range while there is one.
use advance_synchronization.Base.{
  ℕ, ◌<◌, ◌≤◌, ◌≡◌, ◌≢◌, refl, arith, Bool, true, false, ◌⊎◌, inl, inr, update, count,
  count-eq-zero, leb, ◌&&◌,
}
use native.Mathlib.Decide.{dec_lt}
use advance_synchronization.Pages.{
  Memory, is_free, scan, rounds, palloc, hand_out, at_set_allocated, userlo, userhi, at_is_norm,
  at_is_allocated,
}
use advance_synchronization.Pages.Scan.{scan_lem}

-- The hint of where to look is in the users' range.
abbrev pub HintInRange : Memory → Type 0
HintInRange m = (userlo ≤ m.last) × (m.last < userhi)

abbrev pub free_user_page : Memory → ℕ → Bool
free_user_page m p = leb userlo p && is_free m p

-- How many pages of the users' range are free.
abbrev pub free_pages : Memory → ℕ
free_pages m = count userhi (free_user_page m)

-- No page of the users' range is free, and the table is as it was.
abbrev pub Exhausted : Memory → Memory × ℕ → Type 0
Exhausted m r = (r.1 ≡ 0) × (free_pages m ≡ 0) × (r.0.pages ≡ m.pages)

-- A page of the users' range that was free is allocated, and no other page has changed.
abbrev pub Granted : Memory → Memory × ℕ → Type 0
Granted m r =
    (userlo ≤ r.1)
    × (r.1 < userhi)
    × (is_free m r.1 ≡ true)
    × (at_is_allocated r.0 r.1 ≡ 1)
    × (at_is_norm r.0 r.1 ≡ 1)
    × (r.0.pages ≡ update m.pages r.1 (record (m.pages r.1) { allocated = 1 }))

hand_out_none : (m : Memory) → hand_out m m.nps ≡ (record m { last = userlo }, 0)
unfolding hand_out
hand_out_none m = ground arith

hand_out_page :
    (m : Memory)
    → (p : ℕ) → p ≢ m.nps
    → hand_out m p ≡ (record (at_set_allocated m p 1) { last = p }, p)
unfolding hand_out
hand_out_page m p d = ground arith

none_free :
    (m : Memory) → ((p : ℕ) → userlo ≤ p → p < userhi → is_free m p ≡ false) → free_pages m ≡ 0
none_free m h = count-eq-zero userhi (free_user_page m) (λ p l. go p l)
  where
    go : (p : ℕ) → p < userhi → free_user_page m p ≡ false
    go p l = elim (dec_lt p userlo) [
      | yes k ↦ ground arith
      | no n ↦ rw (h p (omega arith) l) (ground arith)
    ]

granted :
    (m : Memory)
    → (p : ℕ) → userlo ≤ p
    → p < userhi
    → is_free m p ≡ true
    → Granted m (record (at_set_allocated m p 1) { last = p }, p)
granted m p l h t = (l, h, t, ground arith, ground arith, refl)

-- With the hint in the users' range and no free page at the index that stands for none, `palloc`
-- gives a free page of the range, allocated and with no other page changed, or gives 0 and leaves the
-- table as it was, and then no page of the range is free; and the hint stays in the range.
pub palloc_lem :
    (m : Memory)
    → HintInRange m
    → is_free m m.nps ≡ false
    → (Exhausted m (palloc m) ⊎ Granted m (palloc m)) × HintInRange (palloc m).0
unfolding palloc
palloc_lem m h out = elim (scan_lem userlo userhi m out h.0 h.1) [
  | inl (e, none) ↦
      rw (e, hand_out_none m) (inl (refl, none_free m none, refl), (omega arith, omega arith))
  | inr (d, l, u, t) ↦
      rw (hand_out_page m (scan userlo userhi m (rounds userlo userhi) m.last true m.nps) d) (
        inr (granted m (scan userlo userhi m (rounds userlo userhi) m.last true m.nps) l u t),
        (l, u),
      )
]
