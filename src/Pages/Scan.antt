-- ===== src/Pages/Scan.antt =====
-- The loop of `palloc` ends in the rounds that it is given, finds a free page of the users' range if
-- there is one, and otherwise has looked at every page of the range.
use advance_synchronization.Base.{
  ℕ, zero, suc, ◌+◌, ◌-◌, ◌<◌, ◌≤◌, ◌≡◌, ◌≢◌, refl, sym, ap, ◌∙◌, arith, if◌then◌else◌, true, false,
  ◌⊎◌, inl, inr, Bool-cases,
}
use native.Mathlib.Decide.{ℕ_discrete, dec_lt}
use advance_synchronization.Pages.{Memory, is_free, next_page, scan, rounds}

distinct : ¬ (true ≡ false)
distinct e = cc

module _ (lo hi : ℕ) (m : Memory) where
  -- The result of the loop: a free page of the range, or `nps` when the range has none.
  abbrev pub Scanned : ℕ → Type 0
  Scanned r =
      ((r ≡ m.nps) × ((p : ℕ) → lo ≤ p → p < hi → is_free m p ≡ false))
      ⊎ ((r ≢ m.nps) × (lo ≤ r) × (r < hi) × (is_free m r ≡ true))

  module _ (out : is_free m m.nps ≡ false) (below : lo ≤ m.last) (above : m.last < hi) where
    -- Once a page is found the loop ends.
    scan_found : (n i r : ℕ) → r ≢ m.nps → scan lo hi m n i false r ≡ r
    unfolding scan
    scan_found zero i r h = refl
    scan_found (suc n) i r h = ground arith

    scan_step :
        (n i : ℕ)
        → i ≢ m.last
        → scan lo hi m (suc n) i false m.nps
          ≡ (if is_free m i then i else scan lo hi m n (next_page lo hi i) false m.nps)
    unfolding scan
    scan_step n i d = ground (arith, scan_found n (next_page lo hi i) i)

    scan_stop : (n : ℕ) → scan lo hi m (suc n) m.last false m.nps ≡ m.nps
    unfolding scan
    scan_stop n = ground arith

    free-≢ : (i : ℕ) → is_free m i ≡ true → i ≢ m.nps
    free-≢ i t e = distinct (sym t ∙ ap (is_free m) e ∙ out)

    extended :
        (i : ℕ)
        → {l : ℕ} → ((p : ℕ) → l ≤ p → p < i → is_free m p ≡ false)
        → is_free m i ≡ false
        → (p : ℕ) → l ≤ p
        → p < i + 1
        → is_free m p ≡ false
    extended i b t p u w = elim (ℕ_discrete p i) [ yes e ↦ rw e t | no d ↦ b p u (omega arith) ]

    next_page_below : (i : ℕ) → i + 1 < hi → next_page lo hi i ≡ i + 1
    next_page_below i h = ground arith

    -- Round the end: from `i` up to where the loop began.
    scan_second :
        (n i : ℕ)
        → lo ≤ i
        → i ≤ m.last
        → m.last - i < n
        → ((p : ℕ) → m.last ≤ p → p < hi → is_free m p ≡ false)
        → ((p : ℕ) → lo ≤ p → p < i → is_free m p ≡ false)
        → Scanned (scan lo hi m n i false m.nps)
    scan_second zero i l k f a b = absurd (omega arith)
    scan_second (suc n) i l k f a b = elim (ℕ_discrete i m.last) [
      | yes e ↦
          rw (e, scan_stop n)
            (inl (
              refl,
              λ p u w. elim (dec_lt p m.last) [
                | yes h ↦ b p u (omega arith)
                | no h ↦ a p (omega arith) w
              ],
            ))
      | no d ↦ rw (scan_step n i d) (elim (Bool-cases (is_free m i)) [
        | inl t ↦ rw t (inr (free-≢ i t, l, omega arith, t))
        | inr t ↦
            rw (t, next_page_below i (omega arith))
              (scan_second n (i + 1) (omega arith) (omega arith) (omega arith) a (extended i b t))
      ])
    ]

    next_page_end : (i : ℕ) → hi ≤ i + 1 → next_page lo hi i ≡ lo
    next_page_end i h = ground arith

    next_page_start : lo ≤ next_page lo hi m.last
    next_page_start = ground arith

    -- From above where the loop began: up to the end of the range, and round it.
    scan_above :
        (n i : ℕ)
        → m.last < i
        → i < hi
        → (hi - i) + (m.last - lo) < n
        → ((p : ℕ) → m.last ≤ p → p < i → is_free m p ≡ false)
        → Scanned (scan lo hi m n i false m.nps)
    scan_above zero i l k f a = absurd (omega arith)
    scan_above (suc n) i l k f a =
        rw (scan_step n i (λ e. absurd (omega arith))) (elim (Bool-cases (is_free m i)) [
          | inl t ↦ rw t (inr (free-≢ i t, omega arith, k, t))
          | inr t ↦ elim (dec_lt (i + 1) hi) [
            | yes h ↦
                rw (t, next_page_below i h)
                  (scan_above n (i + 1) (omega arith) h (omega arith) (extended i a t))
            | no h ↦
                rw (t, next_page_end i (omega arith))
                  (scan_second n lo (omega arith) below (omega arith)
                    (λ p u w. extended i a t p u (omega arith)) (λ p u w. absurd (omega arith)))
          ]
        ])

    scan_start :
        (n : ℕ)
        → scan lo hi m (suc n) m.last true m.nps ≡ (
            if is_free m m.last
            then m.last
            else scan lo hi m n (next_page lo hi m.last) false m.nps)
    unfolding scan
    scan_start n = ground (arith, scan_found n (next_page lo hi m.last) m.last)

    scan_all : Scanned (scan lo hi m (suc (hi - lo)) m.last true m.nps)
    scan_all = elim (Bool-cases (is_free m m.last)) [
      | inl t ↦ rw (scan_start (hi - lo), t) (inr (free-≢ m.last t, below, above, t))
      | inr t ↦ elim (dec_lt (m.last + 1) hi) [
        | yes h ↦
            rw (scan_start (hi - lo), t, next_page_below m.last h)
              (scan_above (hi - lo) (m.last + 1) (omega arith) h (omega arith)
                (extended m.last (λ p u w. absurd (omega arith)) t))
        | no h ↦
            rw (scan_start (hi - lo), t, next_page_end m.last (omega arith))
              (scan_second (hi - lo) lo (omega arith) below (omega arith)
                (λ p u w.
                  extended m.last {l = m.last} (λ q v x. absurd (omega arith)) t p u (omega arith))
                (λ p u w. absurd (omega arith)))
      ]
    ]

    pub scan_lem : Scanned (scan lo hi m (rounds lo hi) m.last true m.nps)
    scan_lem = scan_all
