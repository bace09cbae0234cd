-- ===== src/Pages/Table.antt =====
-- What `pmem_init` makes of the memory map, page by page.
use advance_synchronization.Base.{
  ℕ, zero, suc, ◌+◌, ◌<◌, ◌≤◌, ◌≡◌, refl, sym, ◌∙◌, arith, ltb, leb, Bool, true, false, ◌&&◌, ◌⊎◌,
  inl, inr, Bool-cases,
}
use native.Mathlib.Decide.{ℕ_discrete}
use advance_synchronization.Pages.{Memory, userlo, userhi, is_free}
use advance_synchronization.Pages.Boot.{
  MemoryMap, contains, usable_from, init_page, init_from, page_count, pmem_init,
}

-- The first range that contains the whole page is usable.
pub record IsUsable (map : MemoryMap) (page : ℕ) (e : ℕ) : Type 0 where
  pub below : e < map.size
  pub inside : contains map e page ≡ true
  pub is_usable : map.usable e ≡ true
  pub none_before : (d : ℕ) → d < e → contains map d page ≡ false

usable_from-flag :
    (n e : ℕ) (map : MemoryMap) (page : ℕ) (isnorm : Bool)
    → usable_from n e map page true isnorm ≡ isnorm
unfolding usable_from
usable_from-flag zero e map page isnorm = refl
usable_from-flag (suc n) e map page isnorm = refl

usable_from-found :
    (n e : ℕ) (map : MemoryMap) (page : ℕ) (isnorm : Bool)
    → e + n ≡ map.size
    → ((d : ℕ) → d < e → contains map d page ≡ false)
    → usable_from n e map page false isnorm ≡ true
    → (d : ℕ) × IsUsable map page d
unfolding usable_from
usable_from-found zero e map page isnorm s h u = absurd (cc)
usable_from-found (suc n) e map page isnorm s h u = elim (Bool-cases (contains map e page)) [
  | inl y ↦
      let found : map.usable e ≡ true =
        sym (usable_from-flag n (e + 1) map page (map.usable e)) ∙ (rw y at u) in
      (e, record { below = omega arith; inside = y; is_usable = found; none_before = h })
  | inr m ↦
      usable_from-found n (e + 1) map page (map.usable e) (omega arith)
        (λ d l. elim (ℕ_discrete d e) [ yes k ↦ rw k m | no k ↦ h d (omega arith) ]) (rw m at u)
]

usable_from-first :
    (n e : ℕ) (map : MemoryMap) (page : ℕ) (isnorm : Bool) (d : ℕ)
    → e + n ≡ map.size
    → e ≤ d
    → IsUsable map page d
    → usable_from n e map page false isnorm ≡ true
unfolding usable_from
usable_from-first zero e map page isnorm d s l u = absurd (omega (arith, u.below))
usable_from-first (suc n) e map page isnorm d s l u = elim (ℕ_discrete d e) [
  | yes k ↦
      let here : contains map e page ≡ true = rw k at u.inside in
      let good : map.usable e ≡ true = rw k at u.is_usable in
      rw here (usable_from-flag n (e + 1) map page (map.usable e) ∙ good)
  | no k ↦
      rw (u.none_before e (omega arith))
        (usable_from-first n (e + 1) map page (map.usable e) d (omega arith) (omega arith) u)
]

init_from-other :
    (n page : ℕ) (map : MemoryMap) (m : Memory) (p : ℕ)
    → (p < page) ⊎ (page + n ≤ p)
    → (init_from n page map m).pages p ≡ m.pages p
unfolding init_from
init_from-other zero page map m p h = refl
init_from-other (suc n) page map m p h =
    init_from-other n (page + 1) map (init_page map m page) p (ground arith) ∙ ground arith

init_from-page :
    (n page : ℕ) (map : MemoryMap) (m : Memory) (p : ℕ)
    → page ≤ p
    → p < page + n
    → (init_from n page map m).pages p ≡ (init_page map m p).pages p
unfolding init_from
init_from-page zero page map m p l h = absurd (omega arith)
init_from-page (suc n) page map m p l h = elim (ℕ_discrete p page) [
  | yes e ↦ rw e (init_from-other n (page + 1) map (init_page map m page) page (inl (omega arith)))
  | no d ↦
      init_from-page n (page + 1) map (init_page map m page) p (omega arith) (omega arith)
      ∙ ground arith
]

init_from-rest :
    (n page : ℕ) (map : MemoryMap) (m : Memory)
    → ((init_from n page map m).nps ≡ m.nps) × ((init_from n page map m).last ≡ m.last)
unfolding init_from
init_from-rest zero page map m = (refl, refl)
init_from-rest (suc n) page map m =
    let (a, b) = init_from-rest n (page + 1) map (init_page map m page) in
    (a ∙ ground arith, b ∙ ground arith)

abbrev pub is_users : ℕ → Bool
is_users p = leb userlo p && ltb p userhi

module _ (map : MemoryMap) (m : Memory) where
  free_after :
      (p : ℕ)
      → p < page_count map
      → is_free (pmem_init map m) p ≡ (is_users p && usable_from map.size 0 map p false false)
  unfolding pmem_init
  free_after p l =
      rw
        (init_from-page (page_count map) 0 map (record m { nps = page_count map }) p (omega arith)
          (omega arith))
        (ground arith)

  kept_above : (p : ℕ) → page_count map ≤ p → is_free (pmem_init map m) p ≡ is_free m p
  unfolding pmem_init
  kept_above p l =
      rw
        (init_from-other (page_count map) 0 map (record m { nps = page_count map }) p
          (inr (omega arith)))
        refl

  init_nps : (pmem_init map m).nps ≡ page_count map
  unfolding pmem_init
  init_nps = (init_from-rest (page_count map) 0 map (record m { nps = page_count map })).0

  init_last : (pmem_init map m).last ≡ m.last
  unfolding pmem_init
  init_last = (init_from-rest (page_count map) 0 map (record m { nps = page_count map })).1

  -- What `pmem_init` leaves alone.
  pub pmem_init-rest :
      ((p : ℕ) → page_count map ≤ p → is_free (pmem_init map m) p ≡ is_free m p)
      × ((pmem_init map m).nps ≡ page_count map)
      × ((pmem_init map m).last ≡ m.last)
  pmem_init-rest = (kept_above, init_nps, init_last)

  pub pmem_init_sound :
      (p : ℕ)
      → p < page_count map
      → is_free (pmem_init map m) p ≡ true
      → (userlo ≤ p) × (p < userhi) × ((d : ℕ) × IsUsable map p d)
  pmem_init_sound p l e =
      let both = sym (free_after p l) ∙ e in
      (
        ground arith,
        ground arith,
        usable_from-found map.size 0 map p false (omega arith) (λ d k. absurd (omega arith))
            (ground arith),
      )

  -- After `pmem_init` a page of the machine is free if it is in the users' range and the first range of
  -- the memory map that contains the whole page is usable.
  pub pmem_init_complete :
      (p d : ℕ)
      → p < page_count map
      → userlo ≤ p
      → p < userhi
      → IsUsable map p d
      → is_free (pmem_init map m) p ≡ true
  pmem_init_complete p d l lo hi u =
      free_after p l
      ∙ rw (usable_from-first map.size 0 map p false d (omega arith) (omega arith) u) (ground arith)
