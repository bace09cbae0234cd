-- ===== src/Containers/Quota.antt =====
-- The quotas that the containers have left are backed by free pages: so an allocation within the quota
-- finds a page.
use advance_synchronization.Base.{
  ℕ, ◌+◌, ◌-◌, ◌^◌, ◌<◌, ◌≤◌, ◌≡◌, ◌≢◌, refl, arith, ◌==◌, ltb, uint32, if◌then◌else◌, true, false,
  not, update, ◌⊎◌, inl, inr, ne→==, count-change, sum, sum-change, sum-le,
}
use native.Mathlib.Decide.{ℕ_discrete, dec_lt}
use advance_synchronization.WaitQueue.{num_ids}
use advance_synchronization.Pages.{
  Memory, is_free, palloc, pfree, userlo, userhi, at_is_allocated, at_is_norm,
}
use advance_synchronization.Pages.Allocator.{
  HintInRange, Exhausted, Granted, free_pages, free_user_page, palloc_lem,
}
use advance_synchronization.Containers.{Container, int_leb, container_alloc, container_free}

-- The pages that a container may still ask for.
abbrev pub left : (ℕ → Container) → ℕ → ℕ
left c i = if (c i).used == 0 then 0 else (c i).quota - (c i).usage

abbrev pub available : (ℕ → Container) → ℕ
available c = sum num_ids (left c)

pub record IsWithin (c : ℕ → Container) : Type 0 where
  pub bounded : (i : ℕ) → (c i).usage ≤ (c i).quota
  pub positive : (i : ℕ) → (c i).quota + 1 < 2 ^ 31

-- A container of which only the usage changes.
abbrev used_up : (ℕ → Container) → ℕ → ℕ → ℕ → Container
used_up c id u = update c id (record (c id) { usage = u })

available-used_up :
    (c : ℕ → Container) (id u : ℕ)
    → id < num_ids
    → (c id).used ≢ 0
    → available (used_up c id u) + ((c id).quota - (c id).usage) ≡ available c + ((c id).quota - u)
available-used_up c id u l used =
    ground (arith, sum-change num_ids (left c) (left (used_up c id u)) id l (λ j d. ground arith))

-- The page that `palloc` gives is one free page less.
free_pages-Granted : (m : Memory) (r : Memory × ℕ) → Granted m r → free_pages r.0 + 1 ≡ free_pages m
free_pages-Granted m r (lo, hi, was_free, taken, norm, others) =
    let change =
      count-change userhi (free_user_page m) (free_user_page r.0) r.1 hi
        (λ j d. rw others (ground arith)) in
    let was : free_user_page m r.1 ≡ true = rw was_free (ground arith) in
    let now : free_user_page r.0 r.1 ≡ false = rw taken (ground arith) in
    let step = rw (was, now) at change in omega (arith, step)

-- Where a user's page is free, `palloc` does not come back empty.
not-Exhausted : (m : Memory) (r : Memory × ℕ) → 0 < free_pages m → Exhausted m r → ⊥
not-Exhausted m r h (zero_page, none, same) = omega arith

module _ {c : ℕ → Container} (id : ℕ) (l : id < num_ids) (used : (c id).used ≢ 0)
    (w : IsWithin c) where
  within_test : int_leb (uint32 ((c id).usage + 1)) (c id).quota ≡ ltb (c id).usage (c id).quota
  within_test = ground (arith, w.bounded id, w.positive id)

  alloc_within :
      (m : Memory)
      → (c id).usage < (c id).quota
      → container_alloc c m id ≡ (used_up c id ((c id).usage + 1), (palloc m).0, (palloc m).1)
  unfolding container_alloc
  alloc_within m h =
      let word : uint32 ((c id).usage + 1) ≡ (c id).usage + 1 = omega (arith, w.positive id) in
      rw (within_test, word) (ground arith)

  alloc_full : (m : Memory) → (c id).usage ≡ (c id).quota → container_alloc c m id ≡ (c, m, 0)
  unfolding container_alloc
  alloc_full m h = rw within_test (ground arith)

  used_up-IsWithin : (u : ℕ) → u ≤ (c id).quota → IsWithin (used_up c id u)
  used_up-IsWithin u h = record {
    bounded = λ i. ground (arith, w.bounded i);
    positive = λ i. ground (arith, w.positive i);
  }

  left-le : (c id).quota - (c id).usage ≤ available c
  left-le = ground (arith, sum-le num_ids (left c) id l)

  -- As long as what the containers have left is backed by free pages, `container_alloc` gives a process
  -- below its quota a page that was free, and one at its quota none, without a change; and what the
  -- containers have left stays backed.
  pub alloc-IsWithin :
      (m : Memory)
      → HintInRange m
      → is_free m m.nps ≡ false
      → available c ≤ free_pages m
      → let (c', m', page) = container_alloc c m id in
        IsWithin c'
        × HintInRange m'
        × (available c' ≤ free_pages m')
        × ((((c id).usage < (c id).quota)
              × Granted m (m', page)
              × ((c' id).usage ≡ (c id).usage + 1))
            ⊎ (((c id).usage ≡ (c id).quota) × (page ≡ 0) × (m' ≡ m) × (c' ≡ c)))
  alloc-IsWithin m hint out backed = elim (dec_lt (c id).usage (c id).quota) [
    | no n ↦
        let full : (c id).usage ≡ (c id).quota = omega (arith, w.bounded id) in
        rw (alloc_full m full) (w, hint, backed, inr (full, refl, refl, refl))
    | yes h ↦
        let (result, hint') = palloc_lem m hint out in
        rw (alloc_within m h) (elim result [
          | inl none ↦ absurd (not-Exhausted m (palloc m) (omega (arith, left-le)) none)
          | inr some_page ↦ (
            used_up-IsWithin ((c id).usage + 1) (omega arith),
            hint',
            omega (
              arith,
              available-used_up c id ((c id).usage + 1) l used,
              free_pages-Granted m (palloc m) some_page,
            ),
            inl (h, some_page, ground arith),
          )
        ])
  ]

-- The page that `pfree` takes back is one free page more.
free_pages-pfree :
    (m : Memory) (p : ℕ)
    → userlo ≤ p
    → p < userhi
    → at_is_norm m p ≡ 1
    → at_is_allocated m p ≢ 0
    → free_pages (pfree m p) ≡ free_pages m + 1
unfolding pfree
free_pages-pfree m p lo hi norm busy =
    let change =
      count-change userhi (free_user_page m) (free_user_page (pfree m p)) p hi
        (λ j d. ground arith) in
    let was : free_user_page m p ≡ false = ground arith in
    let now : free_user_page (pfree m p) p ≡ true = ground arith in
    let step = rw (was, now) at change in omega (arith, step)

module _ {c : ℕ → Container} (id : ℕ) (l : id < num_ids) (used : (c id).used ≢ 0)
    (w : IsWithin c) where
  uncharged : ℕ → Container
  uncharged = if not (int_leb (c id).usage 0) then used_up c id ((c id).usage - 1) else c

  uncharged_lem : IsWithin uncharged × (available uncharged ≤ available c + 1)
  unfolding uncharged
  uncharged_lem = elim (ℕ_discrete (c id).usage 0) [
    | yes e ↦ let test : int_leb (c id).usage 0 ≡ true = ground arith in rw test (w, omega arith)
    | no d ↦
        let test : int_leb (c id).usage 0 ≡ false = ground (arith, w.bounded id, w.positive id) in
        rw test (
          used_up-IsWithin id l used w ((c id).usage - 1) (omega (arith, w.bounded id)),
          omega (arith, available-used_up c id ((c id).usage - 1) l used, w.bounded id),
        )
  ]

  free_idle :
      (m : Memory) (page : ℕ) → at_is_allocated m page ≡ 0 → container_free c m id page ≡ (c, m)
  unfolding container_free
  free_idle m page e = rw e refl

  free_busy :
      (m : Memory) (page : ℕ)
      → at_is_allocated m page ≢ 0
      → container_free c m id page ≡ (uncharged, pfree m page)
  unfolding container_free uncharged
  free_busy m page d = rw (ne→== (at_is_allocated m page) 0 d) refl

  pfree_free : (m : Memory) (page : ℕ) → at_is_norm m page ≡ 1 → is_free (pfree m page) page ≡ true
  unfolding pfree
  pfree_free m page norm = ground arith

  -- `container_free` of a user's page keeps what the containers have left backed by free pages, and the
  -- page is free afterwards.
  pub free-IsWithin :
      (m : Memory) (page : ℕ)
      → userlo ≤ page
      → page < userhi
      → at_is_norm m page ≡ 1
      → available c ≤ free_pages m
      → let (c', m') = container_free c m id page in
        IsWithin c' × (available c' ≤ free_pages m') × (is_free m' page ≡ true)
  free-IsWithin m page lo hi norm backed = elim (ℕ_discrete (at_is_allocated m page) 0) [
    | yes e ↦ rw (free_idle m page e) (w, backed, rw (norm, e) refl)
    | no d ↦ rw (free_busy m page d) (
      uncharged_lem.0,
      omega (arith, uncharged_lem.1, free_pages-pfree m page lo hi norm d),
      pfree_free m page norm,
    )
  ]
