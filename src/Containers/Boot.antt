-- ===== src/Containers/Boot.antt =====
-- The state after boot: the root container has every free page as its quota.
use advance_synchronization.Base.{
  ℕ, zero, suc, ◌+◌, ◌-◌, ◌^◌, ◌<◌, ◌≤◌, ◌≡◌, sym, ap, ◌∙◌, arith, uint32, true, false, inl, inr,
  Bool-cases, bit, count, count-extend, count-first, count-congr, count-le, sum-change, sum-zero,
}
use native.Mathlib.Decide.{dec_lt}
use advance_synchronization.WaitQueue.{num_ids}
use advance_synchronization.Pages.{Memory, is_free, userhi}
use advance_synchronization.Pages.Allocator.{HintInRange, free_pages, free_user_page}
use advance_synchronization.Pages.Boot.{MemoryMap, highest_from, page_count, pmem_init}
use advance_synchronization.Pages.Table.{pmem_init-rest, pmem_init_sound}
use advance_synchronization.Containers.{Container, quota_from, container_init}
use advance_synchronization.Containers.Tree.{IsTree}
use advance_synchronization.Containers.Quota.{IsWithin, left, available}

quota_from_lem :
    (n idx : ℕ) (m : Memory) (total : ℕ)
    → total + n < 2 ^ 32
    → quota_from n idx m total ≡ total + count n (λ j. is_free m (idx + j))
unfolding quota_from
quota_from_lem zero idx m total h = omega (arith, count-le 0 (λ j. is_free m (idx + j)))
quota_from_lem (suc n) idx m total h =
    let shift =
      count-congr n (λ j. is_free m (idx + 1 + j)) (λ j. is_free m (idx + suc j))
        (λ j l. ap (is_free m) (omega arith)) in
    let here : is_free m (idx + 0) ≡ is_free m idx = ap (is_free m) (omega arith) in
    let split = rw here at (count-first n (λ j. is_free m (idx + j))) in
    elim (Bool-cases (is_free m idx)) [
      | inl y ↦
          let word : uint32 (total + 1) ≡ total + 1 = omega arith in
          rw (y, word)
            (omega (
              arith,
              quota_from_lem n (idx + 1) m (total + 1) (omega arith),
              shift,
              split,
              ap bit y,
            ))
      | inr z ↦
          rw z (
            omega (arith, quota_from_lem n (idx + 1) m total (omega arith), shift, split, ap bit z))
    ]

highest_from-lt :
    (n e : ℕ) (map : MemoryMap) (top : ℕ) → top < 2 ^ 32 → highest_from n e map top < 2 ^ 32
unfolding highest_from
highest_from-lt zero e map top h = h
highest_from-lt (suc n) e map top h = highest_from-lt n (e + 1) map _ (ground arith)

page_count-le : (map : MemoryMap) → page_count map ≤ 2 ^ 20
unfolding page_count
page_count-le map = omega (arith, highest_from-lt map.size 0 map 0 (omega arith))

-- The root's quota is the number of the users' pages that are free.
module _ (map : MemoryMap) (m : Memory)
    (clear : (p : ℕ) → page_count map ≤ p → is_free m p ≡ false) where
  abbrev booted : Memory
  booted = pmem_init map m

  beyond : (p : ℕ) → booted.nps ≤ p → is_free booted p ≡ false
  beyond p l =
      let (kept, size, hint) = pmem_init-rest map m in
      kept p (omega (arith, size)) ∙ clear p (omega (arith, size))

  users_only : (p : ℕ) → is_free booted p ≡ free_user_page booted p
  users_only p = elim (Bool-cases (is_free booted p)) [
    | inr z ↦ rw z (ground arith)
    | inl y ↦ elim (dec_lt p booted.nps) [
      | no n ↦ absurd (apart (sym y ∙ beyond p (omega arith)))
      | yes l ↦
          let (kept, size, hint) = pmem_init-rest map m in
          let (lo, hi, u) = pmem_init_sound map m p (omega (arith, size)) y in rw y (ground arith)
    ]
  ]
    where
      apart : true ≡ false → ⊥
      apart e = cc

  above_users : (p : ℕ) → userhi ≤ p → is_free booted p ≡ false
  above_users p h = elim (Bool-cases (is_free booted p)) [
    | inr z ↦ z
    | inl y ↦ elim (dec_lt p booted.nps) [
      | no n ↦ beyond p (omega arith)
      | yes l ↦
          let (kept, size, hint) = pmem_init-rest map m in
          let (lo, hi, u) = pmem_init_sound map m p (omega (arith, size)) y in absurd (omega arith)
    ]
  ]

  pages_counted : count (suc (booted.nps - 1)) (is_free booted) ≡ free_pages booted
  pages_counted =
      let bound = suc (booted.nps - 1) + userhi in
      sym (
        count-extend (suc (booted.nps - 1)) bound (is_free booted) (omega arith)
          (λ p l. beyond p (omega arith)))
      ∙ count-extend userhi bound (is_free booted) (omega arith) above_users
      ∙ count-congr userhi (is_free booted) (free_user_page booted) (λ p l. users_only p)

  root_quota : quota_from (booted.nps - 1) 1 booted 0 ≡ free_pages booted
  root_quota =
      let (kept, size, hint) = pmem_init-rest map m in
      let loop =
        quota_from_lem (booted.nps - 1) 1 booted 0 (omega (arith, size, page_count-le map)) in
      let shift =
        count-congr (booted.nps - 1) (λ j. is_free booted (1 + j)) (λ j. is_free booted (suc j))
          (λ j l. ap (is_free booted) (omega arith)) in
      let kernel : is_free booted 0 ≡ false = users_only 0 ∙ ground arith in
      omega (
        arith,
        loop,
        shift,
        count-first (booted.nps - 1) (is_free booted),
        pages_counted,
        ap bit kernel,
      )

  free_pages-small : free_pages booted ≤ 2 ^ 20
  free_pages-small =
      let (kept, size, hint) = pmem_init-rest map m in
      omega (arith, count-le userhi (free_user_page booted))

  root_left :
      (c : ℕ → Container)
      → ((i : ℕ) → c i ≡ record { quota = 0; usage = 0; parent = 0; nchildren = 0; used = 0 })
      → available (container_init booted c) ≡ free_pages booted
  unfolding container_init
  root_left c unused =
      let before = sum-zero num_ids (left c) (λ j l. ground (arith, unused j)) in
      let change =
        sum-change num_ids (left c) (left (container_init booted c)) 0 (omega arith)
          (λ j d. ground arith) in
      let root : left (container_init booted c) 0 ≡ free_pages booted = omega (arith, root_quota) in
      let none : left c 0 ≡ 0 = ground (arith, unused 0) in
      omega (arith, before, change, root, none)

  -- When no container is in use and the table has no free page beyond the machine's, after boot the
  -- containers form a tree and are within their quotas, and what they have left is the number of free
  -- pages; the hint of the allocator and the index that stands for no page are as `palloc` needs them.
  pub boot_lem :
      (c : ℕ → Container)
      → ((i : ℕ) → c i ≡ record { quota = 0; usage = 0; parent = 0; nchildren = 0; used = 0 })
      → HintInRange m
      → IsTree (container_init booted c)
        × IsWithin (container_init booted c)
        × (available (container_init booted c) ≡ free_pages booted)
        × HintInRange booted
        × (is_free booted booted.nps ≡ false)
  unfolding container_init
  boot_lem c unused hint_ok =
      let (kept, size, hint) = pmem_init-rest map m in
      (
        record {
          child = λ i h z. absurd (h (ground (arith, unused i)));
          few = λ i. ground (arith, unused i);
          small = λ i h. ground (arith, unused i);
          flags = λ i h. ground (arith, unused i);
        },
        record {
          bounded = λ i. ground (arith, unused i);
          positive = λ i. ground (arith, unused i, root_quota, free_pages-small);
        },
        root_left c unused,
        (omega (arith, hint), omega (arith, hint)),
        beyond booted.nps (omega arith),
      )
