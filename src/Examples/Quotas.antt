-- ===== src/Examples/Quotas.antt =====
-- A machine with two pages for the users, from boot: the root process allocates, frees and spawns.
use advance_synchronization.Base.{
  ℕ, ◌+◌, ◌<◌, ◌≤◌, ◌≡◌, ◌≢◌, ◌⊎◌, refl, arith, true, false, sum-zero,
}
use advance_synchronization.WaitQueue.{num_ids}
use advance_synchronization.Pages.{Memory, is_free, userlo}
use advance_synchronization.Pages.Allocator.{HintInRange, Granted, free_pages}
use advance_synchronization.Pages.Boot.{MemoryMap, page_count, highest_from, pmem_init}
use advance_synchronization.Containers.{Container, container_init, container_alloc}
use advance_synchronization.Containers.Tree.{IsTree}
use advance_synchronization.Containers.Quota.{IsWithin, available, left, alloc-IsWithin}
use advance_synchronization.Containers.Boot.{boot_lem}

-- One usable range, of two pages from VM_USERLO on.
abbrev two_pages : MemoryMap
two_pages = record { size = 1; start = λ e. 0x4000_0000; length = λ e. 0x2000; usable = λ e. true }

abbrev cleared : Memory
cleared = record { nps = 0; pages = λ i. record { perm = 0; allocated = 0 }; last = userlo }

abbrev unused : ℕ → Container
unused i = record { quota = 0; usage = 0; parent = 0; nchildren = 0; used = 0 }

size_lem : page_count two_pages ≡ 262146
unfolding page_count highest_from
size_lem = refl

abbrev machine : Memory
machine = pmem_init two_pages cleared

abbrev booted : ℕ → Container
booted = container_init machine unused

at_boot :
    IsTree booted
    × IsWithin booted
    × (available booted ≡ free_pages machine)
    × HintInRange machine
    × (is_free machine machine.nps ≡ false)
at_boot = boot_lem two_pages cleared (λ p l. refl) unused (λ i. refl) (omega arith, omega arith)

root_used : (booted 0).used ≢ 0
unfolding container_init
root_used e = omega arith

root_childless : (booted 0).nchildren < 3
unfolding container_init
root_childless = omega arith

alloc-IsWithin_example :
    let (c', m', page) = container_alloc booted machine 0 in
    IsWithin c'
    × HintInRange m'
    × (available c' ≤ free_pages m')
    × ((((booted 0).usage < (booted 0).quota)
          × Granted machine (m', page)
          × ((c' 0).usage ≡ (booted 0).usage + 1))
        ⊎ (((booted 0).usage ≡ (booted 0).quota) × (page ≡ 0) × (m' ≡ machine) × (c' ≡ booted)))
alloc-IsWithin_example =
    alloc-IsWithin 0 (omega arith) root_used (at_boot.1) machine (at_boot.3) (at_boot.4)
      (omega (arith, at_boot))

-- The root process has one page, of its quota of one; no page is free.
abbrev one_taken : Memory
one_taken = record { nps = 262146; pages = λ i. record { perm = 2; allocated = 1 }; last = userlo }

abbrev charged : ℕ → Container
charged i = record { quota = 1; usage = 1; parent = 0; nchildren = 0; used = 1 }

charged-IsWithin : IsWithin charged
charged-IsWithin = record { bounded = λ i. omega arith; positive = λ i. omega arith }

none_left : available charged ≤ free_pages one_taken
none_left = let none = sum-zero num_ids (left charged) (λ j l. refl) in omega (arith, none)
