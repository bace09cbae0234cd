-- ===== src/Pages/Boot.antt =====
-- `pmem_init` of mcertikos/kern/pmm/MATInit/MATInit.c: the allocation table from the memory map that the
-- boot loader left.
use advance_synchronization.Base.{
  ℕ, zero, suc, ◌+◌, ◌-◌, ◌*◌, ◌/◌, ◌%◌, ltb, leb, if◌then◌else◌, Bool, false, not, ◌&&◌, ◌||◌,
  uint32,
}
use advance_synchronization.Pages.{Memory, userlo, userhi, at_set_perm}

-- `get_size`, `get_mms`, `get_mml` and `is_usable`: the ranges of the map of mcertikos/kern/dev/mboot.c.
pub record MemoryMap : Type 0 where
  pub size : ℕ
  pub start : ℕ → ℕ
  pub length : ℕ → ℕ
  pub usable : ℕ → Bool

abbrev pub pagesize : ℕ
pagesize = 4096

-- The first loop of `pmem_init` from range `e` on, with `n` rounds left.
unfoldable pub highest_from : ℕ → ℕ → MemoryMap → ℕ → ℕ
highest_from zero e map top = top
highest_from (suc n) e map top =
    let cur = uint32 (map.start e + map.length e) in
    highest_from n (e + 1) map (if ltb top cur then cur else top)

-- ROUNDDOWN of kern/lib/types.h.
abbrev pub rounddown : ℕ → ℕ → ℕ
rounddown a n = a - a % n

unfoldable pub page_count : MemoryMap → ℕ
page_count map = rounddown (highest_from map.size 0 map 0) pagesize / pagesize

-- The whole page is in the range.
abbrev pub contains : MemoryMap → ℕ → ℕ → Bool
contains map e page =
    leb (map.start e) (uint32 (page * pagesize))
    && leb (uint32 ((page + 1) * pagesize)) (uint32 (map.start e + map.length e))

-- `flag && isnorm` after the inner loop from range `e` on, with `n` ranges left.
unfoldable pub usable_from : ℕ → ℕ → MemoryMap → ℕ → Bool → Bool → Bool
usable_from zero e map page flag isnorm = flag && isnorm
usable_from (suc n) e map page flag isnorm =
    let rest = usable_from n (e + 1) map page (contains map e page) (map.usable e) in
    if not flag then rest else flag && isnorm

abbrev pub init_page : MemoryMap → Memory → ℕ → Memory
init_page map m page =
    if ltb page userlo || leb userhi page
    then at_set_perm m page 1
    else if usable_from map.size 0 map page false false
    then at_set_perm m page 2
    else at_set_perm m page 0

-- The last loop of `pmem_init` from `page` on, with `n` rounds left.
unfoldable pub init_from : ℕ → ℕ → MemoryMap → Memory → Memory
init_from zero page map m = m
init_from (suc n) page map m = init_from n (page + 1) map (init_page map m page)

unfoldable pub pmem_init : MemoryMap → Memory → Memory
pmem_init map m = init_from (page_count map) 0 map (record m { nps = page_count map })
