-- ===== src/Paging/Tables.antt =====
-- Page tables that are allocated on demand, from the quota of the process: mcertikos/kern/vmm/MPTComm,
-- MPTKern and MPTNew.
use advance_synchronization.Base.{ℕ, zero, suc, ◌+◌, ◌/◌, ◌^◌, ◌==◌, if◌then◌else◌, not}
use advance_synchronization.Pages.{Memory}
use advance_synchronization.Containers.{Container, container_alloc, container_free, container_split}
use advance_synchronization.Paging.{
  Paging, get_pdir_entry_by_va, set_pdir_entry_by_va, rmv_ptbl_entry, rmv_pdir_entry, pde_addr,
  set_ptbl_entry_by_va, get_ptbl_entry_by_va, rmv_ptbl_entry_by_va,
}

-- MagicNumber of kern/lib/x86.h.
abbrev pub magic_number : ℕ
magic_number = 1048577

pub record Machine : Type 0 where
  pub containers : ℕ → Container
  pub memory : Memory
  pub paging : Paging

-- The loop of `alloc_ptbl` from `i` on, with `n` rounds left.
unfoldable pub clear_table : ℕ → ℕ → ℕ → ℕ → Paging → Paging
clear_table zero i p e s = s
clear_table (suc n) i p e s = clear_table n (i + 1) p e (rmv_ptbl_entry s p e i)

unfoldable pub alloc_ptbl : Machine → ℕ → ℕ → Machine × ℕ
alloc_ptbl m p va =
    let (c, mem, page) = container_alloc m.containers m.memory p in
    if page == 0 then (record m { containers = c; memory = mem }, 0) else (
      record {
        containers = c;
        memory = mem;
        paging = clear_table 1024 0 p (pde_addr va) (set_pdir_entry_by_va m.paging p va page);
      },
      page,
    )

unfoldable pub free_ptbl : Machine → ℕ → ℕ → Machine
free_ptbl m p va =
    let page = get_pdir_entry_by_va m.paging p va / 2 ^ 12 in
    let (c, mem) = container_free m.containers m.memory p page in
    record { containers = c; memory = mem; paging = rmv_pdir_entry m.paging p (pde_addr va) }

abbrev pub mapped : Machine → ℕ → ℕ → ℕ → ℕ → Machine
mapped m p va page perm = record m { paging = set_ptbl_entry_by_va m.paging p va page perm }

unfoldable pub map_page : Machine → ℕ → ℕ → ℕ → ℕ → Machine × ℕ
map_page m p va page perm =
    let entry = get_pdir_entry_by_va m.paging p va in
    if entry == 0
    then (let (m', table) = alloc_ptbl m p va in
        if table == 0 then (m', magic_number) else (mapped m' p va page perm, table))
    else (mapped m p va page perm, entry / 2 ^ 12)

-- The table entry that was there.
unfoldable pub unmap_page : Paging → ℕ → ℕ → Paging × ℕ
unmap_page s p va =
    let entry = get_ptbl_entry_by_va s p va in
    (if not (entry == 0) then rmv_ptbl_entry_by_va s p va else s, entry)

unfoldable pub alloc_page : Machine → ℕ → ℕ → ℕ → Machine × ℕ
alloc_page m p va perm =
    let (c, mem, page) = container_alloc m.containers m.memory p in
    let m' = record m { containers = c; memory = mem } in
    if not (page == 0) then map_page m' p va page perm else (m', magic_number)

unfoldable pub alloc_mem_quota : (ℕ → Container) → ℕ → ℕ → (ℕ → Container) × ℕ
alloc_mem_quota c id quota = container_split c id quota
