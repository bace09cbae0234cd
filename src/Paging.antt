-- ===== src/Paging.antt =====
-- The page directories and tables of processes: mcertikos/kern/vmm/MPTIntro, MPTOp, MPTComm, MPTKern
-- and MPTNew. Tables are read and written through the identity map of the kernel.
pub mod Tables
pub mod Mapping
pub mod Boot
use advance_synchronization.Base.{
  ℕ, zero, suc, ◌+◌, ◌-◌, ◌*◌, ◌/◌, ◌%◌, ◌^◌, ◌==◌, ltb, leb, if◌then◌else◌, Bool, true, false, not,
  ◌&&◌, ◌||◌, update, uint32,
}
use Prim.Native.Nat.{bit_or}
use advance_synchronization.WaitQueue.{num_ids}
use advance_synchronization.Pages.{Memory}
use advance_synchronization.Containers.{Container, container_alloc, container_free, container_split}

-- `PDirPool`, and the words of the page table at each page-aligned address; `idptbl` is the address of
-- `IDPTbl`, which the linker chooses.
pub record Paging : Type 0 where
  pub pdir : ℕ → ℕ → ℕ
  pub word : ℕ → ℕ → ℕ
  pub idptbl : ℕ

abbrev pub pt_perm_ptu : ℕ
pt_perm_ptu = 7

-- `x & 0xfffff000`.
abbrev pub addr_mask : ℕ → ℕ
addr_mask x = x - x % 4096

abbrev pub set_pdir : Paging → ℕ → ℕ → ℕ → Paging
set_pdir s p e w = record s { pdir = update s.pdir p (update (s.pdir p) e w) }

abbrev pub set_word : Paging → ℕ → ℕ → ℕ → Paging
set_word s a i w = record s { word = update s.word a (update (s.word a) i w) }

abbrev pub get_pdir_entry : Paging → ℕ → ℕ → ℕ
get_pdir_entry s p e = s.pdir p e

abbrev pub set_pdir_entry : Paging → ℕ → ℕ → ℕ → Paging
set_pdir_entry s p e page = set_pdir s p e (bit_or (uint32 (page * 2 ^ 12)) pt_perm_ptu)

abbrev pub set_pdir_entry_identity : Paging → ℕ → ℕ → Paging
set_pdir_entry_identity s p e = set_pdir s p e (bit_or (uint32 (s.idptbl + e * 4096)) pt_perm_ptu)

abbrev pub rmv_pdir_entry : Paging → ℕ → ℕ → Paging
rmv_pdir_entry s p e = set_pdir s p e 0

abbrev pub get_ptbl_entry : Paging → ℕ → ℕ → ℕ → ℕ
get_ptbl_entry s p e i = s.word (addr_mask (s.pdir p e)) i

abbrev pub set_ptbl_entry : Paging → ℕ → ℕ → ℕ → ℕ → ℕ → Paging
set_ptbl_entry s p e i page perm =
    set_word s (addr_mask (s.pdir p e)) i (bit_or (uint32 (page * 2 ^ 12)) perm)

abbrev pub set_ptbl_entry_identity : Paging → ℕ → ℕ → ℕ → Paging
set_ptbl_entry_identity s e i perm =
    set_word s (uint32 (s.idptbl + e * 4096)) i
      (bit_or (bit_or (uint32 (e * 2 ^ 22)) (uint32 (i * 2 ^ 12))) perm)

abbrev pub rmv_ptbl_entry : Paging → ℕ → ℕ → ℕ → Paging
rmv_ptbl_entry s p e i = set_word s (addr_mask (s.pdir p e)) i 0

-- PDE_ADDR and PTE_ADDR.
abbrev pub pde_addr : ℕ → ℕ
pde_addr x = x / 2 ^ 22

abbrev pub pte_addr : ℕ → ℕ
pte_addr x = x / 2 ^ 12 % 1024

abbrev pub get_ptbl_entry_by_va : Paging → ℕ → ℕ → ℕ
get_ptbl_entry_by_va s p va =
    if not (get_pdir_entry s p (pde_addr va) == 0)
    then get_ptbl_entry s p (pde_addr va) (pte_addr va)
    else 0

abbrev pub get_pdir_entry_by_va : Paging → ℕ → ℕ → ℕ
get_pdir_entry_by_va s p va = get_pdir_entry s p (pde_addr va)

abbrev pub rmv_ptbl_entry_by_va : Paging → ℕ → ℕ → Paging
rmv_ptbl_entry_by_va s p va =
    if not (get_pdir_entry s p (pde_addr va) == 0)
    then rmv_ptbl_entry s p (pde_addr va) (pte_addr va)
    else s

abbrev pub rmv_pdir_entry_by_va : Paging → ℕ → ℕ → Paging
rmv_pdir_entry_by_va s p va = rmv_pdir_entry s p (pde_addr va)

abbrev pub set_ptbl_entry_by_va : Paging → ℕ → ℕ → ℕ → ℕ → Paging
set_ptbl_entry_by_va s p va page perm = set_ptbl_entry s p (pde_addr va) (pte_addr va) page perm

abbrev pub set_pdir_entry_by_va : Paging → ℕ → ℕ → ℕ → Paging
set_pdir_entry_by_va s p va page = set_pdir_entry s p (pde_addr va) page

-- VM_USERLO_PDE and VM_USERHI_PDE.
abbrev pub userlo_pde : ℕ
userlo_pde = 0x4000_0000 / (4096 * 1024)

abbrev pub userhi_pde : ℕ
userhi_pde = 0xF000_0000 / (4096 * 1024)

abbrev pub is_kernel_pde : ℕ → Bool
is_kernel_pde e = ltb e userlo_pde || leb userhi_pde e

-- PTE_P | PTE_W | PTE_G, or PTE_P | PTE_W.
abbrev pub identity_perm : ℕ → ℕ
identity_perm e = if is_kernel_pde e then 0x103 else 3

-- The inner loop of `idptbl_init` from `i` on, with `n` rounds left, and the outer one from `e` on.
unfoldable pub identity_entries : ℕ → ℕ → ℕ → Paging → Paging
identity_entries zero i e s = s
identity_entries (suc n) i e s =
    identity_entries n (i + 1) e (set_ptbl_entry_identity s e i (identity_perm e))

unfoldable pub identity_tables : ℕ → ℕ → Paging → Paging
identity_tables zero e s = s
identity_tables (suc n) e s = identity_tables n (e + 1) (identity_entries 1024 0 e s)

-- `idptbl_init` after `container_init`.
unfoldable pub idptbl_init : Paging → Paging
idptbl_init s = identity_tables 1024 0 s

-- The loops of `pdir_init` after `idptbl_init`.
abbrev pub init_pde : Paging → ℕ → ℕ → Paging
init_pde s p e = if is_kernel_pde e then set_pdir_entry_identity s p e else rmv_pdir_entry s p e

unfoldable pub init_directory : ℕ → ℕ → ℕ → Paging → Paging
init_directory zero e p s = s
init_directory (suc n) e p s = init_directory n (e + 1) p (init_pde s p e)

unfoldable pub init_directories : ℕ → ℕ → Paging → Paging
init_directories zero p s = s
init_directories (suc n) p s = init_directories n (p + 1) (init_directory 1024 0 p s)

unfoldable pub pdir_init : Paging → Paging
pdir_init s = init_directories num_ids 0 (idptbl_init s)

-- The loop of `pdir_init_kern` from `e` on.
unfoldable pub identity_directory : ℕ → ℕ → Paging → Paging
identity_directory zero e s = s
identity_directory (suc n) e s = identity_directory n (e + 1) (set_pdir_entry_identity s 0 e)

unfoldable pub pdir_init_kern : Paging → Paging
pdir_init_kern s = identity_directory (userhi_pde - userlo_pde) userlo_pde (pdir_init s)
