-- ===== src/Paging/Mapping.antt =====
-- What is mapped is found again, and nothing else changes.
use advance_synchronization.Base.{
  ℕ, zero, suc, ◌+◌, ◌*◌, ◌/◌, ◌^◌, ◌<◌, ◌≤◌, ◌≡◌, ◌≢◌, refl, sym, ap, ◌∙◌, arith, ◌==◌,
  if◌then◌else◌, Bool, not, ◌&&◌, uint32, eq→==, ne→==,
}
use Prim.Native.Nat.{bit_or, bitwise, bit_or-bitwise, max}
use native.Mathlib.Decide.{ℕ_discrete}
use advance_synchronization.Containers.{container_alloc}
use advance_synchronization.Paging.{
  Paging, get_pdir_entry_by_va, get_ptbl_entry_by_va, set_ptbl_entry_by_va, set_pdir_entry_by_va,
  pde_addr, pte_addr, addr_mask, rmv_ptbl_entry,
}
use advance_synchronization.Paging.Tables.{
  Machine, clear_table, alloc_ptbl, map_page, mapped, unmap_page, magic_number,
}

-- The permission bits of a directory entry are never lost.
bit_or_seven : (a : ℕ) → bit_or a 7 ≢ 0
bit_or_seven a = go a (λ i. bit_or-bitwise a 7 i)
  where
    go : (a : ℕ) → bit_or a 7 ≡ bitwise (λ b. b) max a 7 → bit_or a 7 ≢ 0
    go zero e h = omega arith
    go (suc a) e h = omega arith

-- The two addresses are looked up in one word of one table.
abbrev pub same_word : Paging → ℕ → ℕ → ℕ → ℕ → Bool
same_word s p va q v =
    (addr_mask (get_pdir_entry_by_va s p va) == addr_mask (get_pdir_entry_by_va s q v))
    && (pte_addr va == pte_addr v)

-- The word of a table entry.
abbrev pub table_entry : ℕ → ℕ → ℕ
table_entry page perm = bit_or (uint32 (page * 2 ^ 12)) perm

lookup-set :
    (s : Paging) (p va page perm q v : ℕ)
    → get_ptbl_entry_by_va (set_ptbl_entry_by_va s p va page perm) q v ≡ (
        if not (get_pdir_entry_by_va s q v == 0) && same_word s p va q v
        then table_entry page perm
        else get_ptbl_entry_by_va s q v)
lookup-set s p va page perm q v = ground arith

clear_table-pdir : (n i p e : ℕ) (s : Paging) → (clear_table n i p e s).pdir ≡ s.pdir
unfolding clear_table
clear_table-pdir zero i p e s = refl
clear_table-pdir (suc n) i p e s = clear_table-pdir n (i + 1) p e (rmv_ptbl_entry s p e i)

clear_table-below :
    (n i p e : ℕ) (s : Paging) (a j : ℕ) → j < i → (clear_table n i p e s).word a j ≡ s.word a j
unfolding clear_table
clear_table-below zero i p e s a j l = refl
clear_table-below (suc n) i p e s a j l =
    clear_table-below n (i + 1) p e (rmv_ptbl_entry s p e i) a j (omega arith) ∙ ground arith

clear_table_lem :
    (n i p e : ℕ) (s : Paging) (j : ℕ)
    → i ≤ j
    → j < i + n
    → (clear_table n i p e s).word (addr_mask (s.pdir p e)) j ≡ 0
unfolding clear_table
clear_table_lem zero i p e s j l h = absurd (omega arith)
clear_table_lem (suc n) i p e s j l h = elim (ℕ_discrete j i) [
  | yes k ↦ rw k (
      clear_table-below n (i + 1) p e (rmv_ptbl_entry s p e i) (addr_mask (s.pdir p e)) i
        (omega arith)
      ∙ ground arith)
  | no d ↦ clear_table_lem n (i + 1) p e (rmv_ptbl_entry s p e i) j (omega arith) (omega arith)
]

lookup_zero :
    (u : Paging) (p v : ℕ)
    → u.word (addr_mask (u.pdir p (pde_addr v))) (pte_addr v) ≡ 0
    → get_ptbl_entry_by_va u p v ≡ 0
lookup_zero u p v h = elim (ℕ_discrete (u.pdir p (pde_addr v)) 0) [
  | yes z ↦ rw z refl
  | no n ↦ rw (ne→== _ _ n) h
]

-- A new table: its directory entry is present, and all its entries are empty.
module _ (s : Paging) (p va page : ℕ) where
  abbrev fresh : Paging
  fresh = clear_table 1024 0 p (pde_addr va) (set_pdir_entry_by_va s p va page)

  fresh-pdir : (q e : ℕ) → fresh.pdir q e ≡ (set_pdir_entry_by_va s p va page).pdir q e
  fresh-pdir q e =
      ap (λ d. d q e) (clear_table-pdir 1024 0 p (pde_addr va) (set_pdir_entry_by_va s p va page))

  fresh_present : get_pdir_entry_by_va fresh p va ≢ 0
  fresh_present h =
      bit_or_seven (uint32 (page * 2 ^ 12)) (sym (fresh-pdir p (pde_addr va) ∙ ground arith) ∙ h)

  fresh_empty : (v : ℕ) → pde_addr v ≡ pde_addr va → get_ptbl_entry_by_va fresh p v ≡ 0
  fresh_empty v e = lookup_zero fresh p v (
      ap (λ w. fresh.word (addr_mask w) (pte_addr v))
        (ap (fresh.pdir p) e ∙ fresh-pdir p (pde_addr va))
      ∙ clear_table_lem 1024 0 p (pde_addr va) (set_pdir_entry_by_va s p va page) (pte_addr v)
          (omega arith) (omega arith))

-- The three ways in which `map_page` can end.
module _ (m : Machine) (p va page perm : ℕ) where
  map_present :
      get_pdir_entry_by_va m.paging p va ≢ 0
      → map_page m p va page perm
        ≡ (mapped m p va page perm, get_pdir_entry_by_va m.paging p va / 2 ^ 12)
  unfolding map_page
  map_present h = rw (ne→== _ _ h) refl

  map_fails :
      get_pdir_entry_by_va m.paging p va ≡ 0
      → (container_alloc m.containers m.memory p).2 ≡ 0
      → (map_page m p va page perm).1 ≡ magic_number
  unfolding map_page alloc_ptbl
  map_fails h none = rw (h, none) refl

  abbrev extended : Machine
  extended =
      let (c, mem, table) = container_alloc m.containers m.memory p in
      record { containers = c; memory = mem; paging = fresh m.paging p va table }

  map_fresh :
      get_pdir_entry_by_va m.paging p va ≡ 0
      → (container_alloc m.containers m.memory p).2 ≢ 0
      → map_page m p va page perm
        ≡ (mapped extended p va page perm, (container_alloc m.containers m.memory p).2)
  unfolding map_page alloc_ptbl
  map_fresh h some_page = rw (h, ne→== _ _ some_page, ne→== _ _ some_page) refl

lookup_set-own :
    (s : Paging) (p va page perm : ℕ)
    → get_pdir_entry_by_va s p va ≢ 0
    → get_ptbl_entry_by_va (set_ptbl_entry_by_va s p va page perm) p va ≡ table_entry page perm
lookup_set-own s p va page perm h =
    lookup-set s p va page perm p va
    ∙ rw
        (
          ne→== _ _ h,
          eq→== (addr_mask (get_pdir_entry_by_va s p va)) _ refl,
          eq→== (pte_addr va) _ refl,
        )
        refl

-- After a `map_page` that does not fail, the address is mapped to the page with the permissions asked
-- for.
pub lookup-map_page :
    (m : Machine) (p va page perm : ℕ)
    → (map_page m p va page perm).1 ≢ magic_number
    → get_ptbl_entry_by_va (map_page m p va page perm).0.paging p va ≡ table_entry page perm
lookup-map_page m p va page perm ok = elim (ℕ_discrete (get_pdir_entry_by_va m.paging p va) 0) [
  | no present ↦
      rw (map_present m p va page perm present) (lookup_set-own m.paging p va page perm present)
  | yes absent ↦ elim (ℕ_discrete (container_alloc m.containers m.memory p).2 0) [
    | yes none ↦ absurd (ok (map_fails m p va page perm absent none))
    | no some_page ↦ rw (map_fresh m p va page perm absent some_page) (
        lookup_set-own (extended m p va page perm).paging p va page perm
          (fresh_present m.paging p va (container_alloc m.containers m.memory p).2))
  ]
]

-- Where the address has a page table, `map_page` returns the number of that table and changes the lookup
-- of an address of any process just when it is looked up in the same word of the same table.
pub map_page-others :
    (m : Machine) (p va page perm q v : ℕ)
    → get_pdir_entry_by_va m.paging p va ≢ 0
    → ((map_page m p va page perm).1 ≡ get_pdir_entry_by_va m.paging p va / 2 ^ 12)
      × (get_ptbl_entry_by_va (map_page m p va page perm).0.paging q v ≡ (
          if not (get_pdir_entry_by_va m.paging q v == 0) && same_word m.paging p va q v
          then table_entry page perm
          else get_ptbl_entry_by_va m.paging q v))
map_page-others m p va page perm q v present =
    rw (map_present m p va page perm present) (refl, lookup-set m.paging p va page perm q v)

-- `unmap_page` returns the entry of the address, which is not mapped afterwards, and changes the lookup
-- of another address of any process only when it is looked up in the same word of the same table.
pub unmap_page_lem :
    (s : Paging) (p va q v : ℕ)
    → let (u, entry) = unmap_page s p va in
      (entry ≡ get_ptbl_entry_by_va s p va)
      × (get_ptbl_entry_by_va u p va ≡ 0)
      × (get_ptbl_entry_by_va u q v ≡ (
          if not (get_pdir_entry_by_va s p va == 0) && same_word s p va q v
          then 0
          else get_ptbl_entry_by_va s q v))
unfolding unmap_page
unmap_page_lem s p va q v = ground arith
