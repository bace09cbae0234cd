-- ===== src/Pages.antt =====
-- The physical pages: the allocation table of mcertikos/kern/pmm/MATIntro/MATIntro.c and the allocator
-- of mcertikos/kern/pmm/MATOp/MATOp.c. Each call runs with `mem_lk` held.
pub mod Scan
pub mod Allocator
pub mod Boot
pub mod Table
use advance_synchronization.Base.{
  ℕ, zero, suc, ◌+◌, ◌-◌, ◌*◌, ◌/◌, ◌==◌, ltb, leb, if◌then◌else◌, Bool, true, false, not, ◌&&◌,
  ◌||◌, update,
}

-- `struct ATStruct`.
pub record Page : Type 0 where
  pub perm : ℕ
  pub allocated : ℕ

-- `NUM_PAGES`, `AT`, and `last_palloc_index`.
pub record Memory : Type 0 where
  pub nps : ℕ
  pub pages : ℕ → Page
  pub last : ℕ

-- VM_USERLO_PI and VM_USERHI_PI: the pages below and above belong to the kernel.
abbrev pub userlo : ℕ
userlo = 0x4000_0000 / 4096

abbrev pub userhi : ℕ
userhi = 0xF000_0000 / 4096

abbrev pub at_is_norm : Memory → ℕ → ℕ
at_is_norm m i = if ltb 1 (m.pages i).perm then 1 else 0

abbrev pub at_is_allocated : Memory → ℕ → ℕ
at_is_allocated m i = if ltb 0 (m.pages i).allocated then 1 else (m.pages i).allocated

abbrev pub at_set_perm : Memory → ℕ → ℕ → Memory
at_set_perm m i p = record m { pages = update m.pages i (record { perm = p; allocated = 0 }) }

abbrev pub at_set_allocated : Memory → ℕ → ℕ → Memory
at_set_allocated m i a = record m {
  pages = update m.pages i (record (m.pages i) { allocated = a });
}

-- `at_is_norm(i) && !at_is_allocated(i)`.
abbrev pub is_free : Memory → ℕ → Bool
is_free m i = not (at_is_norm m i == 0) && at_is_allocated m i == 0

-- `i + 1`, from the end of the range of the users' pages back to its start.
abbrev pub next_page : ℕ → ℕ → ℕ → ℕ
next_page lo hi i = if leb hi (i + 1) then lo else i + 1

-- The loop of `palloc` with `n` rounds left, for the users' pages from `lo` up to `hi`.
unfoldable pub scan : ℕ → ℕ → Memory → ℕ → ℕ → Bool → ℕ → ℕ
scan lo hi m zero i first found = found
scan lo hi m (suc n) i first found =
    let rest = scan lo hi m n (next_page lo hi i) false (if is_free m i then i else found) in
    if (not (i == m.last) || first) && found == m.nps then rest else found

-- One round for each of the users' pages, and one for the test that ends the loop.
abbrev pub rounds : ℕ → ℕ → ℕ
rounds lo hi = suc (hi - lo)

-- What follows the loop, with the page that it found.
unfoldable pub hand_out : Memory → ℕ → Memory × ℕ
hand_out m found =
    if found == m.nps
    then (record m { last = userlo }, 0)
    else (record (at_set_allocated m found 1) { last = found }, found)

unfoldable pub palloc : Memory → Memory × ℕ
palloc m = hand_out m (scan userlo userhi m (rounds userlo userhi) m.last true m.nps)

unfoldable pub pfree : Memory → ℕ → Memory
pfree m i = at_set_allocated m i 0
