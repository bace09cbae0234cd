-- ===== src/Examples/Tables.antt =====
-- Process 3 has no page table for an address; a page table is allocated when a page is mapped there.
use advance_synchronization.Base.{◌≡◌, ◌==◌, if◌then◌else◌, arith}
use advance_synchronization.Pages.{Memory, userlo, palloc, hand_out, scan}
use advance_synchronization.Containers.{Container, container_alloc}
use advance_synchronization.Paging.{Paging, get_ptbl_entry_by_va}
use advance_synchronization.Paging.Tables.{Machine, map_page, alloc_ptbl}
use advance_synchronization.Paging.Mapping.{table_entry, lookup-map_page}

abbrev paging : Paging
paging = record {
  pdir = λ p e. if e == 256 then 0 else 0x5007;
  word = λ a i. 0;
  idptbl = 0x100_0000;
}

abbrev container : Container
container = record { quota = 9; usage = 2; parent = 0; nchildren = 0; used = 1 }

abbrev memory : Memory
memory = record { nps = 262200; pages = λ i. record { perm = 2; allocated = 0 }; last = userlo }

abbrev machine : Machine
machine = record { containers = λ i. container; memory = memory; paging = paging }

-- The address is VM_USERLO, in directory entry 256.
lookup-map_page_example :
    get_ptbl_entry_by_va (map_page machine 3 0x4000_0000 262150 7).0.paging 3 0x4000_0000
    ≡ table_entry 262150 7
unfolding map_page alloc_ptbl container_alloc palloc hand_out scan
lookup-map_page_example = lookup-map_page machine 3 0x4000_0000 262150 7 (λ e. absurd (omega arith))
