-- ===== src/Examples/Pages.antt =====
-- A machine where every page is the users', and one page is free.
use advance_synchronization.Base.{◌+◌, ◌⊎◌, refl, arith, ◌==◌, if◌then◌else◌}
use advance_synchronization.Pages.{Memory, palloc, userlo, userhi}
use advance_synchronization.Pages.Allocator.{HintInRange, Exhausted, Granted, palloc_lem}

abbrev one_free : Memory
one_free = record {
  nps = userhi;
  pages = λ i. record { perm = 2; allocated = if i == userlo + 1 then 0 else 1 };
  last = userlo + 7;
}

palloc_lem_example :
    (Exhausted one_free (palloc one_free) ⊎ Granted one_free (palloc one_free))
    × HintInRange (palloc one_free).0
palloc_lem_example = palloc_lem one_free (omega arith, omega arith) refl
