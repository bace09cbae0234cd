-- ===== src/Examples/Queues.antt =====
-- The wait queue from memory that held anything: emptied, then joined by processes 3 and 4.
use mathlib.Core.List.{erase}
use native.Mathlib.Decide.{ℕ_discrete}
use advance_synchronization.Base.{◌≡◌, refl, arith, [], ◌∷◌}
use advance_synchronization.WaitQueue.{WaitQueue, waitq_add, waitq_remove, waitq_init}
use advance_synchronization.WaitQueue.Order.{contents}
use advance_synchronization.WaitQueue.Invariant.{
  IsValid, waitq_init_lem, waitq_add-IsValid, contents-waitq_remove,
}
use advance_synchronization.Examples.Run.{garbage_queue}

abbrev emptied : WaitQueue
emptied = waitq_init garbage_queue

abbrev two_queued : WaitQueue
two_queued = waitq_add (waitq_add emptied 3 1) 4 2

emptied-IsValid : IsValid emptied
emptied-IsValid = (waitq_init_lem garbage_queue).1

two_queued-IsValid : IsValid two_queued
two_queued-IsValid =
    waitq_add-IsValid 4 2 (waitq_add-IsValid 3 1 emptied-IsValid (omega arith)) (omega arith)

two_queued-contents : contents two_queued ≡ 3 ∷ 4 ∷ []
unfolding waitq_add waitq_init
two_queued-contents = refl

contents-waitq_remove_example :
    contents (waitq_remove two_queued 3) ≡ erase ℕ_discrete (contents two_queued) 3
contents-waitq_remove_example = contents-waitq_remove 3 two_queued-IsValid (omega arith)
