-- ===== src/Examples/Spin.antt =====
-- CPU 2 takes a spinlock, and CPU 5 tries to; CPU 2 takes a reentrant lock twice.
use advance_synchronization.Base.{ℕ, ◌≡◌, arith, true, false}
use advance_synchronization.SpinLocks.{
  spinlock_init, reentrantlock_init, reentrantlock_try_acquire, reentrantlock_holding,
}
use advance_synchronization.SpinLocks.Exclusion.{Cpus, initial, turn, try_lock}
use advance_synchronization.SpinLocks.Nesting as Nesting

abbrev free_cpus : Cpus
free_cpus = record { lock = spinlock_init; holds = λ cpu. false }

abbrev tried : Cpus
tried = try_lock (try_lock free_cpus 2) 5

abbrev free_nested : Nesting.Nested
free_nested = record { lock = reentrantlock_init; depth = λ cpu. 0 }

abbrev twice : Nesting.Nested
twice = Nesting.try_nested (Nesting.try_nested free_nested 2) 2

twice-Nestings : Nesting.Nestings twice
unfolding Nesting.try_nested reentrantlock_try_acquire
twice-Nestings =
    Nesting.turn (Nesting.turn Nesting.initial (Nesting.nests 2 (omega arith) (omega arith)))
      (Nesting.nests 2 (omega arith) (omega arith))

reentrant_exclusion_example :
    (◌≡◌ {A = ℕ} 2 2)
    × (twice.lock.count ≡ twice.depth 2)
    × (reentrantlock_holding twice.lock ≡ true)
unfolding Nesting.try_nested reentrantlock_try_acquire
reentrant_exclusion_example =
    Nesting.reentrant_exclusion twice-Nestings 2 2 (λ e. absurd (omega arith))
      (λ e. absurd (omega arith))
