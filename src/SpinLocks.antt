-- ===== src/SpinLocks.antt =====
-- The locks of CPUs: mcertikos/kern/lib/spinlock.c, without its debugging variants, and
-- mcertikos/kern/lib/reentrant_lock.c. Each function here has one atomic instruction, `xchg` or
-- `cmpxchg`; the loop of an acquire is a round that may be tried again.
pub mod Exclusion
pub mod Nesting
use advance_synchronization.Base.{
  ℕ, zero, suc, ◌+◌, ◌-◌, ◌%◌, ◌^◌, ◌<◌, ◌==◌, ◌≡◌, ltb, if◌then◌else◌, Bool, true, false, not,
  ◌&&◌, ◌||◌, update, uint32,
}
use advance_synchronization.ThreadQueue.{num_cpus}

pub record Spinlock : Type 0 where
  pub lock_holder : ℕ
  pub lock : ℕ

abbrev pub spinlock_init : Spinlock
spinlock_init = record { lock_holder = num_cpus + 1; lock = 0 }

unfoldable pub spinlock_holding : Spinlock → ℕ → Bool
spinlock_holding lk cpu = if lk.lock == 0 then false else lk.lock_holder == cpu

-- One round of `spinlock_acquire_A`, which ends the loop where it is 0, and the whole of
-- `spinlock_try_acquire_A`: the lock, and the value that `xchg` found.
unfoldable pub spinlock_try_acquire : Spinlock → ℕ → Spinlock × ℕ
spinlock_try_acquire lk cpu =
    if lk.lock == 0
    then (record lk { lock = 1; lock_holder = cpu }, lk.lock)
    else (record lk { lock = 1 }, lk.lock)

unfoldable pub spinlock_release : Spinlock → Spinlock
spinlock_release lk = record { lock_holder = num_cpus + 1; lock = 0 }

pub record ReentrantLock : Type 0 where
  pub lock : ℕ
  pub count : ℕ

abbrev pub unlocked : ℕ
unlocked = 0xFFFF_FFFF

abbrev pub reentrantlock_init : ReentrantLock
reentrantlock_init = record { lock = unlocked; count = 0 }

abbrev pub reentrantlock_holding : ReentrantLock → Bool
reentrantlock_holding lk = ltb 0 lk.count

-- `cmpxchg(&lk->lock, UNLOCKED, cpuid)`.
abbrev pub cmpxchg : ℕ → ℕ → ℕ
cmpxchg word cpu = if word == unlocked then cpu else word

-- One round of `reentrantlock_acquire`, which ends the loop where it is true, and the whole of
-- `reentrantlock_try_acquire`.
unfoldable pub reentrantlock_try_acquire : ReentrantLock → ℕ → ReentrantLock × Bool
reentrantlock_try_acquire lk cpu =
    if lk.lock == cpu || lk.lock == unlocked
    then (record { lock = cmpxchg lk.lock cpu; count = uint32 (lk.count + 1) }, true)
    else (record lk { lock = cmpxchg lk.lock cpu }, false)

-- `count--` on an unsigned int.
unfoldable pub reentrantlock_release : ReentrantLock → ReentrantLock
reentrantlock_release lk =
    let count = uint32 (lk.count + 2 ^ 32 - 1) in
    if count == 0 then record { lock = unlocked; count = count } else record lk { count = count }
