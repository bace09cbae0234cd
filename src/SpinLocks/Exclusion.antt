-- ===== src/SpinLocks/Exclusion.antt =====
-- CPUs that take and give back one spinlock in any order.
use advance_synchronization.Base.{ℕ, ◌<◌, ◌≡◌, ◌≢◌, ◌==◌, Bool, true, false, update}
use advance_synchronization.ThreadQueue.{num_cpus}
use advance_synchronization.SpinLocks.{
  Spinlock, spinlock_init, spinlock_try_acquire, spinlock_release,
}

-- The lock, and which CPUs are between an acquire that succeeded and the release.
pub record Cpus : Type 0 where
  pub lock : Spinlock
  pub holds : ℕ → Bool

unfoldable pub try_lock : Cpus → ℕ → Cpus
try_lock s cpu =
    let (lk, old) = spinlock_try_acquire s.lock cpu in
    record { lock = lk; holds = update s.holds cpu (old == 0) }

pub data Turn (s : Cpus) : Cpus → Type 0 where
  tries : (cpu : ℕ) → cpu < num_cpus → s.holds cpu ≡ false → Turn s (try_lock s cpu)
  gives_back :
      (cpu : ℕ)
      → s.holds cpu ≡ true
      → Turn s (record { lock = spinlock_release s.lock; holds = update s.holds cpu false })

pub data Running : Cpus → Type 0 where
  initial : Running (record { lock = spinlock_init; holds = λ cpu. false })
  turn : {s t : Cpus} → Running s → Turn s t → Running t

record IsOwned (s : Cpus) : Type 0 where
  free : (cpu : ℕ) → s.lock.lock ≡ 0 → s.holds cpu ≡ false
  owner : (cpu : ℕ) → s.holds cpu ≡ true → s.lock.lock_holder ≡ cpu
  taken :
      (cpu : ℕ) → cpu < num_cpus → s.lock.lock ≢ 0 → s.lock.lock_holder ≡ cpu → s.holds cpu ≡ true
