-- ===== src/SpinLocks/Nesting.antt =====
-- CPUs that take and give back one reentrant lock in any order, each as often as it likes.
use advance_synchronization.Base.{
  ℕ, ◌+◌, ◌-◌, ◌^◌, ◌<◌, ◌≡◌, ◌≢◌, refl, sym, ap, ◌∙◌, arith, if◌then◌else◌, true, false, update,
  uint32, eq→==, ne→==,
}
use native.Mathlib.Decide.{ℕ_discrete}
use advance_synchronization.ThreadQueue.{num_cpus}
use advance_synchronization.SpinLocks.{
  ReentrantLock, unlocked, reentrantlock_init, reentrantlock_try_acquire, reentrantlock_release,
  reentrantlock_holding,
}

-- The lock, and how many acquires of each CPU are not given back yet.
pub record Nested : Type 0 where
  pub lock : ReentrantLock
  pub depth : ℕ → ℕ

unfoldable pub try_nested : Nested → ℕ → Nested
try_nested s cpu =
    let (lk, got) = reentrantlock_try_acquire s.lock cpu in
    record { lock = lk; depth = if got then update s.depth cpu (s.depth cpu + 1) else s.depth }

-- A CPU does not nest 2 ^ 32 - 1 acquires, so that the counter does not wrap.
pub data Nesting (s : Nested) : Nested → Type 0 where
  nests : (cpu : ℕ) → cpu < num_cpus → s.depth cpu + 1 < 2 ^ 32 → Nesting s (try_nested s cpu)
  unnests :
      (cpu : ℕ)
      → cpu < num_cpus
      → s.depth cpu ≢ 0
      → Nesting s (record {
        lock = reentrantlock_release s.lock;
        depth = update s.depth cpu (s.depth cpu - 1);
      })

pub data Nestings : Nested → Type 0 where
  initial : Nestings (record { lock = reentrantlock_init; depth = λ cpu. 0 })
  turn : {s t : Nested} → Nestings s → Nesting s t → Nestings t

-- Nobody is inside; or one CPU is, as often as the counter says.
data Shape (s : Nested) : Type 0 where
  idle : s.lock.lock ≡ unlocked → s.lock.count ≡ 0 → ((c : ℕ) → s.depth c ≡ 0) → Shape s
  busy :
      (cpu : ℕ)
      → cpu < num_cpus
      → s.lock.lock ≡ cpu
      → s.lock.count ≡ s.depth cpu
      → s.depth cpu ≢ 0
      → s.depth cpu < 2 ^ 32
      → ((c : ℕ) → c ≢ cpu → s.depth c ≡ 0)
      → Shape s

-- What a round of an acquire, and a release, do to the words of the lock.
try_free :
    (lk : ReentrantLock) (cpu : ℕ)
    → lk.lock ≡ unlocked
    → lk.count ≡ 0
    → reentrantlock_try_acquire lk cpu ≡ (record { lock = cpu; count = 1 }, true)
unfolding reentrantlock_try_acquire
try_free lk cpu e z = rw (e, z) (ground arith)

try_own :
    (lk : ReentrantLock) (cpu : ℕ)
    → lk.lock ≡ cpu
    → cpu ≢ unlocked
    → lk.count + 1 < 2 ^ 32
    → reentrantlock_try_acquire lk cpu ≡ (record { lock = cpu; count = lk.count + 1 }, true)
unfolding reentrantlock_try_acquire
try_own lk cpu e d h =
    let word : uint32 (lk.count + 1) ≡ lk.count + 1 = omega arith in
    rw (word, e, eq→== cpu cpu refl, ne→== cpu unlocked d) refl

try_other :
    (lk : ReentrantLock) (cpu : ℕ)
    → lk.lock ≢ unlocked
    → lk.lock ≢ cpu
    → reentrantlock_try_acquire lk cpu ≡ (lk, false)
unfolding reentrantlock_try_acquire
try_other lk cpu d n = rw (ne→== lk.lock unlocked d, ne→== lk.lock cpu n) refl

word_down : (n : ℕ) → n ≢ 0 → n < 2 ^ 32 → uint32 (n + 2 ^ 32 - 1) ≡ n - 1
word_down n d h = omega arith

release_last :
    (lk : ReentrantLock)
    → lk.count ≡ 1
    → reentrantlock_release lk ≡ record { lock = unlocked; count = 0 }
unfolding reentrantlock_release
release_last lk e = rw e refl

release_more :
    (lk : ReentrantLock)
    → 1 < lk.count
    → lk.count < 2 ^ 32
    → reentrantlock_release lk ≡ record lk { count = lk.count - 1 }
unfolding reentrantlock_release
release_more lk h k =
    rw (word_down lk.count (omega arith) k, ne→== (lk.count - 1) 0 (λ e. omega arith)) refl

nests_idle :
    (s : Nested) (cpu : ℕ)
    → cpu < num_cpus
    → s.lock.lock ≡ unlocked
    → s.lock.count ≡ 0
    → ((c : ℕ) → s.depth c ≡ 0)
    → Shape (try_nested s cpu)
unfolding try_nested
nests_idle s cpu l e z none = rw (try_free s.lock cpu e z) (
    busy cpu l refl (ground (arith, none cpu)) (λ h. ground (arith, none cpu))
      (ground (arith, none cpu)) (λ c d. ground (arith, none c)))

nests_own :
    (s : Nested) (cpu : ℕ)
    → cpu < num_cpus
    → s.depth cpu + 1 < 2 ^ 32
    → s.lock.lock ≡ cpu
    → s.lock.count ≡ s.depth cpu
    → ((c : ℕ) → c ≢ cpu → s.depth c ≡ 0)
    → Shape (try_nested s cpu)
unfolding try_nested
nests_own s cpu l fits e z none = rw (try_own s.lock cpu e (λ h. omega arith) (omega arith)) (
    busy cpu l refl (ground (arith, z)) (λ h. ground arith) (ground arith)
      (λ c d. ground (arith, none c)))

nests_other :
    (s : Nested) (cpu : ℕ)
    → s.lock.lock ≢ unlocked
    → s.lock.lock ≢ cpu
    → Shape s
    → Shape (try_nested s cpu)
unfolding try_nested
nests_other s cpu d n v = rw (try_other s.lock cpu d n) v

unnests_own :
    (s : Nested) (cpu : ℕ)
    → cpu < num_cpus
    → s.lock.lock ≡ cpu
    → s.lock.count ≡ s.depth cpu
    → s.depth cpu ≢ 0
    → s.depth cpu < 2 ^ 32
    → ((c : ℕ) → c ≢ cpu → s.depth c ≡ 0)
    → Shape (record {
      lock = reentrantlock_release s.lock;
      depth = update s.depth cpu (s.depth cpu - 1);
    })
unnests_own s cpu l e z h k none = elim (ℕ_discrete s.lock.count 1) [
  | yes one ↦ rw (release_last s.lock one) (idle refl refl (λ c. ground (arith, none c)))
  | no more ↦ rw (release_more s.lock (omega arith) (omega arith)) (
      busy cpu l e (ground (arith, z)) (λ q. ground arith) (ground arith)
        (λ c d. ground (arith, none c)))
]

Nesting-Shape : {s t : Nested} → Shape s → Nesting s t → Shape t
Nesting-Shape {s} (idle e z none) (nests cpu l fits) = nests_idle s cpu l e z none
Nesting-Shape {s} (busy o m e z h k none) (nests cpu l fits) = elim (ℕ_discrete o cpu) [
  | yes same ↦
      nests_own s cpu l fits (e ∙ same) (z ∙ ap s.depth same) (λ c d. none c (λ q. d (q ∙ same)))
  | no d ↦ nests_other s cpu (λ q. omega arith) (λ q. d (sym e ∙ q)) (busy o m e z h k none)
]
Nesting-Shape {s} (idle e z none) (unnests cpu l d) = absurd (d (none cpu))
Nesting-Shape {s} (busy o m e z h k none) (unnests cpu l d) = elim (ℕ_discrete cpu o) [
  | yes same ↦
      let back = ap s.depth (sym same) in
      unnests_own s cpu l (e ∙ sym same) (z ∙ back) d (omega (arith, back))
        (λ c q. none c (λ r. q (r ∙ sym same)))
  | no q ↦ absurd (d (none cpu q))
]

Nestings-Shape : {s : Nested} → Nestings s → Shape s
Nestings-Shape initial = idle refl refl (λ c. refl)
Nestings-Shape (turn r t) = Nesting-Shape (Nestings-Shape r) t

only : (s : Nested) (o c : ℕ) → ((d : ℕ) → d ≢ o → s.depth d ≡ 0) → s.depth c ≢ 0 → c ≡ o
only s o c none h = elim (ℕ_discrete c o) [ yes e ↦ e | no d ↦ absurd (h (none c d)) ]

-- However the CPUs take turns, one that is inside the reentrant lock is alone in it, and the counter is
-- the number of its acquires that are not given back yet.
pub reentrant_exclusion :
    {s : Nested}
    → Nestings s
    → (a b : ℕ) → s.depth a ≢ 0
    → s.depth b ≢ 0
    → (a ≡ b) × (s.lock.count ≡ s.depth a) × (reentrantlock_holding s.lock ≡ true)
reentrant_exclusion {s} r a b h k = go (Nestings-Shape r)
  where
    go : Shape s → (a ≡ b) × (s.lock.count ≡ s.depth a) × (reentrantlock_holding s.lock ≡ true)
    go (idle e z none) = absurd (h (none a))
    go (busy o m e z q w none) =
        let mine = only s o a none h in
        let yours = only s o b none k in (mine ∙ sym yours, z ∙ ap s.depth (sym mine), ground arith)
