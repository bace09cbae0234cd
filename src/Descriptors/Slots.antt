-- ===== src/Descriptors/Slots.antt =====
-- `fdalloc` takes the lowest free descriptor.
use advance_synchronization.Base.{
  ℕ, zero, suc, ◌+◌, ◌<◌, ◌≡◌, ◌≢◌, refl, arith, inl, inr, Option, none, some, update, Option-cases,
}
use native.Mathlib.Decide.{ℕ_discrete}
use advance_synchronization.Descriptors.{OpenFiles, nofile, fdalloc, fdalloc_from}

-- The lowest free descriptor is taken for the entry, and nothing else changes; or all are taken.
abbrev pub Slotted : OpenFiles → ℕ → OpenFiles × Option ℕ → Type 0
Slotted o f (p, some fd) =
    (fd < nofile) × (o fd ≡ none) × (p ≡ update o fd (some f)) × ((d : ℕ) → d < fd → o d ≢ none)
Slotted o f (p, none) = (p ≡ o) × ((d : ℕ) → d < nofile → o d ≢ none)

distinct : (g : ℕ) (x : Option ℕ) → x ≡ some g → x ≡ none → ⊥
distinct g x e k = cc

fdalloc_from-free :
    (n fd : ℕ) (o : OpenFiles) (f : ℕ)
    → o fd ≡ none
    → fdalloc_from (suc n) fd o f ≡ (update o fd (some f), some fd)
unfolding fdalloc_from
fdalloc_from-free n fd o f e = rw (e, fdalloc_from) refl

fdalloc_from-taken :
    (n fd : ℕ) (o : OpenFiles) (f g : ℕ)
    → o fd ≡ some g
    → fdalloc_from (suc n) fd o f ≡ fdalloc_from n (fd + 1) o f
unfolding fdalloc_from
fdalloc_from-taken n fd o f g e = rw (e, fdalloc_from) refl

fdalloc_from_lem :
    (n fd : ℕ) (o : OpenFiles) (f : ℕ)
    → fd + n ≡ nofile
    → ((d : ℕ) → d < fd → o d ≢ none)
    → Slotted o f (fdalloc_from n fd o f)
unfolding fdalloc_from
fdalloc_from_lem zero fd o f e h = (refl, λ d l. h d (omega arith))
fdalloc_from_lem (suc n) fd o f e h = elim (Option-cases (o fd)) [
  | inl free ↦ rw (fdalloc_from-free n fd o f free) (omega arith, free, refl, h)
  | inr (g, taken) ↦ rw (fdalloc_from-taken n fd o f g taken) (
      fdalloc_from_lem n (fd + 1) o f (omega arith) (λ d l k. elim (ℕ_discrete d fd) [
        | yes same ↦ absurd (distinct g (o d) (rw same taken) k)
        | no ne ↦ h d (omega arith) k
      ]))
]

-- `fdalloc` takes the lowest free descriptor for the entry and changes no other, or returns -1 without
-- a change, and then no descriptor is free.
pub fdalloc_lem : (o : OpenFiles) (f : ℕ) → Slotted o f (fdalloc o f)
unfolding fdalloc
fdalloc_lem o f = fdalloc_from_lem nofile 0 o f refl (λ d l. absurd (omega arith))
