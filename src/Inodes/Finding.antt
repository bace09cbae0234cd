-- ===== src/Inodes/Finding.antt =====
-- The search of `inode_get` through the slots.
use advance_synchronization.Base.{
  ℕ, zero, suc, ◌+◌, ◌<◌, ◌≤◌, ◌≡◌, ◌≢◌, refl, arith, eq→==, ne→==, Option, none, some, Bool-cases,
  true, false, ◌⊎◌, inl, inr,
}
use mathlib.Core.Path.{subst}
use native.Mathlib.Decide.{ℕ_discrete}
use advance_synchronization.Inodes.{Inode}
use advance_synchronization.Inodes.Cache.{
  Slots, Found, cached, empty_slot, full, is_cached, remember, find_slot,
}

-- What `find_slot` looks for among the slots from `i` on below `i + k`, where `empty` is known.
abbrev pub IsFound : Slots → ℕ → ℕ → ℕ → ℕ → Option ℕ → Found → Type 0
IsFound slots dev inum i k empty (cached j) =
    (i ≤ j) × (j < i + k) × (is_cached (slots j) dev inum ≡ true)
IsFound slots dev inum i k empty (empty_slot e) =
    ((j : ℕ) → i ≤ j → j < i + k → is_cached (slots j) dev inum ≡ false)
    × ((empty ≡ some e) ⊎ ((empty ≡ none) × (i ≤ e) × (e < i + k) × ((slots e).ref ≡ 0)))
IsFound slots dev inum i k empty full =
    ((j : ℕ) → i ≤ j → j < i + k → is_cached (slots j) dev inum ≡ false)
    × (empty ≡ none)
    × ((j : ℕ) → i ≤ j → j < i + k → (slots j).ref ≢ 0)

remembered :
    (empty : Option ℕ) (ip : Inode) (i e : ℕ)
    → remember empty ip i ≡ some e
    → (empty ≡ some e) ⊎ ((empty ≡ none) × (i ≡ e) × (ip.ref ≡ 0))
remembered (some x) ip i e h = inl h
remembered none ip i e h = elim (ℕ_discrete ip.ref 0) [
  | yes z ↦ inr (refl, cc (h, eq→== ip.ref 0 z), z)
  | no z ↦ cc (h, ne→== ip.ref 0 z)
]

not_remembered :
    (empty : Option ℕ) (ip : Inode) (i : ℕ)
    → remember empty ip i ≡ none
    → (empty ≡ none) × (ip.ref ≢ 0)
not_remembered (some x) ip i h = cc
not_remembered none ip i h = (refl, λ z. cc (h, eq→== ip.ref 0 z))

from_here :
    (P : ℕ → Type 0) (i k : ℕ)
    → P i
    → ((j : ℕ) → i + 1 ≤ j → j < i + 1 + k → P j)
    → (j : ℕ) → i ≤ j
    → j < i + suc k
    → P j
from_here P i k p q j a b = elim (ℕ_discrete i j) [
  | yes e ↦ subst P e p
  | no n ↦ q j (omega arith) (omega arith)
]

module _ (slots : Slots) (dev inum : ℕ) where
  next-IsFound :
      (i k : ℕ) (empty : Option ℕ) (r : Found)
      → is_cached (slots i) dev inum ≡ false
      → IsFound slots dev inum (i + 1) k (remember empty (slots i) i) r
      → IsFound slots dev inum i (suc k) empty r
  next-IsFound i k empty (cached j) t (a, b, c) = (omega arith, omega arith, c)
  next-IsFound i k empty (empty_slot e) t (a, b) = (
    from_here (λ j. is_cached (slots j) dev inum ≡ false) i k t a,
    elim b [
      | inr (q, x, y, z) ↦ inr ((not_remembered empty (slots i) i q).0, omega arith, omega arith, z)
      | inl q ↦ elim (remembered empty (slots i) i e q) [
        | inl same ↦ inl same
        | inr (x, y, z) ↦ inr (x, omega arith, omega arith, subst (λ j. (slots j).ref ≡ 0) y z)
      ]
    ],
  )
  next-IsFound i k empty full t (a, b, c) =
      let (x, y) = not_remembered empty (slots i) i b in
      (
        from_here (λ j. is_cached (slots j) dev inum ≡ false) i k t a,
        x,
        from_here (λ j. (slots j).ref ≢ 0) i k y c,
      )

  pub find_slot-IsFound :
      (k i : ℕ) (empty : Option ℕ)
      → IsFound slots dev inum i k empty (find_slot k i slots dev inum empty)
  unfolding find_slot
  find_slot-IsFound zero i none =
      (λ j a b. absurd (omega arith), refl, λ j a b. absurd (omega arith))
  find_slot-IsFound zero i (some e) = (λ j a b. absurd (omega arith), inl refl)
  find_slot-IsFound (suc k) i empty = elim (Bool-cases (is_cached (slots i) dev inum)) [
    | inl t ↦ rw t (omega arith, omega arith, t)
    | inr t ↦ rw t (
        next-IsFound i k empty (find_slot k (i + 1) slots dev inum (remember empty (slots i) i)) t
          (find_slot-IsFound k (i + 1) (remember empty (slots i) i)))
  ]
