-- ===== src/Directories/Names.antt =====
-- strncmp and strncpy, as dir.c uses them.
use advance_synchronization.Base.{
  ℕ, zero, suc, ◌+◌, ◌<◌, ◌≤◌, ◌≡◌, ◌≢◌, refl, ap, ◌∙◌, arith, ◌==◌, if◌then◌else◌, ◌||◌, update,
  eq→==, ne→==, Bool, true, false,
}
use native.Mathlib.Decide.{ℕ_discrete}
use advance_synchronization.Directories.{strncmp, strncpy, is_zero, same_name}
use advance_synchronization.Paths.{dirsiz}

-- `strncpy` leaves what is before its first index.
strncpy-before :
    (k i : ℕ) (ended : Bool) (s t : ℕ → ℕ) (j : ℕ) → j < i → strncpy k i ended s t j ≡ s j
unfolding strncpy
strncpy-before zero i ended s t j h = refl
strncpy-before (suc k) i ended s t j h =
    let c = if ended then 0 else t i in
    strncpy-before k (i + 1) (ended || c == 0) (update s i c) t j (omega arith)
    ∙ rw (ne→== i j (omega arith)) refl

strncpy-suc :
    (k i : ℕ) (s t : ℕ → ℕ)
    → strncpy (suc k) i false s t ≡ strncpy k (i + 1) (t i == 0) (update s i (t i)) t
unfolding strncpy
strncpy-suc k i s t = refl

strncpy-first : (k i : ℕ) (s t : ℕ → ℕ) → strncpy (suc k) i false s t i ≡ t i
strncpy-first k i s t =
    ap (λ (f : ℕ → ℕ). f i) (strncpy-suc k i s t)
    ∙ strncpy-before k (i + 1) (t i == 0) (update s i (t i)) t i (omega arith)
    ∙ rw (eq→== i i refl) refl

strncmp-ends :
    (k i : ℕ) (p q : ℕ → ℕ) → p i ≡ q i → q i ≡ 0 → is_zero (strncmp (suc k) i p q) ≡ true
unfolding strncmp
strncmp-ends k i p q e z = rw (e, z) refl

strncmp-next :
    (k i : ℕ) (p q : ℕ → ℕ) → p i ≡ q i → q i ≢ 0 → strncmp (suc k) i p q ≡ strncmp k (i + 1) p q
unfolding strncmp
strncmp-next k i p q e z = rw (e, ne→== (q i) 0 z, eq→== (q i) (q i) refl) refl

strncmp-strncpy : (k i : ℕ) (s t : ℕ → ℕ) → is_zero (strncmp k i (strncpy k i false s t) t) ≡ true
unfolding strncmp
strncmp-strncpy zero i s t = refl
strncmp-strncpy (suc k) i s t = elim (ℕ_discrete (t i) 0) [
  | yes z ↦ strncmp-ends k i (strncpy (suc k) i false s t) t (strncpy-first k i s t) z
  | no z ↦
      let next = strncmp-next k i (strncpy (suc k) i false s t) t (strncpy-first k i s t) z in
      let copy : strncpy (suc k) i false s t ≡ strncpy k (i + 1) false (update s i (t i)) t =
        strncpy-suc k i s t
        ∙ ap (λ e. strncpy k (i + 1) e (update s i (t i)) t) (ne→== (t i) 0 z) in
      ap is_zero next
      ∙ ap (λ x. is_zero (strncmp k (i + 1) x t)) copy
      ∙ strncmp-strncpy k (i + 1) (update s i (t i)) t
]

pub same_name-copy : (s t : ℕ → ℕ) → same_name (strncpy dirsiz 0 false s t) t ≡ true
unfolding same_name
same_name-copy s t = strncmp-strncpy dirsiz 0 s t

strncmp-same :
    (k i : ℕ) (p p' q : ℕ → ℕ)
    → ((j : ℕ) → i ≤ j → j < i + k → p j ≡ p' j)
    → strncmp k i p q ≡ strncmp k i p' q
unfolding strncmp
strncmp-same zero i p p' q h = refl
strncmp-same (suc k) i p p' q h =
    let here = h i (omega arith) (omega arith) in
    let rest = strncmp-same k (i + 1) p p' q (λ j a b. h j (omega arith) (omega arith)) in
    rw (here, rest) refl

-- `strncmp` and `strncpy` read DIRSIZ characters.
pub same_name-same :
    (s s' t : ℕ → ℕ) → ((j : ℕ) → j < dirsiz → s j ≡ s' j) → same_name s t ≡ same_name s' t
unfolding same_name
same_name-same s s' t h = ap is_zero (strncmp-same dirsiz 0 s s' t (λ j a b. h j b))

pub strncpy-bytes :
    (k i : ℕ) (ended : Bool) (s t : ℕ → ℕ)
    → ((j : ℕ) → s j < 256)
    → ((j : ℕ) → t j < 256)
    → (j : ℕ) → strncpy k i ended s t j < 256
unfolding strncpy
strncpy-bytes zero i ended s t a b j = a j
strncpy-bytes (suc k) i ended s t a b j =
    let c = if ended then 0 else t i in
    strncpy-bytes k (i + 1) (ended || c == 0) (update s i c) t
      (λ m. let (x, y) : (s m < 256) × (t i < 256) = (a m, b i) in ground arith) b j
