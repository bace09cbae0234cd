-- ===== src/Paging/Boot.antt =====
-- The directories after boot: the kernel's part is the same in all of them, and the users' part is
-- empty but for process 0.
use advance_synchronization.Base.{
  ℕ, zero, suc, ◌+◌, ◌-◌, ◌*◌, ◌<◌, ◌≤◌, ◌≡◌, ◌≢◌, refl, ◌∙◌, arith, ◌==◌, if◌then◌else◌, ◌||◌, ◌⊎◌,
  inl, inr, Bool-cases, uint32, ne→==,
}
use Prim.Native.Nat.{bit_or}
use native.Mathlib.Decide.{ℕ_discrete}
use advance_synchronization.WaitQueue.{num_ids}
use advance_synchronization.Paging.{
  Paging, set_pdir_entry_identity, set_ptbl_entry_identity, identity_perm, is_kernel_pde,
  userlo_pde, userhi_pde, pt_perm_ptu, identity_entries, identity_tables, idptbl_init, init_pde,
  init_directory, init_directories, pdir_init, identity_directory, pdir_init_kern,
}

-- The word of a directory entry that leads to the identity table of that entry.
abbrev pub identity : Paging → ℕ → ℕ
identity s e = bit_or (uint32 (s.idptbl + e * 4096)) pt_perm_ptu

identity_entries-rest :
    (n i e : ℕ) (s : Paging)
    → ((identity_entries n i e s).pdir ≡ s.pdir) × ((identity_entries n i e s).idptbl ≡ s.idptbl)
unfolding identity_entries
identity_entries-rest zero i e s = (refl, refl)
identity_entries-rest (suc n) i e s =
    identity_entries-rest n (i + 1) e (set_ptbl_entry_identity s e i (identity_perm e))

identity_tables-rest : (n e : ℕ) (s : Paging) → (identity_tables n e s).idptbl ≡ s.idptbl
unfolding identity_tables
identity_tables-rest zero e s = refl
identity_tables-rest (suc n) e s =
    identity_tables-rest n (e + 1) (identity_entries 1024 0 e s)
    ∙ (identity_entries-rest 1024 0 e s).1

init_directory-idptbl : (n e p : ℕ) (s : Paging) → (init_directory n e p s).idptbl ≡ s.idptbl
unfolding init_directory
init_directory-idptbl zero e p s = refl
init_directory-idptbl (suc n) e p s =
    init_directory-idptbl n (e + 1) p (init_pde s p e) ∙ ground arith

-- Entries before `e`, and other processes, are left alone.
init_directory-other :
    (n e p : ℕ) (s : Paging) (q d : ℕ)
    → (p ≢ q) ⊎ (d < e)
    → (init_directory n e p s).pdir q d ≡ s.pdir q d
unfolding init_directory
init_directory-other zero e p s q d h = refl
init_directory-other (suc n) e p s q d h =
    init_directory-other n (e + 1) p (init_pde s p e) q d (ground arith) ∙ ground arith

init_directory_lem :
    (n e p : ℕ) (s : Paging) (d : ℕ)
    → e ≤ d
    → d < e + n
    → (init_directory n e p s).pdir p d ≡ (if is_kernel_pde d then identity s d else 0)
unfolding init_directory
init_directory_lem zero e p s d l h = absurd (omega arith)
init_directory_lem (suc n) e p s d l h = elim (ℕ_discrete d e) [
  | yes k ↦
      rw k
        (init_directory-other n (e + 1) p (init_pde s p e) p e (inr (omega arith)) ∙ ground arith)
  | no m ↦
      init_directory_lem n (e + 1) p (init_pde s p e) d (omega arith) (omega arith) ∙ ground arith
]

init_directories-idptbl : (n p : ℕ) (s : Paging) → (init_directories n p s).idptbl ≡ s.idptbl
unfolding init_directories
init_directories-idptbl zero p s = refl
init_directories-idptbl (suc n) p s =
    init_directories-idptbl n (p + 1) (init_directory 1024 0 p s) ∙ init_directory-idptbl 1024 0 p s

init_directories-below :
    (n p : ℕ) (s : Paging) (q d : ℕ) → q < p → (init_directories n p s).pdir q d ≡ s.pdir q d
unfolding init_directories
init_directories-below zero p s q d l = refl
init_directories-below (suc n) p s q d l =
    init_directories-below n (p + 1) (init_directory 1024 0 p s) q d (omega arith)
    ∙ init_directory-other 1024 0 p s q d (inl (λ e. omega arith))

init_directories_lem :
    (n p : ℕ) (s : Paging) (q d : ℕ)
    → p ≤ q
    → q < p + n
    → d < 1024
    → (init_directories n p s).pdir q d ≡ (if is_kernel_pde d then identity s d else 0)
unfolding init_directories
init_directories_lem zero p s q d l h k = absurd (omega arith)
init_directories_lem (suc n) p s q d l h k = elim (ℕ_discrete q p) [
  | yes e ↦ rw e (
      init_directories-below n (p + 1) (init_directory 1024 0 p s) p d (omega arith)
      ∙ init_directory_lem 1024 0 p s d (omega arith) (omega arith))
  | no m ↦
      init_directories_lem n (p + 1) (init_directory 1024 0 p s) q d (omega arith) (omega arith) k
      ∙ rw (init_directory-idptbl 1024 0 p s) refl
]

identity_directory-other :
    (n e : ℕ) (s : Paging) (q d : ℕ)
    → (q ≢ 0) ⊎ ((d < e) ⊎ (e + n ≤ d))
    → (identity_directory n e s).pdir q d ≡ s.pdir q d
unfolding identity_directory
identity_directory-other zero e s q d h = refl
identity_directory-other (suc n) e s q d h =
    identity_directory-other n (e + 1) (set_pdir_entry_identity s 0 e) q d (ground arith)
    ∙ ground arith

identity_directory_lem :
    (n e : ℕ) (s : Paging) (d : ℕ)
    → e ≤ d
    → d < e + n
    → (identity_directory n e s).pdir 0 d ≡ identity s d
unfolding identity_directory
identity_directory_lem zero e s d l h = absurd (omega arith)
identity_directory_lem (suc n) e s d l h = elim (ℕ_discrete d e) [
  | yes k ↦ rw k (
      identity_directory-other n (e + 1) (set_pdir_entry_identity s 0 e) 0 e
        (inr (inl (omega arith)))
      ∙ ground arith)
  | no m ↦
      identity_directory_lem n (e + 1) (set_pdir_entry_identity s 0 e) d (omega arith) (omega arith)
]

kernel_directory :
    (s b : Paging) (q d : ℕ)
    → b.idptbl ≡ s.idptbl
    → b.pdir q d ≡ (if is_kernel_pde d then identity s d else 0)
    → (identity_directory (userhi_pde - userlo_pde) userlo_pde b).pdir q d
      ≡ (if is_kernel_pde d || q == 0 then identity s d else 0)
kernel_directory s b q d same before = elim (Bool-cases (is_kernel_pde d)) [
  | inl y ↦ identity_directory-other _ userlo_pde b q d (inr (ground arith)) ∙ before ∙ rw y refl
  | inr k ↦ elim (ℕ_discrete q 0) [
    | yes e ↦
        rw (k, e)
          (identity_directory_lem (userhi_pde - userlo_pde) userlo_pde b d (ground arith)
              (ground arith)
            ∙ rw same refl)
    | no ne ↦
        identity_directory-other _ userlo_pde b q d (inl ne) ∙ before ∙ rw (k, ne→== _ _ ne) refl
  ]
]

-- After `pdir_init_kern`, whatever the memory held, the directory of each process leads to the identity
-- tables in the kernel's part, and in the users' part that of process 0 does and those of the others
-- are empty.
pub pdir_init_kern_lem :
    (s : Paging) (q d : ℕ)
    → q < num_ids
    → d < 1024
    → (pdir_init_kern s).pdir q d ≡ (if is_kernel_pde d || q == 0 then identity s d else 0)
unfolding pdir_init_kern pdir_init idptbl_init
pdir_init_kern_lem s q d l h =
    let base = identity_tables 1024 0 s in
    kernel_directory s (init_directories num_ids 0 base) q d
      (init_directories-idptbl num_ids 0 base ∙ identity_tables-rest 1024 0 s)
      (init_directories_lem num_ids 0 base q d (omega arith) (omega arith) h
        ∙ rw (identity_tables-rest 1024 0 s) refl)
