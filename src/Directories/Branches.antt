-- ===== src/Directories/Branches.antt =====
-- The two ends of `dir_link`, and what follows from the equation of its result.
use advance_synchronization.Base.{
  ℕ, suc, ◌+◌, ◌%◌, ◌<◌, ◌≡◌, ◌≢◌, refl, sym, ap, ◌∙◌, arith, ◌==◌, if◌then◌else◌, update, eq→==,
  ne→==, Option, none, some, bind, bind-some, ℤ, pos, negsuc, minus_one,
}
use native.Mathlib.Decide.{ℕ_discrete}
use advance_synchronization.Log.{Log}
use advance_synchronization.Inodes.{Inode}
use advance_synchronization.Inodes.Data.{Devsw, inode_write}
use advance_synchronization.Inodes.Cache.{Slots, inode_put}
use advance_synchronization.Directories.{
  dirent_size, is_dirent, free_from, dir_lookup, dir_link, new_dirent,
}
use advance_synchronization.Directories.Link.{new_dirent-bytes}

module _ (devsw : Devsw) (l : Log) (slots : Slots) (dp : ℕ) (name : ℕ → ℕ) (inum : ℕ) where
  -- Where the name is there already.
  pub link-taken :
      (o : ℕ) (got : Option (Slots × ℕ))
      → dir_lookup devsw l slots dp name
        ≡ bind got (λ (q : Slots × ℕ). some (l, q.0, some (q.1, o)))
      → (l' : Log) (slots' : Slots) → dir_link devsw l slots dp name inum ≢ some (l', slots', pos 0)
  unfolding dir_link
  link-taken o none e l' slots' f =
      let g : dir_link devsw l slots dp name inum ≡ none = rw (dir_link, e) refl in cc
  link-taken o (some (slots1, i)) e l' slots' f =
      let g : dir_link devsw l slots dp name inum
          ≡ bind (inode_put l slots1 i) (λ (q : Log × Slots). some (q.0, q.1, minus_one)) =
        rw (dir_link, e) refl in
      let ((l2, slots2), e1, e2) =
        bind-some (inode_put l slots1 i) _ (l', slots', pos 0) (sym g ∙ f) in
      cc

  pub link-free :
      (o : ℕ)
      → dir_lookup devsw l slots dp name ≡ some (l, slots, none)
      → free_from (suc (slots dp).size) devsw l slots dp 0 ≡ some (l, slots, o)
      → dir_link devsw l slots dp name inum
        ≡ bind
            (inode_write devsw l (slots dp) (new_dirent inum name) 0 o dirent_size)
            (λ (q : Log × Inode × ℤ).
              if is_dirent q.2 then some (q.0, update slots dp q.1, pos 0) else none)
  unfolding dir_link
  link-free o e f = rw (dir_link, e, f) refl

-- An entry of the longer directory that is not the new one stood in the old one.
pub whole_before :
    (p o size size' : ℕ)
    → size % dirent_size ≡ 0
    → p % dirent_size ≡ 0
    → o % dirent_size ≡ 0
    → p ≢ o
    → p < size'
    → size' ≡ (if size == o then o + dirent_size else size)
    → p < size
whole_before p o size size' a b c n k e = ground arith

pub new_byte :
    (inum : ℕ) (name : ℕ → ℕ)
    → ((j : ℕ) → name j < 256)
    → (i : ℕ) → new_dirent inum name (0 + i) % 256 ≡ new_dirent inum name i
new_byte inum name h i =
    let same : 0 + i ≡ i = omega arith in
    ap (λ x. new_dirent inum name x % 256) same ∙ omega (arith, new_dirent-bytes inum name h i)

pub wrote :
    (l1 l' : Log) (ip1 : Inode) (slots slots' : Slots) (dp : ℕ) (r : ℤ)
    → if◌then◌else◌ {A = Option (Log × Slots × ℤ)}
        (is_dirent r)
        (some (l1, update slots dp ip1, pos 0))
        none
      ≡ some (l', slots', pos 0)
    → (r ≡ pos dirent_size) × (l1 ≡ l') × (update slots dp ip1 ≡ slots')
wrote l1 l' ip1 slots slots' dp (pos n) e = elim (ℕ_discrete n dirent_size) [
  | yes q ↦
      let f : ◌≡◌ {A = Option (Log × Slots × ℤ)} (some (l1, update slots dp ip1, pos 0))
          (some (l', slots', pos 0)) =
        sym (
          ap
            (λ t.
              if◌then◌else◌ {A = Option (Log × Slots × ℤ)} t (some (l1, update slots dp ip1, pos 0))
                none)
            (eq→== n dirent_size q))
        ∙ e in
      (ap pos q, cc, cc)
  | no q ↦ cc (e, ne→== n dirent_size q)
]
wrote l1 l' ip1 slots slots' dp (negsuc n) e = cc
