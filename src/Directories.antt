-- ===== src/Directories.antt =====
-- Directories: mcertikos/kern/fs/dir.c, over the inodes, with strncmp and strncpy of mcertikos/kern/lib/string.c.
-- A string is a function from the index to the byte, and a pointer to an inode is the index of its slot.
pub mod Names
pub mod Lookup
pub mod Link
pub mod Branches
pub mod Linked
use advance_synchronization.Base.{
  ℕ, zero, suc, ◌+◌, ◌-◌, ◌*◌, ◌/◌, ◌%◌, ◌^◌, ◌==◌, ltb, leb, if◌then◌else◌, Bool, true, false, not,
  ◌&&◌, ◌||◌, ℤ, pos, negsuc, minus_one, Option, none, some, update,
}
use advance_synchronization.Log.{Log}
use advance_synchronization.Paths.{dirsiz}
use advance_synchronization.Inodes.{Inode, t_dir}
use advance_synchronization.Inodes.Data.{Devsw, inode_read, inode_write}
use advance_synchronization.Inodes.Cache.{Slots, inode_get, inode_put}

-- `(unsigned char) *p - (unsigned char) *q`
abbrev pub difference : ℕ → ℕ → ℤ
difference a b = if leb b a then pos (a - b) else negsuc (b - a - 1)

-- `strncmp` from index `i` on, with `k` characters left.
unfoldable pub strncmp : ℕ → ℕ → (ℕ → ℕ) → (ℕ → ℕ) → ℤ
strncmp zero i p q = pos 0
strncmp (suc k) i p q =
    let rest = strncmp k (i + 1) p q in
    if p i == 0 || not (p i == q i) then difference (p i) (q i) else rest

-- Both loops of `strncpy` from index `i` on, with `k` characters left, where `ended` says that the second loop runs.
unfoldable pub strncpy : ℕ → ℕ → Bool → (ℕ → ℕ) → (ℕ → ℕ) → ℕ → ℕ
strncpy zero i ended s t = s
strncpy (suc k) i ended s t =
    let c = if ended then 0 else t i in strncpy k (i + 1) (ended || c == 0) (update s i c) t

abbrev pub is_zero : ℤ → Bool
is_zero (pos n) = n == 0
is_zero (negsuc n) = false

-- `dir_namecmp(s, t) == 0`
unfoldable pub same_name : (ℕ → ℕ) → (ℕ → ℕ) → Bool
unfolding strncmp
same_name s t = is_zero (strncmp dirsiz 0 s t)

-- `sizeof(struct dirent)`
abbrev pub dirent_size : ℕ
dirent_size = 16

-- `de.inum` and `de.name`, where `de` is 16 bytes of memory.
abbrev pub dirent_inum : (ℕ → ℕ) → ℕ
dirent_inum de = de 0 + de 1 * 256

abbrev pub dirent_name : (ℕ → ℕ) → ℕ → ℕ
dirent_name de i = de (2 + i)

-- `KERN_ASSERT(... == sizeof(struct dirent))`
abbrev pub is_dirent : ℤ → Bool
is_dirent (pos n) = n == dirent_size
is_dirent (negsuc n) = false

-- The call of `inode_read` for the entry at the offset; here and below, the outer `none` is KERN_PANIC. The
-- bytes of `de` before the call do not matter, since all are read.
unfoldable pub read_dirent : Devsw → Log → Inode → ℕ → Option (Log × Inode × (ℕ → ℕ))
read_dirent devsw l dp off = elim (inode_read devsw l dp (λ i. 0) 0 off dirent_size) [
  | none ↦ none
  | some (l', dp', de, r) ↦ if is_dirent r then some (l', dp', de) else none
]

-- `dir_namecmp(de.name, name) == 0 && de.inum != 0`
abbrev pub is_match : (ℕ → ℕ) → (ℕ → ℕ) → Bool
is_match de name = same_name (dirent_name de) name && not (dirent_inum de == 0)

-- The loop of `dir_lookup`; the inner `none` is NULL, and otherwise the slot of the inode and `*poff` are given.
unfoldable pub lookup_from :
    ℕ → Devsw → Log → Slots → ℕ → (ℕ → ℕ) → ℕ → Option (Log × Slots × Option (ℕ × ℕ))
unfolding read_dirent
lookup_from zero devsw l slots dp name off = none
lookup_from (suc k) devsw l slots dp name off =
    if ltb off (slots dp).size
    then elim (read_dirent devsw l (slots dp) off) [
      | none ↦ none
      | some (l', ip, de) ↦
          let slots' = update slots dp ip in
          let rest = lookup_from k devsw l' slots' dp name ((off + dirent_size) % 2 ^ 32) in
          if is_match de name
          then elim (inode_get slots' ip.dev (dirent_inum de)) [
            | none ↦ none
            | some (slots'', i) ↦ some (l', slots'', some (i, off))
          ]
          else rest
    ]
    else some (l, slots, none)

unfoldable pub dir_lookup :
    Devsw → Log → Slots → ℕ → (ℕ → ℕ) → Option (Log × Slots × Option (ℕ × ℕ))
unfolding lookup_from
dir_lookup devsw l slots dp name =
    if (slots dp).kind == t_dir
    then lookup_from (suc (slots dp).size) devsw l slots dp name 0
    else none

-- The loop of `dir_link` that looks for an empty entry.
unfoldable pub free_from : ℕ → Devsw → Log → Slots → ℕ → ℕ → Option (Log × Slots × ℕ)
unfolding read_dirent
free_from zero devsw l slots dp off = none
free_from (suc k) devsw l slots dp off =
    if ltb off (slots dp).size
    then elim (read_dirent devsw l (slots dp) off) [
      | none ↦ none
      | some (l', ip, de) ↦
          let slots' = update slots dp ip in
          let rest = free_from k devsw l' slots' dp ((off + dirent_size) % 2 ^ 32) in
          if dirent_inum de == 0 then some (l', slots', off) else rest
    ]
    else some (l, slots, off)

-- The entry that `dir_link` writes.
unfoldable pub new_dirent : ℕ → (ℕ → ℕ) → ℕ → ℕ
unfolding strncpy
new_dirent inum name zero = inum % 256
new_dirent inum name (suc zero) = inum / 256 % 256
new_dirent inum name (suc (suc i)) = strncpy dirsiz 0 false (λ j. 0) name i

unfoldable pub dir_link : Devsw → Log → Slots → ℕ → (ℕ → ℕ) → ℕ → Option (Log × Slots × ℤ)
unfolding dir_lookup free_from new_dirent
dir_link devsw l slots dp name inum = elim (dir_lookup devsw l slots dp name) [
  | none ↦ none
  | some (l1, slots1, some (i, off)) ↦ elim (inode_put l1 slots1 i) [
    | none ↦ none
    | some (l2, slots2) ↦ some (l2, slots2, minus_one)
  ]
  | some (l1, slots1, none) ↦ elim (free_from (suc (slots1 dp).size) devsw l1 slots1 dp 0) [
    | none ↦ none
    | some (l2, slots2, off) ↦
        elim (inode_write devsw l2 (slots2 dp) (new_dirent inum name) 0 off dirent_size) [
          | none ↦ none
          | some (l3, ip, r) ↦ if is_dirent r then some (l3, update slots2 dp ip, pos 0) else none
        ]
  ]
]
