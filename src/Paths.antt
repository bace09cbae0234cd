-- ===== src/Paths.antt =====
-- The elements of a path: `skipelem` of mcertikos/kern/fs/path.c. A string is the list of its characters
-- before the '\0'.
pub mod Elements
use advance_synchronization.Base.{
  ℕ, zero, suc, ◌+◌, ◌-◌, ◌==◌, ltb, if◌then◌else◌, Bool, true, false, not, List, [], ◌∷◌, ◌++◌,
  Option, none, some,
}

-- DIRSIZ of kern/fs/dir.h.
abbrev pub dirsiz : ℕ
dirsiz = 14

abbrev pub slash : ℕ
slash = 47

-- `while (*path == '/') path++;`
unfoldable pub skip_slashes : List ℕ → List ℕ
skip_slashes [] = []
skip_slashes (c ∷ cs) = let rest = skip_slashes cs in if c == slash then rest else c ∷ cs

-- The loop that copies the element: what is left of the path, and `name` from `len` on.
unfoldable pub copy_element : List ℕ → ℕ → List ℕ × List ℕ
copy_element [] len = ([], [])
copy_element (c ∷ cs) len =
    let (full_rest, dropped) = copy_element cs len in
    let (rest, copied) = copy_element cs (len + 1) in
    if c == slash
    then (c ∷ cs, [])
    else if ltb len (dirsiz - 1)
    then (rest, c ∷ copied)
    else (full_rest, dropped)

abbrev pub is_empty : List ℕ → Bool
is_empty [] = true
is_empty (c ∷ cs) = false

-- The path behind the element, and `name`; `none` is NULL.
unfoldable pub skipelem : List ℕ → Option (List ℕ × List ℕ)
skipelem path =
    let start = skip_slashes path in
    let (rest, name) = copy_element start 0 in
    if is_empty start then none else some (skip_slashes rest, name)
