-- ===== src/Examples/Names.antt =====
-- The path ///a//bb.
use advance_synchronization.Base.{ℕ, ◌≡◌, refl, List, [], ◌∷◌, some}
use advance_synchronization.Paths.{skipelem, skip_slashes, copy_element}

abbrev two_elements : List ℕ
two_elements = 47 ∷ 47 ∷ 47 ∷ 97 ∷ 47 ∷ 47 ∷ 98 ∷ 98 ∷ []

-- The example in the comment of the function.
second_element : skipelem two_elements ≡ some (98 ∷ 98 ∷ [], 97 ∷ [])
unfolding skipelem skip_slashes copy_element
second_element = refl
