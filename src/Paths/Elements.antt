-- ===== src/Paths/Elements.antt =====
-- What `skipelem` takes off a path, and how much of it fits in a name.
use advance_synchronization.Base.{
  ℕ, zero, suc, ◌-◌, ◌≡◌, ◌==◌, Bool, true, false, not, ◌&&◌, List, [], ◌∷◌, ◌++◌,
}
use advance_synchronization.Paths.{dirsiz, slash}

abbrev pub slashes : List ℕ → Bool
slashes [] = true
slashes (c ∷ cs) = c == slash && slashes cs

abbrev pub no_slash : List ℕ → Bool
no_slash [] = true
no_slash (c ∷ cs) = not (c == slash) && no_slash cs

abbrev pub take : ℕ → List ℕ → List ℕ
take zero xs = []
take (suc n) [] = []
take (suc n) (x ∷ xs) = x ∷ take n xs

abbrev pub starts_with_slash : List ℕ → Bool
starts_with_slash [] = false
starts_with_slash (c ∷ cs) = c == slash

-- What `skipelem` takes off a path: the slashes in front, one element, and the slashes behind it.
pub record Taken (path rest name : List ℕ) : Type 0 where
  pub before : List ℕ
  pub element : List ℕ
  pub behind : List ℕ
  pub split : path ≡ before ++ (element ++ (behind ++ rest))
  pub in_front : slashes before ≡ true
  pub one_element : no_slash element ≡ true
  pub between : slashes behind ≡ true
  pub at_next : starts_with_slash rest ≡ false
  pub copied : name ≡ take (dirsiz - 1) element
