-- ===== src/Containers/Tree.antt =====
-- The containers form a tree in which a child's index tells its parent: so `container_split` never
-- gives out an index that is in use.
use advance_synchronization.Base.{
  ℕ, ◌+◌, ◌*◌, ◌<◌, ◌≤◌, ◌≡◌, ◌≢◌, refl, ◌∙◌, arith, uint32, update, ◌⊎◌, inl, inr,
}
use native.Mathlib.Decide.{ℕ_discrete, dec_lt}
use advance_synchronization.WaitQueue.{num_ids}
use advance_synchronization.Containers.{
  Container, max_children, split_child, charge, container_split,
}

-- A used container other than the root is a child, by its index, of a used container.
abbrev pub IsChild : (ℕ → Container) → ℕ → Type 0
IsChild c i =
    ((c (c i).parent).used ≡ 1)
    × ((c i).parent < i)
    × (k : ℕ) × (i ≡ (c i).parent * max_children + 1 + k)
    × (k < (c (c i).parent).nchildren)

pub record IsTree (c : ℕ → Container) : Type 0 where
  pub child : (i : ℕ) → (c i).used ≢ 0 → i ≢ 0 → IsChild c i
  pub few : (i : ℕ) → (c i).nchildren ≤ max_children
  pub small : (i : ℕ) → (c i).used ≢ 0 → i < num_ids
  pub flags : (i : ℕ) → (c i).used ≢ 0 → (c i).used ≡ 1

-- What the split of a container leaves behind.
abbrev pub split_off : (ℕ → Container) → ℕ → ℕ → ℕ → ℕ → Container
split_off c id quota child =
    let c' = update c child (split_child id quota) in update c' id (charge (c' id) quota)

module _ {c : ℕ → Container} (id quota : ℕ) (v : IsTree c) (used : (c id).used ≢ 0)
    (room : (c id).nchildren < max_children) where
  abbrev pub new_child : ℕ
  new_child = id * max_children + 1 + (c id).nchildren

  -- The index of the next child is free.
  pub fresh : (c new_child).used ≡ 0
  fresh = elim (ℕ_discrete (c new_child).used 0) [
    | yes e ↦ e
    | no d ↦
        let (owned, below, k, e, few) = v.child new_child d (λ e. omega arith) in
        absurd (ne_parent k e few)
  ]
    where
      ne_parent :
          (k : ℕ)
          → new_child ≡ (c new_child).parent * max_children + 1 + k
          → k < (c (c new_child).parent).nchildren
          → ⊥
      ne_parent k e few =
          let same : (c new_child).parent ≡ id = omega (arith, v.few (c new_child).parent) in
          let fewer : k < (c id).nchildren = rw same at few in omega arith

  word : uint32 new_child ≡ new_child
  word = omega (arith, v.small id used)

  pub split_fits :
      new_child < num_ids → container_split c id quota ≡ (split_off c id quota new_child, new_child)
  unfolding container_split
  split_fits h = rw word (ground arith)

  pub split_full : num_ids ≤ new_child → container_split c id quota ≡ (c, num_ids)
  unfolding container_split
  split_full h = rw word (ground arith)

  abbrev pub after : ℕ → Container
  after = split_off c id quota new_child

  pub after_child : after new_child ≡ split_child id quota
  after_child = ground arith

  pub after_id : after id ≡ charge (c id) quota
  after_id = ground arith

  pub after_other : (i : ℕ) → i ≢ id → i ≢ new_child → after i ≡ c i
  after_other i d e = ground arith

  -- The fields that no split changes.
  kept :
      (p : ℕ)
      → p ≢ new_child
      → ((after p).used ≡ (c p).used)
        × ((after p).parent ≡ (c p).parent)
        × ((c p).nchildren ≤ (after p).nchildren)
        × ((after p).nchildren ≤ max_children)
  kept p d = ground (arith, v.few p)

  used_ne_child : (p : ℕ) → (c p).used ≢ 0 → p ≢ new_child
  used_ne_child p h e = h (rw e fresh)

  old-IsChild : (i : ℕ) → i ≢ new_child → IsChild c i → IsChild after i
  old-IsChild i d (owned, below, k, e, few) =
      let (u, p, n, m) = kept i d in
      let (u', p', n', m') = kept (c i).parent (used_ne_child (c i).parent (λ z. omega arith)) in
      rw p (u' ∙ owned, below, k, e, omega arith)

  new-IsChild : IsChild after new_child
  new-IsChild =
      rw (after_child, after_id) (v.flags id used, omega arith, (c id).nchildren, refl, omega arith)

  pub split_off-IsTree : new_child < num_ids → IsTree after
  split_off-IsTree fits = record {
    child = λ i h z. elim (ℕ_discrete i new_child) [
      | yes e ↦ rw e new-IsChild
      | no d ↦ old-IsChild i d (v.child i (rw (kept i d).0 at h) z)
    ];
    few = λ i. elim (ℕ_discrete i new_child) [
      | yes e ↦ rw (e, after_child) (omega arith)
      | no d ↦ (kept i d).3
    ];
    small = λ i h. elim (ℕ_discrete i new_child) [
      | yes e ↦ rw e fits
      | no d ↦ v.small i (rw (kept i d).0 at h)
    ];
    flags = λ i h. elim (ℕ_discrete i new_child) [
      | yes e ↦ rw (e, after_child) refl
      | no d ↦ (kept i d).0 ∙ v.flags i (rw (kept i d).0 at h)
    ];
  }

  -- With the containers in a tree and fewer than the most children below `id`, `container_split` either
  -- finds no index for another child and changes nothing, or gives out an index that was not in use,
  -- for a container with that quota, no usage and no children, below `id`; the containers stay a tree.
  pub split-IsTree :
      let (c', child) = container_split c id quota in
      IsTree c'
      × (((child ≡ num_ids) × (c' ≡ c))
          ⊎ ((child < num_ids)
              × ((c child).used ≡ 0)
              × (c' child ≡ split_child id quota)
              × (c' id ≡ charge (c id) quota)))
  split-IsTree = elim (dec_lt new_child num_ids) [
    | yes h ↦ rw (split_fits h) (split_off-IsTree h, inr (h, fresh, after_child, after_id))
    | no n ↦ rw (split_full (omega arith)) (v, inl (refl, refl))
  ]
