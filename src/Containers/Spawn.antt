-- ===== src/Containers/Spawn.antt =====
-- `sys_spawn` moves quota from a container to a new child, and no quota is made or lost.
use advance_synchronization.Base.{
  ℕ, ◌+◌, ◌*◌, ◌<◌, ◌≤◌, ◌≡◌, ◌≢◌, ◌==◌, ltb, uint32, Bool, not, ◌&&◌, ◌||◌, update, ◌⊎◌,
}
use advance_synchronization.WaitQueue.{num_ids}
use advance_synchronization.Containers.{
  Container, max_children, split_child, charge, container_can_consume, SpawnError, e_succ,
}
use advance_synchronization.Containers.Tree.{IsTree, new_child}
use advance_synchronization.Containers.Quota.{IsWithin}

module _ {c : ℕ → Container} (id n : ℕ) (v : IsTree c) (w : IsWithin c) (used : (c id).used ≢ 0)
    (room : (c id).nchildren < max_children) (fits : (c id).usage + n ≤ (c id).quota) where
  child : ℕ
  child = new_child id n v used room

  abbrev given : ℕ → Container
  given = update c (new_child id n v used room) (split_child id n)

-- What `sys_spawn` promises: a container that was not in use, below the caller and with the quota asked
-- for, or an error without a change.
abbrev pub Spawned : (ℕ → Container) → ℕ → ℕ → (ℕ → Container) × SpawnError × ℕ → Type 0
Spawned c id n (c', err, pid) =
    ((err ≡ e_succ)
      × (pid < num_ids)
      × ((c pid).used ≡ 0)
      × (c' pid ≡ split_child id n)
      × (c' id ≡ charge (c id) n))
    ⊎ ((err ≢ e_succ) × (pid ≡ num_ids) × (c' ≡ c))

abbrev passes : (ℕ → Container) → ℕ → ℕ → ℕ → Bool
passes c id elf n =
    container_can_consume c id n
    && (not (ltb num_ids (uint32 (id * max_children + 1 + max_children)))
        && (not ((c id).nchildren == max_children) && not (elf == 0 || ltb 7 elf)))
