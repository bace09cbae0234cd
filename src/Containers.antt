-- ===== src/Containers.antt =====
-- Memory quotas of processes: mcertikos/kern/pmm/MContainer/MContainer.c, with the part of
-- `kctx_new` (mcertikos/kern/thread/PKCtxNew/PKCtxNew.c) and of `sys_spawn` (mcertikos/kern/trap/
-- TSyscall/TSyscall.c) that creates a container. Each function runs with the lock of its container held.
pub mod Tree
pub mod Quota
pub mod Spawn
pub mod Boot
use advance_synchronization.Base.{
  ℕ, zero, suc, ◌+◌, ◌-◌, ◌*◌, ◌%◌, ◌^◌, ◌==◌, ltb, leb, if◌then◌else◌, Bool, true, false, not,
  ◌&&◌, ◌||◌, update, uint32,
}
use advance_synchronization.WaitQueue.{num_ids}
use advance_synchronization.Pages.{Memory, is_free, palloc, pfree, at_is_allocated}

-- MAX_CHILDREN of kern/lib/x86.h.
abbrev pub max_children : ℕ
max_children = 3

-- `struct SContainer`. The fields are 32-bit ints, kept as words below 2 ^ 32.
pub record Container : Type 0 where
  pub quota : ℕ
  pub usage : ℕ
  pub parent : ℕ
  pub nchildren : ℕ
  pub used : ℕ

-- `a <= b` for two words read as ints.
abbrev pub int_leb : ℕ → ℕ → Bool
int_leb a b = leb (uint32 (a + 2 ^ 31)) (uint32 (b + 2 ^ 31))

-- The loop of `container_init` from `idx` on, with `n` rounds left.
unfoldable pub quota_from : ℕ → ℕ → Memory → ℕ → ℕ
quota_from zero idx m total = total
quota_from (suc n) idx m total =
    quota_from n (idx + 1) m (if is_free m idx then uint32 (total + 1) else total)

-- `container_init` after `pmem_init`.
unfoldable pub container_init : Memory → (ℕ → Container) → ℕ → Container
container_init m c = update c 0 (record {
  quota = quota_from (m.nps - 1) 1 m 0;
  usage = 0;
  parent = 0;
  nchildren = 0;
  used = 1;
})

-- Unsigned arithmetic: `usage` and `quota` are converted to the type of `n`.
unfoldable pub container_can_consume : (ℕ → Container) → ℕ → ℕ → Bool
container_can_consume c id n = leb (uint32 ((c id).usage + n)) (c id).quota

abbrev pub split_child : ℕ → ℕ → Container
split_child id quota = record { quota = quota; usage = 0; parent = id; nchildren = 0; used = 1 }

-- `CONTAINER[id].usage += quota; CONTAINER[id].nchildren++;`
abbrev pub charge : Container → ℕ → Container
charge p quota = record p { usage = uint32 (p.usage + quota); nchildren = uint32 (p.nchildren + 1) }

unfoldable pub container_split : (ℕ → Container) → ℕ → ℕ → (ℕ → Container) × ℕ
container_split c id quota =
    let child = uint32 (id * max_children + 1 + (c id).nchildren) in
    if leb num_ids child then (c, num_ids) else (
      (let c' = update c child (split_child id quota) in update c' id (charge (c' id) quota)),
      child,
    )

-- The containers, the page table and the page that is returned.
unfoldable pub container_alloc : (ℕ → Container) → Memory → ℕ → (ℕ → Container) × Memory × ℕ
container_alloc c m id =
    if int_leb (uint32 ((c id).usage + 1)) (c id).quota
    then (let (m', page) = palloc m in
        (update c id (record (c id) { usage = uint32 ((c id).usage + 1) }), m', page))
    else (c, m, 0)

-- `usage > 0` as an int; then `usage - 1` does not wrap.
unfoldable pub container_free : (ℕ → Container) → Memory → ℕ → ℕ → (ℕ → Container) × Memory
container_free c m id page =
    if not (at_is_allocated m page == 0)
    then (
      if not (int_leb (c id).usage 0)
          then update c id (record (c id) { usage = (c id).usage - 1 })
          else c,
      pfree m page,
    )
    else (c, m)

-- The part of `kctx_new` that gives the child its container.
unfoldable pub kctx_new : (ℕ → Container) → ℕ → ℕ → (ℕ → Container) × ℕ
kctx_new c id quota =
    if container_can_consume c id quota then container_split c id quota else (c, num_ids)

-- The error numbers that `sys_spawn` gives.
pub data SpawnError : Type 0 where
  e_succ e_exceeds_quota e_max_num_childen_reached e_inval_child_id e_inval_pid : SpawnError

-- The containers after `sys_spawn`, the error number and the result, for the binary `elf_id`.
unfoldable pub sys_spawn : (ℕ → Container) → ℕ → ℕ → ℕ → (ℕ → Container) × SpawnError × ℕ
sys_spawn c curid elf_id quota =
    if not (container_can_consume c curid quota)
    then (c, e_exceeds_quota, num_ids)
    else if ltb num_ids (uint32 (curid * max_children + 1 + max_children))
    then (c, e_max_num_childen_reached, num_ids)
    else if (c curid).nchildren == max_children
    then (c, e_inval_child_id, num_ids)
    else if elf_id == 0 || ltb 7 elf_id
    then (c, e_inval_pid, num_ids)
    else (let (c', pid) = kctx_new c curid quota in
        if pid == num_ids then (c', e_inval_pid, num_ids) else (c', e_succ, pid))
