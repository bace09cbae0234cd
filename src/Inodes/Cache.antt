-- ===== src/Inodes/Cache.antt =====
-- The inode cache of mcertikos/kern/fs/inode.c: inode_get, inode_dup, inode_lock, inode_unlock, inode_put,
-- inode_unlockput and inode_alloc. A pointer to an inode is the index of its slot, and each function is what
-- runs between the calls of thread_sleep; inode_lock that has to wait ends with `sleeps` and starts again.
use advance_synchronization.Base.{
  ℕ, zero, suc, ◌+◌, ◌-◌, ◌*◌, ◌%◌, ◌^◌, ◌==◌, ltb, leb, if◌then◌else◌, Bool, true, false, not,
  ◌&&◌, ◌||◌, Option, none, some, update,
}
use advance_synchronization.Log.{Block, Log, sb_ninodes, set_data, log_write}
use advance_synchronization.Flock.{flock_init}
use advance_synchronization.Blocks.{ipb, read_superblock}
use advance_synchronization.Inodes.{Inode, iblock, get_dinode, inode_update, inode_trunc}

-- NINODE of kern/fs/params.h.
abbrev pub ninode : ℕ
ninode = 50

-- `inode_cache.inode`
abbrev pub Slots : Type 0
Slots = ℕ → Inode

pub data Found : Type 0 where
  cached : ℕ → Found
  empty_slot : ℕ → Found
  full : Found

-- `ip->ref > 0 && ip->dev == dev && ip->inum == inum`
abbrev pub is_cached : Inode → ℕ → ℕ → Bool
is_cached ip dev inum = ltb 0 ip.ref && ip.dev == dev && ip.inum == inum

abbrev pub remember : Option ℕ → Inode → ℕ → Option ℕ
remember (some e) ip i = some e
remember none ip i = if ip.ref == 0 then some i else none

-- The loop of `inode_get` from slot `i` on, with `k` slots left.
unfoldable pub find_slot : ℕ → ℕ → Slots → ℕ → ℕ → Option ℕ → Found
find_slot zero i slots dev inum none = full
find_slot zero i slots dev inum (some e) = empty_slot e
find_slot (suc k) i slots dev inum empty =
    let rest = find_slot k (i + 1) slots dev inum (remember empty (slots i) i) in
    if is_cached (slots i) dev inum then cached i else rest

-- Here and below, `none` is KERN_PANIC.
unfoldable pub inode_get : Slots → ℕ → ℕ → Option (Slots × ℕ)
unfolding find_slot
inode_get slots dev inum = elim (find_slot ninode 0 slots dev inum none) [
  | full ↦ none
  | cached i ↦ some (update slots i (record (slots i) { ref = (slots i).ref + 1 }), i)
  | empty_slot i ↦ some (
    update slots i (record (slots i) {
      dev = dev;
      inum = inum;
      ref = 1;
      busy = false;
      valid = false;
      flock = flock_init (slots i).flock;
    }),
    i,
  )
]

unfoldable pub inode_dup : Slots → ℕ → Slots
inode_dup slots i = update slots i (record (slots i) { ref = (slots i).ref + 1 })

pub data Locking : Type 0 where
  panics : Locking
  sleeps : Locking
  locked : Slots → Locking

-- What `inode_lock` does behind the loop, if the inode is not valid.
unfoldable pub load : Log → Inode → Option Inode
load l ip =
    if ip.valid
    then some ip
    else (let ip' = record (get_dinode (l.view (iblock ip.inum)) ip) { valid = true } in
        if ip'.kind == 0 then none else some ip')

unfoldable pub inode_lock : Log → Slots → ℕ → Locking
unfolding load
inode_lock l slots i =
    if ltb (slots i).ref 1
    then panics
    else if (slots i).busy
    then sleeps
    else elim (load l (record (slots i) { busy = true })) [
      | none ↦ panics
      | some ip ↦ locked (update slots i ip)
    ]

unfoldable pub inode_unlock : Slots → ℕ → Option Slots
inode_unlock slots i =
    if not (slots i).busy || ltb (slots i).ref 1
    then none
    else some (update slots i (record (slots i) { busy = false }))

-- The part of `inode_put` for an inode without links.
unfoldable pub free_inode : Log → Inode → Option (Log × Inode)
free_inode l ip = if ip.busy then none else elim (inode_trunc l (record ip { busy = true })) [
  | none ↦ none
  | some (l1, ip1) ↦
      let ip2 = record ip1 { kind = 0 } in
      elim (inode_update l1 ip2) [
        | none ↦ none
        | some l2 ↦ some (l2, record ip2 { busy = false; valid = false })
      ]
]

unfoldable pub inode_put : Log → Slots → ℕ → Option (Log × Slots)
unfolding free_inode
inode_put l slots i =
    let ip = slots i in
    if ip.ref == 1 && ip.valid && ip.nlink == 0
    then elim (free_inode l ip) [
      | none ↦ none
      | some (l', ip') ↦ some (l', update slots i (record ip' { ref = ip'.ref - 1 }))
    ]
    else some (l, update slots i (record ip { ref = ip.ref - 1 }))

unfoldable pub inode_unlockput : Log → Slots → ℕ → Option (Log × Slots)
unfolding inode_unlock inode_put
inode_unlockput l slots i = elim (inode_unlock slots i) [
  | none ↦ none
  | some slots' ↦ inode_put l slots' i
]

-- `dip->type` of inode `inum`.
abbrev pub disk_kind : Block → ℕ → ℕ
disk_kind b inum = b (inum % ipb * 16) % 2 ^ 16

-- The block of inodes with inode `inum` cleared and of the type.
unfoldable pub clear_dinode : Block → ℕ → ℕ → Block
clear_dinode b inum kind w =
    let base = inum % ipb * 16 in
    if w == base then kind else if leb base w && ltb w (base + 16) then 0 else b w

-- The loop of `inode_alloc` from `inum` on, with `k` numbers left.
unfoldable pub find_dinode : ℕ → ℕ → Log → Option ℕ
find_dinode zero inum l = none
find_dinode (suc k) inum l =
    let rest = find_dinode k (inum + 1) l in
    if disk_kind (l.view (iblock inum)) inum == 0 then some inum else rest

unfoldable pub inode_alloc : Log → Slots → ℕ → ℕ → Option (Log × Slots × ℕ)
unfolding find_dinode clear_dinode inode_get
inode_alloc l slots dev kind = elim (find_dinode (sb_ninodes (read_superblock l) - 1) 1 l) [
  | none ↦ none
  | some inum ↦
      let s = iblock inum in
      elim (log_write (set_data l s (clear_dinode (l.view s) inum kind)) s) [
        | none ↦ none
        | some l' ↦ elim (inode_get slots dev inum) [
          | none ↦ none
          | some (slots', i) ↦ some (l', slots', i)
        ]
      ]
]
