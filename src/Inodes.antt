-- ===== src/Inodes.antt =====
-- Inodes and their content: mcertikos/kern/fs/inode.c, over the log and the block bitmap.
pub mod Data
pub mod Bytes
pub mod Volume
pub mod Entries
pub mod Fresh
pub mod Mapping
pub mod Indirect
pub mod Bmap
pub mod Replacing
pub mod Writing
pub mod Recorded
pub mod Saving
pub mod There
pub mod Reading
pub mod Overwriting
pub mod Cache
pub mod Finding
pub mod Slots
pub mod Stored
use advance_synchronization.Base.{
  ℕ, zero, suc, ◌+◌, ◌-◌, ◌*◌, ◌/◌, ◌%◌, ◌^◌, ◌==◌, ltb, leb, if◌then◌else◌, Bool, true, false, not,
  ◌&&◌, ◌||◌, ℤ, pos, negsuc, minus_one, Option, none, some, update,
}
use advance_synchronization.Log.{Block, Log, sb_ninodes, set_data, log_write}
use advance_synchronization.Flock.{Flock}
use advance_synchronization.Blocks.{ipb, block_alloc, block_free, read_superblock}

-- NDIRECT, NINDIRECT and MAXFILE of kern/fs/dinode.h.
abbrev pub ndirect : ℕ
ndirect = 12

abbrev pub nindirect : ℕ
nindirect = 512 / 4

abbrev pub maxfile : ℕ
maxfile = ndirect + nindirect

-- The file types of kern/fs/stat.h.
abbrev pub t_dir : ℕ
t_dir = 1

abbrev pub t_dev : ℕ
t_dev = 3

-- NDEV of kern/fs/params.h.
abbrev pub ndev : ℕ
ndev = 10

-- `struct inode`; a field of 16 bits is its bit pattern, and the flags I_BUSY and I_VALID are Boolean.
pub record Inode : Type 0 where
  pub dev : ℕ
  pub inum : ℕ
  pub ref : ℕ
  pub busy : Bool
  pub valid : Bool
  pub kind : ℕ
  pub major : ℕ
  pub minor : ℕ
  pub nlink : ℕ
  pub size : ℕ
  pub addrs : ℕ → ℕ
  pub flock : Flock

-- IBLOCK
abbrev pub iblock : ℕ → ℕ
iblock i = i / ipb + 2

-- The words of a `struct dinode`, which has 64 bytes.
abbrev pub dinode_word : Inode → ℕ → ℕ
dinode_word ip w =
    if w == 0
    then ip.kind + ip.major * 2 ^ 16
    else if w == 1
    then ip.minor + ip.nlink * 2 ^ 16
    else if w == 2
    then ip.size
    else ip.addrs (w - 3)

-- The block of inodes with the words of `ip` at its place.
unfoldable pub put_dinode : Block → Inode → Block
put_dinode b ip w =
    let base = ip.inum % ipb * 16 in
    if leb base w && ltb w (base + 16) then dinode_word ip (w - base) else b w

-- The fields that `inode_lock` reads from the block of inodes.
unfoldable pub get_dinode : Block → Inode → Inode
get_dinode b ip =
    let base = ip.inum % ipb * 16 in
    record ip {
      kind = b base % 2 ^ 16;
      major = b base / 2 ^ 16;
      minor = b (base + 1) % 2 ^ 16;
      nlink = b (base + 1) / 2 ^ 16;
      size = b (base + 2);
      addrs = λ i. b (base + 3 + i);
    }

-- In what follows `none` is KERN_PANIC.
unfoldable pub inode_update : Log → Inode → Option Log
inode_update l ip = let s = iblock ip.inum in log_write (set_data l s (put_dinode (l.view s) ip)) s

-- A place for the address of a block, allocated if it is zero.
unfoldable pub block_or_alloc : Log → ℕ → Option (Log × ℕ)
block_or_alloc l addr = if addr == 0 then block_alloc l else some (l, addr)

-- `bmap` below NDIRECT.
unfoldable pub bmap_direct : Log → Inode → ℕ → Option (Log × Inode × ℕ)
unfolding block_or_alloc
bmap_direct l ip bn = elim (block_or_alloc l (ip.addrs bn)) [
  | none ↦ none
  | some (l', addr) ↦ some (l', record ip { addrs = update ip.addrs bn addr }, addr)
]

-- Entry `bn` of the indirect block `ind`.
unfoldable pub bmap_entry : Log → ℕ → ℕ → Option (Log × ℕ)
bmap_entry l ind bn =
    let addr = l.view ind bn in
    if addr == 0
    then elim (block_alloc l) [
      | none ↦ none
      | some (l1, a) ↦ elim (log_write (set_data l1 ind (update (l1.view ind) bn a)) ind) [
        | none ↦ none
        | some l2 ↦ some (l2, a)
      ]
    ]
    else some (l, addr)

unfoldable pub bmap_indirect : Log → Inode → ℕ → Option (Log × Inode × ℕ)
unfolding bmap_direct bmap_entry
bmap_indirect l ip bn = elim (bmap_direct l ip ndirect) [
  | none ↦ none
  | some (l1, ip1, ind) ↦ elim (bmap_entry l1 ind bn) [
    | none ↦ none
    | some (l2, addr) ↦ some (l2, ip1, addr)
  ]
]

unfoldable pub bmap : Log → Inode → ℕ → Option (Log × Inode × ℕ)
unfolding bmap_direct bmap_indirect
bmap l ip bn =
    if ltb bn ndirect
    then bmap_direct l ip bn
    else if ltb (bn - ndirect) nindirect
    then bmap_indirect l ip (bn - ndirect)
    else none

-- The loop of `inode_trunc` over the entries of a table from `i` on, with `k` left.
unfoldable pub free_blocks : ℕ → ℕ → Log → (ℕ → ℕ) → Option Log
free_blocks zero i l a = some l
free_blocks (suc k) i l a =
    let rest = free_blocks k (i + 1) l a in
    if a i == 0
    then rest
    else elim (block_free l (a i)) [ none ↦ none | some l' ↦ free_blocks k (i + 1) l' a ]

-- What `inode_trunc` does with the indirect block.
unfoldable pub free_indirect : Log → ℕ → Option Log
unfolding free_blocks
free_indirect l ind =
    if ind == 0
    then some l
    else elim (free_blocks nindirect 0 l (l.view ind)) [ none ↦ none | some l' ↦ block_free l' ind ]

unfoldable pub inode_trunc : Log → Inode → Option (Log × Inode)
unfolding free_blocks free_indirect
inode_trunc l ip = elim (free_blocks ndirect 0 l ip.addrs) [
  | none ↦ none
  | some l1 ↦ elim (free_indirect l1 (ip.addrs ndirect)) [
    | none ↦ none
    | some l2 ↦
        let ip' = record ip { size = 0; addrs = λ i. if leb i ndirect then 0 else ip.addrs i } in
        elim (inode_update l2 ip') [ none ↦ none | some l3 ↦ some (l3, ip') ]
  ]
]
