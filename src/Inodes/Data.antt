-- ===== src/Inodes/Data.antt =====
-- `inode_read` and `inode_write` of mcertikos/kern/fs/inode.c. Memory that they copy to or from is a
-- function of the address.
use advance_synchronization.Base.{
  ℕ, zero, suc, ◌+◌, ◌-◌, ◌*◌, ◌/◌, ◌%◌, ◌^◌, ◌==◌, ltb, leb, if◌then◌else◌, Bool, ◌&&◌, ◌||◌, ℤ,
  pos, minus_one, Option, none, some, update,
}
use advance_synchronization.Log.{Block, Log, set_data, log_write}
use advance_synchronization.Inodes.{Inode, t_dev, ndev, maxfile, bmap, inode_update}

-- BSIZE of kern/fs/params.h.
abbrev pub bsize : ℕ
bsize = 512

-- Byte `j` of a word, the lowest first.
unfoldable pub get_byte : ℕ → ℕ → ℕ
get_byte zero w = w % 256
get_byte (suc j) w = get_byte j (w / 256)

unfoldable pub set_byte : ℕ → ℕ → ℕ → ℕ
set_byte zero v w = w / 256 * 256 + v % 256
set_byte (suc j) v w = set_byte j v (w / 256) * 256 + w % 256

-- `bp->data[i]`
abbrev pub byte_at : Block → ℕ → ℕ
byte_at b i = get_byte (i % 4) (b (i / 4))

abbrev pub with_byte : Block → ℕ → ℕ → Block
with_byte b i v = update b (i / 4) (set_byte (i % 4) v (b (i / 4)))

-- `memmove(bp->data + at, src, m)`
unfoldable pub copy_in : ℕ → Block → ℕ → (ℕ → ℕ) → Block
copy_in zero b at src = b
copy_in (suc m) b at src = with_byte (copy_in m b at src) (at + m) (src m)

-- `memmove(dst, bp->data + at, m)`
unfoldable pub copy_out : ℕ → (ℕ → ℕ) → ℕ → Block → ℕ → ℕ → ℕ
copy_out zero mem dst b at = mem
copy_out (suc m) mem dst b at = update (copy_out m mem dst b at) (dst + m) (byte_at b (at + m))

-- `devsw`: what the functions of a device of this major number do, where it has them.
pub record Devsw : Type 0 where
  pub read : ℕ → Option ((ℕ → ℕ) → ℕ → ℕ → (ℕ → ℕ) × ℤ)
  pub write : ℕ → Option ((ℕ → ℕ) → ℕ → ℕ → ℤ)

-- `ip->major < 0 || ip->major >= NDEV` for 16 bits with a sign.
abbrev pub no_device : ℕ → Bool
no_device major = leb (2 ^ 15) major || leb ndev major

-- `min(n - tot, BSIZE - off % BSIZE)`
unfoldable pub piece : ℕ → ℕ → ℕ
piece left off = if ltb left (bsize - off % bsize) then left else bsize - off % bsize

-- How a call ends: with the log, the inode, the memory and the value returned; `none` is KERN_PANIC.
abbrev pub Result : Type 0
Result = Option (Log × Inode × (ℕ → ℕ) × ℤ)

-- The loop of `inode_read` with `left` bytes to read, in at most `k` rounds; the value returned is `n`.
unfoldable pub read_from : ℕ → Log → Inode → (ℕ → ℕ) → ℕ → ℕ → ℕ → ℤ → Result
read_from zero l ip mem dst off left n = none
read_from (suc k) l ip mem dst off left n =
    if left == 0 then some (l, ip, mem, n) else elim (bmap l ip (off / bsize)) [
      | none ↦ none
      | some (l', ip', addr) ↦
          let m = piece left off in
          let mem' = copy_out m mem dst (l'.view addr) (off % bsize) in
          read_from k l' ip' mem' (dst + m) (off + m) (left - m) n
    ]

-- The number of bytes to read, up to the end of the file.
unfoldable pub clip : Inode → ℕ → ℕ → ℕ
clip ip off n = if ltb ip.size (off + n) then ip.size - off else n

unfoldable pub inode_read : Devsw → Log → Inode → (ℕ → ℕ) → ℕ → ℕ → ℕ → Result
unfolding read_from clip
inode_read devsw l ip mem dst off n =
    if ip.kind == t_dev
    then (if no_device ip.major then some (l, ip, mem, minus_one) else elim (devsw.read ip.major) [
      | none ↦ some (l, ip, mem, minus_one)
      | some f ↦ (let (mem', r) = f mem dst n in some (l, ip, mem', r))
    ])
    else if ltb ip.size off || ltb ((off + n) % 2 ^ 32) off
    then some (l, ip, mem, minus_one)
    else read_from (suc (clip ip off n)) l ip mem dst off (clip ip off n) (pos (clip ip off n))

-- The loop of `inode_write`: the log, the inode and `off` behind it.
unfoldable pub write_from : ℕ → Log → Inode → (ℕ → ℕ) → ℕ → ℕ → Option (Log × Inode)
write_from zero l ip src off left = none
write_from (suc k) l ip src off left =
    if left == 0 then some (l, ip) else elim (bmap l ip (off / bsize)) [
      | none ↦ none
      | some (l', ip', addr) ↦
          let m = piece left off in
          let b = copy_in m (l'.view addr) (off % bsize) src in
          elim (log_write (set_data l' addr b) addr) [
            | none ↦ none
            | some l'' ↦ write_from k l'' ip' (λ i. src (m + i)) (off + m) (left - m)
          ]
    ]

-- The end of `inode_write`, where `off` is behind the bytes written.
unfoldable pub grow : Log → Inode → ℕ → ℕ → Option (Log × Inode)
grow l ip off n =
    if ltb 0 n && ltb ip.size off
    then (let ip' = record ip { size = off } in
        elim (inode_update l ip') [ none ↦ none | some l' ↦ some (l', ip') ])
    else some (l, ip)

unfoldable pub inode_write : Devsw → Log → Inode → (ℕ → ℕ) → ℕ → ℕ → ℕ → Option (Log × Inode × ℤ)
unfolding write_from grow
inode_write devsw l ip mem src off n =
    if ip.kind == t_dev
    then (if no_device ip.major then some (l, ip, minus_one) else elim (devsw.write ip.major) [
      | none ↦ some (l, ip, minus_one)
      | some f ↦ some (l, ip, f mem src n)
    ])
    else if ltb ip.size off || ltb ((off + n) % 2 ^ 32) off
    then some (l, ip, minus_one)
    else if ltb (maxfile * bsize) ((off + n) % 2 ^ 32)
    then some (l, ip, minus_one)
    else elim (write_from (suc n) l ip (λ i. mem (src + i)) off n) [
      | none ↦ none
      | some (l', ip') ↦ elim (grow l' ip' (off + n) n) [
        | none ↦ none
        | some (l'', ip'') ↦ some (l'', ip'', pos n)
      ]
    ]
