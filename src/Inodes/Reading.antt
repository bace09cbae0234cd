-- ===== src/Inodes/Reading.antt =====
-- The loop of `inode_read`, and an `inode_read` behind an `inode_write`.
use advance_synchronization.Base.{
  ℕ, zero, suc, ◌+◌, ◌-◌, ◌/◌, ◌%◌, ◌^◌, ◌<◌, ◌≤◌, ◌≡◌, ◌≢◌, refl, sym, ap, ◌∙◌, arith,
  if◌then◌else◌, ltb, leb, ◌&&◌, ◌||◌, ne→==, some, false, ℤ, pos,
}
use native.Mathlib.Decide.{ℕ_discrete, dec_lt}
use advance_synchronization.Log.{Block, Disk, Log}
use advance_synchronization.Inodes.{Inode, maxfile, t_dev, bmap}
use advance_synchronization.Inodes.Data.{
  byte_at, bsize, copy_out, piece, clip, read_from, inode_read, Devsw,
}
use advance_synchronization.Inodes.Bytes.{copy_out_lem}
use advance_synchronization.Inodes.Entries.{entry, content, IsFile}
use advance_synchronization.Inodes.Writing.{piece_lem}
use advance_synchronization.Inodes.There.{bmap_there}

read_from-zero :
    (k : ℕ) (l : Log) (ip : Inode) (mem : ℕ → ℕ) (dst off : ℕ) (n : ℤ)
    → read_from (suc k) l ip mem dst off 0 n ≡ some (l, ip, mem, n)
unfolding read_from
read_from-zero k l ip mem dst off n = refl

read_from-suc :
    (k : ℕ) (l : Log) (ip : Inode) (mem : ℕ → ℕ) (dst off left b : ℕ) (n : ℤ)
    → left ≢ 0
    → bmap l ip (off / bsize) ≡ some (l, ip, b)
    → read_from (suc k) l ip mem dst off left n
      ≡ read_from k l ip
          (copy_out (piece left off) mem dst (l.view b) (off % bsize))
          (dst + piece left off)
          (off + piece left off)
          (left - piece left off)
          n
unfolding read_from
read_from-suc k l ip mem dst off left b n z e = rw (ne→== left 0 z, e) refl

-- The blocks of the bytes from `off` on are there.
abbrev pub Present : Disk → Inode → ℕ → ℕ → Type 0
Present d ip off left =
    (o : ℕ) → off ≤ o → o < off + left → (o / bsize < maxfile) × (entry d ip (o / bsize) ≢ 0)

join_reads :
    (c2 c1 c0 : ℕ) (held : ℕ → ℕ) (dst off left m i : ℕ)
    → m ≤ left
    → c2 ≡ (
        if leb (dst + m) i && ltb i (dst + m + (left - m))
        then held (off + m + (i - (dst + m)))
        else c1)
    → c1 ≡ (if leb dst i && ltb i (dst + m) then held (off + (i - dst)) else c0)
    → c2 ≡ (if leb dst i && ltb i (dst + left) then held (off + (i - dst)) else c0)
join_reads c2 c1 c0 held dst off left m i h e2 e1 = elim (dec_lt i (dst + m)) [
  | yes k ↦ ground arith
  | no k ↦
      let p : off + m + (i - (dst + m)) ≡ off + (i - dst) = omega arith in ground (arith, ap held p)
]

module _ (l : Log) (ip : Inode) (start : ℕ) (d : Disk)
    (shown : (s : ℕ) → s < start → l.view s ≡ d s) (f : IsFile start d ip) where
  byte_there :
      (off j : ℕ)
      → off / bsize < maxfile
      → entry d ip (off / bsize) ≢ 0
      → off % bsize + j < bsize
      → content d ip (off + j) ≡ byte_at (l.view (entry d ip (off / bsize))) (off % bsize + j)
  byte_there off j small z fits =
      let b = entry d ip (off / bsize) in
      let block : (off + j) / bsize ≡ off / bsize = omega arith in
      let place : (off + j) % bsize ≡ off % bsize + j = omega arith in
      let seen =
        ap (λ (y : Block). byte_at y (off % bsize + j))
          (shown b (f.mapped (off / bsize) small z).before) in
      rw (block, place, ne→== b 0 z) (sym seen)

  -- One round of the loop of `inode_read`.
  round_read :
      (mem : ℕ → ℕ) (dst off m i : ℕ)
      → off / bsize < maxfile
      → entry d ip (off / bsize) ≢ 0
      → off % bsize + m ≤ bsize
      → copy_out m mem dst (l.view (entry d ip (off / bsize))) (off % bsize) i
        ≡ (if leb dst i && ltb i (dst + m) then content d ip (off + (i - dst)) else mem i)
  round_read mem dst off m i small z fits =
      let b = entry d ip (off / bsize) in
      let copied = copy_out_lem m mem dst (l.view b) (off % bsize) i in
      elim (dec_lt i dst) [
        | yes p ↦ ground (arith, copied)
        | no p ↦ elim (dec_lt i (dst + m)) [
          | yes q ↦ ground (arith, copied, byte_there off (i - dst) small z (omega arith))
          | no q ↦ ground (arith, copied)
        ]
      ]

  pub read_from-there :
      (k : ℕ) (mem : ℕ → ℕ) (dst off left : ℕ) (n : ℤ)
      → left < k
      → Present d ip off left
      → (mem' : ℕ → ℕ) × (read_from k l ip mem dst off left n ≡ some (l, ip, mem', n))
        × ((i : ℕ)
            → mem' i
              ≡ (if leb dst i && ltb i (dst + left) then content d ip (off + (i - dst)) else mem i))
  read_from-there zero mem dst off left n h p = absurd (omega arith)
  read_from-there (suc k) mem dst off left n h p = elim (ℕ_discrete left 0) [
    | yes z ↦ (
      mem,
      ap (λ x. read_from (suc k) l ip mem dst off x n) z ∙ read_from-zero k l ip mem dst off n,
      λ i. ground arith,
    )
    | no z ↦
        let m = piece left off in
        let (m_le, fits, pos_m) = piece_lem left off in
        let (small, there) = p off (omega arith) (omega arith) in
        let b = entry d ip (off / bsize) in
        let mem1 = copy_out m mem dst (l.view b) (off % bsize) in
        let (mem2, e, bytes) =
          read_from-there k mem1 (dst + m) (off + m) (left - m) n (omega (arith, pos_m))
            (λ o q r. p o (omega arith) (omega arith)) in
        (
          mem2,
          read_from-suc k l ip mem dst off left b n z
                (bmap_there l ip start d (off / bsize) shown f small there)
              ∙ e,
          λ i.
              join_reads (mem2 i) (mem1 i) (mem i) (content d ip) dst off left m i m_le (bytes i)
                (round_read mem dst off m i small there fits),
        )
  ]

clip-all : (ip : Inode) (off n : ℕ) → off + n ≤ ip.size → clip ip off n ≡ n
unfolding clip
clip-all ip off n h = ground arith

pub read_accepted :
    (devsw : Devsw) (l : Log) (ip : Inode) (mem : ℕ → ℕ) (dst off n : ℕ)
    → ip.kind ≢ t_dev
    → off + n ≤ ip.size
    → off + n < 2 ^ 32
    → inode_read devsw l ip mem dst off n ≡ read_from (suc n) l ip mem dst off n (pos n)
unfolding inode_read
read_accepted devsw l ip mem dst off n plain h small =
    let t : (ltb ip.size off || ltb ((off + n) % 2 ^ 32) off) ≡ false = ground arith in
    rw (ne→== ip.kind t_dev plain, t)
      (ap (λ x. read_from (suc x) l ip mem dst off x (pos x)) (clip-all ip off n h))
