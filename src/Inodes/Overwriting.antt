-- ===== src/Inodes/Overwriting.antt =====
-- `inode_write` on blocks that the file has already, with room in the log.
use advance_synchronization.Base.{
  ℕ, zero, suc, ◌+◌, ◌-◌, ◌/◌, ◌%◌, ◌<◌, ◌≤◌, ◌≡◌, ◌≢◌, refl, sym, ap, ◌∙◌, arith, ◌==◌,
  if◌then◌else◌, ne→==, some, bind, false, pos,
}
use mathlib.Core.Path.{subst}
use native.Mathlib.Decide.{ℕ_discrete, dec_lt}
use advance_synchronization.Transfer.{logsize}
use advance_synchronization.Log.{Disk, Log, log_write, set_data}
use advance_synchronization.Log.Append.{IsActive, log_write-IsActive, log_write_room}
use advance_synchronization.Inodes.{Inode, iblock, t_dev, bmap, inode_update, put_dinode}
use advance_synchronization.Inodes.Data.{
  bsize, copy_in, piece, write_from, grow, inode_write, Devsw,
}
use advance_synchronization.Inodes.Volume.{IsVolume}
use advance_synchronization.Inodes.Entries.{entry, IsFile}
use advance_synchronization.Inodes.Mapping.{there-IsMapped}
use advance_synchronization.Inodes.Writing.{
  piece_lem, write_from-zero, round-IsWritten, write_from-IsWritten,
}
use advance_synchronization.Inodes.Saving.{
  refuses, write_accepted, accepted_start, grow-yes, grow-no,
}
use advance_synchronization.Inodes.There.{bmap_there}
use advance_synchronization.Inodes.Reading.{Present}

-- The number of blocks that `left` bytes from `off` on are in.
abbrev pub blocks : ℕ → ℕ → ℕ
blocks off left = if left == 0 then 0 else (off % bsize + left + (bsize - 1)) / bsize

blocks_step :
    (off left : ℕ)
    → left ≢ 0
    → blocks (off + piece left off) (left - piece left off) + 1 ≡ blocks off left
unfolding piece
blocks_step off left z = elim (dec_lt left (bsize - off % bsize)) [
  | yes k ↦ ground arith
  | no k ↦
      let r = bsize - off % bsize in
      let aligned : (off + r) % bsize ≡ 0 = omega arith in
      elim (ℕ_discrete left r) [
        | yes e ↦ ground arith
        | no e ↦
            let rest : ((off + r) % bsize + (left - r) + (bsize - 1)) / bsize + 1
                ≡ (off % bsize + left + (bsize - 1)) / bsize =
              omega arith in
            ground (arith, rest)
      ]
]

-- The log has room for `m` more blocks.
abbrev pub HasRoom : Log → ℕ → Type 0
HasRoom l m = (l.n + m ≤ logsize) × (l.n + m < l.size)

write_from-round :
    (k : ℕ) (l l2 : Log) (ip : Inode) (src : ℕ → ℕ) (off left b : ℕ)
    → left ≢ 0
    → bmap l ip (off / bsize) ≡ some (l, ip, b)
    → log_write (set_data l b (copy_in (piece left off) (l.view b) (off % bsize) src)) b ≡ some l2
    → (r : Log × Inode)
    → write_from k l2 ip
        (λ i. src (piece left off + i))
        (off + piece left off)
        (left - piece left off)
      ≡ some r
    → write_from (suc k) l ip src off left ≡ some r
unfolding write_from
write_from-round k l l2 ip src off left b z e1 e2 r e3 = rw (ne→== left 0 z, e1, e2) e3

write_from-returns :
    (k : ℕ) {old d : Disk} {l : Log} {ip : Inode} (h : IsActive old d l)
    (v : IsVolume l.start ip.inum d) (f : IsFile l.start d ip) (src : ℕ → ℕ) (off left : ℕ)
    → left < k
    → Present d ip off left
    → HasRoom l (blocks off left)
    → (l' : Log) × (write_from k l ip src off left ≡ some (l', ip))
      × (l'.n ≤ l.n + blocks off left)
      × (l'.size ≡ l.size)
write_from-returns zero h v f src off left fuel p room = absurd (omega arith)
write_from-returns (suc k) {old} {d} {l} {ip} h v f src off left fuel p room =
    elim (ℕ_discrete left 0) [
      | yes z ↦ (
        l,
        ap (λ x. write_from (suc k) l ip src off x) z ∙ write_from-zero k l ip src off,
        ground arith,
        refl,
      )
      | no z ↦
          let m = piece left off in
          let (m_le, fits, pos_m) = piece_lem left off in
          let (small, there) = p off (omega arith) (omega arith) in
          let b = entry d ip (off / bsize) in
          let step = blocks_step off left z in
          let x = f.mapped (off / bsize) small there in
          let c = copy_in m (l.view b) (off % bsize) src in
          let (l2, e) = log_write_room h b c (omega (arith, room.0)) (omega (arith, room.1)) in
          let (_, _, size, n_le) = log_write-IsActive h b c l2 x.before x.not_super e in
          let r = there-IsMapped old d l ip h v f (off / bsize) there in
          let (d2, w) = round-IsWritten src off m d l l2 ip.addrs b small fits r e in
          let v2 = subst (λ y. IsVolume y ip.inum d2) (sym w.log_start) w.volume in
          let f2 = subst (λ y. IsFile y d2 ip) (sym w.log_start) w.file in
          let (l3, e3, n_le3, size3) =
            write_from-returns k w.active v2 f2 (λ i. src (m + i)) (off + m) (left - m)
              (omega (arith, pos_m))
              (λ o q s.
                let (s1, t) = p o (omega arith) (omega arith) in
                (s1, λ y. t (sym (w.others (o / bsize) s1 t) ∙ y)))
              (omega (arith, room.0), omega (arith, room.1)) in
          (
            l3,
            write_from-round k l l2 ip src off left b z
                (bmap_there l ip l.start d (off / bsize) h.shown f small there) e (l3, ip) e3,
            omega arith,
            size3 ∙ size,
          )
    ]

update-returns :
    {old d : Disk} {l : Log} (ip : Inode)
    → IsActive old d l
    → HasRoom l 1
    → (l' : Log) × (inode_update l ip ≡ some l')
unfolding inode_update
update-returns {l = l} ip h room =
    log_write_room h (iblock ip.inum) (put_dinode (l.view (iblock ip.inum)) ip) (omega arith)
      (omega arith)

grow-returns :
    {old d : Disk} {l : Log} (ip : Inode) (off n : ℕ)
    → off ≤ ip.size
    → IsActive old d l
    → HasRoom l 1
    → (l' : Log) × (ip' : Inode) × (grow l ip (off + n) n ≡ some (l', ip'))
grow-returns {l = l} ip off n le h room = elim (dec_lt ip.size (off + n)) [
  | no k ↦ (l, ip, grow-no l ip off n (omega arith))
  | yes k ↦
      let ip2 = record ip { size = off + n } in
      let (l2, e) = update-returns ip2 h room in
      (l2, ip2, grow-yes l ip off n k (omega arith) ∙ ap (λ x. bind x (λ l'. some (l', ip2))) e)
]

module _ (devsw : Devsw) (l : Log) (ip : Inode) (mem : ℕ → ℕ) (src off n : ℕ)
    (plain : ip.kind ≢ t_dev) where
  pub inode_write_returns :
      {old d : Disk}
      → IsActive old d l
      → IsVolume l.start ip.inum d
      → IsFile l.start d ip
      → refuses ip off n ≡ false
      → Present d ip off n
      → HasRoom l (blocks off n + 1)
      → (l' : Log) × (ip' : Inode) × (inode_write devsw l ip mem src off n ≡ some (l', ip', pos n))
  inode_write_returns h v f t p room =
      let (l1, e1, n_le, size) =
        write_from-returns (suc n) h v f (λ i. mem (src + i)) off n (omega arith) p
          (omega (arith, room.0), omega (arith, room.1)) in
      let (d1, a, _, w) = write_from-IsWritten (suc n) h v f (λ i. mem (src + i)) off n l1 ip e1 in
      let (l2, ip2, e2) =
        grow-returns ip off n (accepted_start devsw l ip mem src off n plain t) w.active
          (omega (arith, room.0), omega (arith, room.1)) in
      (
        l2,
        ip2,
        write_accepted devsw l ip mem src off n plain t
            ∙ ap
                (λ x. bind x (λ (r : Log × Inode).
                  bind (grow r.0 r.1 (off + n) n) (λ (q : Log × Inode). some (q.0, q.1, pos n))))
                e1
            ∙ ap (λ x. bind x (λ (q : Log × Inode). some (q.0, q.1, pos n))) e2,
      )
