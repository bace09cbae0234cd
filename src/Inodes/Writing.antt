-- ===== src/Inodes/Writing.antt =====
-- The loop of `inode_write` and the bytes of the file.
use advance_synchronization.Base.{
  ℕ, zero, suc, ◌+◌, ◌-◌, ◌/◌, ◌%◌, ◌<◌, ◌≤◌, ◌≡◌, ◌≢◌, refl, sym, ap, ◌∙◌, arith, if◌then◌else◌,
  ltb, leb, ◌&&◌, update, ne→==, Option, some, bind, bind-some,
}
use mathlib.Core.Path.{subst}
use native.Mathlib.Decide.{ℕ_discrete, dec_lt}
use advance_synchronization.Log.{Block, Disk, Log, log_write, set_data}
use advance_synchronization.Log.Append.{IsActive, log_write-IsActive}
use advance_synchronization.Inodes.{Inode, maxfile, bmap}
use advance_synchronization.Inodes.Data.{bsize, copy_in, piece, write_from}
use advance_synchronization.Inodes.Volume.{IsVolume, Kept-IsVolume}
use advance_synchronization.Inodes.Entries.{entry, content, IsFile, with_addrs}
use advance_synchronization.Inodes.Mapping.{IsMapped}
use advance_synchronization.Inodes.Bmap.{bmap-IsMapped}
use advance_synchronization.Inodes.Replacing.{
  replaced, replaced-IsKept, replaced_entries, replaced-IsFile, round_bytes,
}

-- The file holds what it held, with `left` bytes from `off` on replaced.
pub record IsWritten (old d : Disk) (l : Log) (ip : Inode) (src : ℕ → ℕ) (off left : ℕ) (d' : Disk)
    (l' : Log) (a : ℕ → ℕ) : Type 0 where
  pub active : IsActive old d' l'
  pub log_start : l'.start ≡ l.start
  pub volume : IsVolume l.start ip.inum d'
  pub file : IsFile l.start d' (with_addrs ip a)
  pub bytes :
      (o : ℕ)
      → o / bsize < maxfile
      → content d' (with_addrs ip a) o
        ≡ (if leb off o && ltb o (off + left) then src (o - off) % 256 else content d ip o)
  pub there :
      (o : ℕ)
      → off ≤ o
      → o < off + left
      → (o / bsize < maxfile) × (entry d' (with_addrs ip a) (o / bsize) ≢ 0)
  pub others :
      (m : ℕ) → m < maxfile → entry d ip m ≢ 0 → entry d' (with_addrs ip a) m ≡ entry d ip m

pub piece_lem :
    (left off : ℕ)
    → (piece left off ≤ left)
      × (off % bsize + piece left off ≤ bsize)
      × (0 < left → 0 < piece left off)
unfolding piece
piece_lem left off = (ground arith, ground arith, λ h. ground arith)

pub round_there :
    (off m o : ℕ) → off % bsize + m ≤ bsize → off ≤ o → o < off + m → o / bsize ≡ off / bsize
round_there off m o h a b = omega arith

pub nothing-IsWritten :
    {old d : Disk} {l : Log} {ip : Inode} (h : IsActive old d l) (v : IsVolume l.start ip.inum d)
    (f : IsFile l.start d ip) (src : ℕ → ℕ) (off : ℕ)
    → IsWritten old d l ip src off 0 d l ip.addrs
nothing-IsWritten h v f src off = record {
  active = h;
  log_start = refl;
  volume = v;
  file = f;
  bytes = λ o n. ground arith;
  there = λ o a b. absurd (omega arith);
  others = λ m n z. refl;
}

pub write_from-zero :
    (k : ℕ) (l : Log) (ip : Inode) (src : ℕ → ℕ) (off : ℕ)
    → write_from (suc k) l ip src off 0 ≡ some (l, ip)
unfolding write_from
write_from-zero k l ip src off = refl

pub write_from-suc :
    (k : ℕ) (l : Log) (ip : Inode) (src : ℕ → ℕ) (off left : ℕ)
    → left ≢ 0
    → write_from (suc k) l ip src off left
      ≡ bind (bmap l ip (off / bsize)) (λ (r : Log × Inode × ℕ).
        bind
          (log_write
            (set_data r.0 r.2 (copy_in (piece left off) (r.0.view r.2) (off % bsize) src))
            r.2)
          (λ l2.
            write_from k l2 r.1
              (λ i. src (piece left off + i))
              (off + piece left off)
              (left - piece left off)))
unfolding write_from
write_from-suc k l ip src off left z = rw (ne→== left 0 z) refl

-- One round of the loop, behind `bmap`.
pub round-IsWritten :
    {old d : Disk} {l : Log} {ip : Inode} (src : ℕ → ℕ) (off m : ℕ) (d1 : Disk) (l1 l2 : Log)
    (a1 : ℕ → ℕ) (b : ℕ)
    → off / bsize < maxfile
    → off % bsize + m ≤ bsize
    → IsMapped old d l ip (off / bsize) d1 l1 a1 b
    → log_write (set_data l1 b (copy_in m (l1.view b) (off % bsize) src)) b ≡ some l2
    → (d2 : Disk) × IsWritten old d l ip src off m d2 l2 a1
round-IsWritten {old} {d} {l} {ip} src off m d1 l1 l2 a1 b small fits r e =
    let ip1 = with_addrs ip a1 in
    let bn = off / bsize in
    let z : entry d1 ip1 bn ≢ 0 = λ y. r.nonzero (sym r.at ∙ y) in
    let x = r.file.mapped bn small z in
    let below : b < l1.start = subst (λ y. y < l1.start) r.at (rw r.log_start x.before) in
    let not_super : b ≢ 1 = subst (λ y. y ≢ 1) r.at x.not_super in
    let (active, start, _, _) =
      log_write-IsActive r.active b (copy_in m (l1.view b) (off % bsize) src) l2 below not_super
        e in
    let seen : l1.view b ≡ d1 (entry d1 ip1 bn) = r.active.shown b below ∙ ap d1 (sym r.at) in
    let c = copy_in m (d1 (entry d1 ip1 bn)) (off % bsize) src in
    let active2 : IsActive old (update d1 b c) l2 =
      subst (λ (y : Block). IsActive old (update d1 b (copy_in m y (off % bsize) src)) l2) seen
        active in
    let active3 : IsActive old (replaced r.volume r.file bn small z c) l2 =
      subst (λ y. IsActive old (update d1 y c) l2) (sym r.at) active2 in
    (
      replaced r.volume r.file bn small z c,
      record {
        active = active3;
        log_start = start ∙ r.log_start;
        volume = Kept-IsVolume (replaced-IsKept r.volume r.file bn small z c) r.volume;
        file = replaced-IsFile r.volume r.file bn small z c;
        bytes = λ o n.
            round_bytes r.volume r.file off m src small z fits o n
            ∙ ap (λ t. if leb off o && ltb o (off + m) then src (o - off) % 256 else t)
                (r.same o n);
        there = λ o p q.
            let same_block = round_there off m o fits p q in
            (
              rw same_block small,
              rw same_block
                  (λ y. z (sym (replaced_entries r.volume r.file bn small z c bn small) ∙ y)),
            );
        others = λ n k y. replaced_entries r.volume r.file bn small z c n k ∙ r.others n k y;
      },
    )

join_bytes :
    (c2 c1 c0 : ℕ) (src : ℕ → ℕ) (off left m o : ℕ)
    → m ≤ left
    → c2 ≡ (
        if leb (off + m) o && ltb o (off + m + (left - m))
        then src (m + (o - (off + m))) % 256
        else c1)
    → c1 ≡ (if leb off o && ltb o (off + m) then src (o - off) % 256 else c0)
    → c2 ≡ (if leb off o && ltb o (off + left) then src (o - off) % 256 else c0)
join_bytes c2 c1 c0 src off left m o h e2 e1 = elim (dec_lt o (off + m)) [
  | yes k ↦ ground arith
  | no k ↦ let p : m + (o - (off + m)) ≡ o - off = omega arith in ground (arith, ap src p)
]

-- Two writes, one behind the other.
twice-IsWritten :
    {old d d1 d2 : Disk} {l l1 l2 : Log} {ip : Inode} {a1 a2 : ℕ → ℕ} (src : ℕ → ℕ) (off left m : ℕ)
    → m ≤ left
    → IsWritten old d l ip src off m d1 l1 a1
    → IsWritten old d1 l1 (with_addrs ip a1) (λ i. src (m + i)) (off + m) (left - m) d2 l2 a2
    → IsWritten old d l ip src off left d2 l2 a2
twice-IsWritten {d = d} {d1 = d1} {d2 = d2} {ip = ip} {a1 = a1} {a2 = a2} src off left m h w1 w2 =
    record {
      active = w2.active;
      log_start = w2.log_start ∙ w1.log_start;
      volume = subst (λ x. IsVolume x ip.inum d2) w1.log_start w2.volume;
      file = subst (λ x. IsFile x d2 (with_addrs ip a2)) w1.log_start w2.file;
      bytes = λ o n.
          join_bytes (content d2 (with_addrs ip a2) o) (content d1 (with_addrs ip a1) o)
            (content d ip o) src off left m o h (w2.bytes o n) (w1.bytes o n);
      there = λ o p q. elim (dec_lt o (off + m)) [
        | yes k ↦
            let (small, z) = w1.there o p k in
            (small, λ y. z (sym (w2.others (o / bsize) small z) ∙ y))
        | no k ↦ w2.there o (omega arith) (omega arith)
      ];
      others = λ n k z. w2.others n k (λ y. z (sym (w1.others n k z) ∙ y)) ∙ w1.others n k z;
    }

pub write_from-IsWritten :
    (k : ℕ) {old d : Disk} {l : Log} {ip : Inode} (h : IsActive old d l)
    (v : IsVolume l.start ip.inum d) (f : IsFile l.start d ip) (src : ℕ → ℕ) (off left : ℕ)
    (l' : Log) (ip' : Inode)
    → write_from k l ip src off left ≡ some (l', ip')
    → (d' : Disk) × (a : ℕ → ℕ) × (ip' ≡ with_addrs ip a)
      × IsWritten old d l ip src off left d' l' a
unfolding write_from
write_from-IsWritten zero h v f src off left l' ip' e = cc
write_from-IsWritten (suc k) {old} {d} {l} {ip} h v f src off left l' ip' e =
    elim (ℕ_discrete left 0) [
      | yes z ↦
          let here : ◌≡◌ {A = Option (Log × Inode)} (some (l, ip)) (some (l', ip')) =
            sym (write_from-zero k l ip src off)
            ∙ ap (λ x. write_from (suc k) l ip src off x) (sym z)
            ∙ e in
          let stay : l ≡ l' = cc in
          let same : ip ≡ ip' = cc in
          (
            d,
            ip.addrs,
            sym same,
            subst (λ x. IsWritten old d l ip src off x d l' ip.addrs) (sym z)
                (subst (λ x. IsWritten old d l ip src off 0 d x ip.addrs) stay
                  (nothing-IsWritten h v f src off)),
          )
      | no z ↦
          let m = piece left off in
          let (m_le, fits, pos_m) = piece_lem left off in
          let ((l1, ip1, b), e1, e2) =
            bind-some (bmap l ip (off / bsize)) _ (l', ip')
              (sym (write_from-suc k l ip src off left z) ∙ e) in
          let (l2, e3, e4) =
            bind-some (log_write (set_data l1 b (copy_in m (l1.view b) (off % bsize) src)) b) _
              (l', ip') e2 in
          let (small, d1, a1, is_ip, r) = bmap-IsMapped h v f (off / bsize) l1 ip1 b e1 in
          let (d2, w1) = round-IsWritten src off m d1 l1 l2 a1 b small fits r e3 in
          let e5 : write_from k l2 (with_addrs ip a1) (λ i. src (m + i)) (off + m) (left - m)
              ≡ some (l', ip') =
            ap (λ x. write_from k l2 x (λ i. src (m + i)) (off + m) (left - m)) (sym is_ip) ∙ e4 in
          let v2 = subst (λ x. IsVolume x ip.inum d2) (sym w1.log_start) w1.volume in
          let f2 = subst (λ x. IsFile x d2 (with_addrs ip a1)) (sym w1.log_start) w1.file in
          let (d3, a3, is_ip3, w2) =
            write_from-IsWritten k w1.active v2 f2 (λ i. src (m + i)) (off + m) (left - m) l' ip'
              e5 in
          (d3, a3, is_ip3, twice-IsWritten src off left m m_le w1 w2)
    ]
