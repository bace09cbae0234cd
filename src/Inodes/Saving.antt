-- ===== src/Inodes/Saving.antt =====
-- A whole call of `inode_write`: the bytes, the size, and the inode on the disk.
use advance_synchronization.Base.{
  ℕ, suc, ◌+◌, ◌-◌, ◌*◌, ◌/◌, ◌%◌, ◌^◌, ◌<◌, ◌≤◌, ◌≡◌, ◌≢◌, refl, sym, ap, ◌∙◌, arith,
  if◌then◌else◌, ltb, leb, ◌&&◌, ◌||◌, update, ne→==, Option, some, bind, bind-some, true, false,
  ◌⊎◌, inl, inr, ℤ, pos, minus_one, Bool, Bool-cases,
}
use mathlib.Core.Path.{subst}
use native.Mathlib.Decide.{dec_lt}
use advance_synchronization.Log.{Disk, Log}
use advance_synchronization.Log.Append.{IsActive, log_write-IsActive}
use advance_synchronization.Inodes.{Inode, maxfile, iblock, t_dev, inode_update, put_dinode}
use advance_synchronization.Inodes.Data.{bsize, write_from, grow, inode_write, Devsw}
use advance_synchronization.Inodes.Volume.{IsVolume, Kept-IsVolume}
use advance_synchronization.Inodes.Entries.{entry, content, IsFile, with_addrs}
use advance_synchronization.Inodes.Writing.{IsWritten, write_from-IsWritten}
use advance_synchronization.Inodes.Recorded.{
  with_inode-IsKept, inode_entries, with_inode-IsFile, inode_content, resized-IsFile,
}

-- The file after a write of `n` bytes of memory from `src` on at offset `off`.
pub record IsSaved (old d : Disk) (l : Log) (ip : Inode) (src : ℕ → ℕ) (off n : ℕ) (d' : Disk)
    (l' : Log) (ip' : Inode) : Type 0 where
  pub active : IsActive old d' l'
  pub log_start : l'.start ≡ l.start
  pub same_inum : ip'.inum ≡ ip.inum
  pub same_dev : ip'.dev ≡ ip.dev
  pub same_kind : ip'.kind ≡ ip.kind
  pub volume : IsVolume l.start ip'.inum d'
  pub file : IsFile l.start d' ip'
  pub size : ip'.size ≡ (if ltb ip.size (off + n) then off + n else ip.size)
  pub bytes :
      (o : ℕ)
      → o / bsize < maxfile
      → content d' ip' o
        ≡ (if leb off o && ltb o (off + n) then src (o - off) % 256 else content d ip o)
  pub there :
      (o : ℕ) → off ≤ o → o < off + n → (o / bsize < maxfile) × (entry d' ip' (o / bsize) ≢ 0)
  pub others : (m : ℕ) → m < maxfile → entry d ip m ≢ 0 → entry d' ip' m ≡ entry d ip m

-- The size grows, and the inode goes to the disk.
grown-IsSaved :
    {old d : Disk} {l : Log} {ip : Inode} (src : ℕ → ℕ) (off n : ℕ) {d1 : Disk} {l1 : Log}
    (a : ℕ → ℕ) (l2 : Log)
    → IsWritten old d l ip src off n d1 l1 a
    → ip.size < off + n
    → inode_update l1 (record ip { addrs = a; size = off + n }) ≡ some l2
    → (d2 : Disk) × IsSaved old d l ip src off n d2 l2 (record ip { addrs = a; size = off + n })
unfolding inode_update
grown-IsSaved {ip = ip} src off n {d1 = d1} {l1 = l1} a l2 w grew e =
    let s = iblock ip.inum in
    let ip2 = record ip { addrs = a; size = off + n } in
    let b = put_dinode (l1.view s) ip2 in
    let below : s < l1.start = rw w.log_start w.volume.inode_before in
    let (active, start, _, _) =
      log_write-IsActive w.active s b l2 below (λ y. absurd (omega arith)) e in
    let f2 = resized-IsFile (off + n) w.file in
    (
      update d1 s b,
      record {
        active = active;
        log_start = start ∙ w.log_start;
        same_inum = refl;
        same_dev = refl;
        same_kind = refl;
        volume = Kept-IsVolume (with_inode-IsKept w.volume f2 b) w.volume;
        file = with_inode-IsFile w.volume f2 b;
        size = ground arith;
        bytes = λ o k. inode_content w.volume f2 b o k ∙ w.bytes o k;
        there = λ o p q.
            let (k, z) = w.there o p q in
            (k, λ y. z (sym (inode_entries w.volume f2 b (o / bsize)) ∙ y));
        others = λ m k z. inode_entries w.volume f2 b m ∙ w.others m k z;
      },
    )

kept-IsSaved :
    {old d : Disk} {l : Log} {ip : Inode} (src : ℕ → ℕ) (off n : ℕ) {d1 : Disk} {l1 : Log}
    (a : ℕ → ℕ)
    → IsWritten old d l ip src off n d1 l1 a
    → off + n ≤ ip.size
    → IsSaved old d l ip src off n d1 l1 (with_addrs ip a)
kept-IsSaved src off n a w h = record {
  active = w.active;
  log_start = w.log_start;
  same_inum = refl;
  same_dev = refl;
  same_kind = refl;
  volume = w.volume;
  file = w.file;
  size = ground arith;
  bytes = w.bytes;
  there = w.there;
  others = w.others;
}

pub grow-yes :
    (l : Log) (ip : Inode) (off n : ℕ)
    → ip.size < off + n
    → 0 < n
    → grow l ip (off + n) n
      ≡ bind
          (inode_update l (record ip { size = off + n }))
          (λ l'. some (l', record ip { size = off + n }))
unfolding grow
grow-yes l ip off n h k = ground arith

pub grow-no :
    (l : Log) (ip : Inode) (off n : ℕ) → off + n ≤ ip.size → grow l ip (off + n) n ≡ some (l, ip)
unfolding grow
grow-no l ip off n h = ground arith

grow-IsSaved :
    {old d : Disk} {l : Log} {ip : Inode} (src : ℕ → ℕ) (off n : ℕ) {d1 : Disk} {l1 : Log}
    (a : ℕ → ℕ) (l2 : Log) (ip2 : Inode)
    → off ≤ ip.size
    → IsWritten old d l ip src off n d1 l1 a
    → grow l1 (with_addrs ip a) (off + n) n ≡ some (l2, ip2)
    → (d2 : Disk) × IsSaved old d l ip src off n d2 l2 ip2
grow-IsSaved {old} {d} {l} {ip} src off n {d1 = d1} {l1 = l1} a l2 ip2 h w e =
    elim (dec_lt ip.size (off + n)) [
      | yes k ↦
          let grown = record ip { addrs = a; size = off + n } in
          let (l3, e1, e2) =
            bind-some (inode_update l1 grown) _ (l2, ip2)
              (sym (grow-yes l1 (with_addrs ip a) off n k (omega arith)) ∙ e) in
          let same_log : l3 ≡ l2 = cc in
          let same : grown ≡ ip2 = cc in
          let (d2, s) = grown-IsSaved src off n a l3 w k e1 in
          (
            d2,
            subst (λ x. IsSaved old d l ip src off n d2 x ip2) same_log
                (subst (λ x. IsSaved old d l ip src off n d2 l3 x) same s),
          )
      | no k ↦
          let here : ◌≡◌ {A = Option (Log × Inode)} (some (l1, with_addrs ip a)) (some (l2, ip2)) =
            sym (grow-no l1 (with_addrs ip a) off n (omega arith)) ∙ e in
          let same_log : l1 ≡ l2 = cc in
          let same : with_addrs ip a ≡ ip2 = cc in
          (
            d1,
            subst (λ x. IsSaved old d l ip src off n d1 x ip2) same_log
                (subst (λ x. IsSaved old d l ip src off n d1 l1 x) same
                  (kept-IsSaved src off n a w (omega arith))),
          )
    ]

-- The tests before the loop.
abbrev pub refuses : Inode → ℕ → ℕ → Bool
refuses ip off n =
    ltb ip.size off || ltb ((off + n) % 2 ^ 32) off || ltb (maxfile * bsize) ((off + n) % 2 ^ 32)

module _ (devsw : Devsw) (l : Log) (ip : Inode) (mem : ℕ → ℕ) (src off n : ℕ)
    (plain : ip.kind ≢ t_dev) where
  write_refused :
      refuses ip off n ≡ true → inode_write devsw l ip mem src off n ≡ some (l, ip, minus_one)
  unfolding inode_write
  write_refused e = rw (ne→== ip.kind t_dev plain) (ground arith)

  pub write_accepted :
      refuses ip off n ≡ false
      → inode_write devsw l ip mem src off n
        ≡ bind (write_from (suc n) l ip (λ i. mem (src + i)) off n) (λ (r : Log × Inode).
          bind (grow r.0 r.1 (off + n) n) (λ (q : Log × Inode). some (q.0, q.1, pos n)))
  unfolding inode_write
  write_accepted e =
      let t1 : (ltb ip.size off || ltb ((off + n) % 2 ^ 32) off) ≡ false = ground arith in
      let t2 : ltb (maxfile * bsize) ((off + n) % 2 ^ 32) ≡ false = ground arith in
      rw (ne→== ip.kind t_dev plain, t1, t2) refl

  pub accepted_start : refuses ip off n ≡ false → off ≤ ip.size
  accepted_start e = ground arith

  -- In a transaction, on a file system whose bitmap has the log in use, with the blocks of the file in order:
  -- a call of inode_write on a file that is no device and that does not panic returns -1 and changes nothing, if
  -- its tests fail, and otherwise returns `n`, with the `n` bytes of memory in the file from the offset on and
  -- all others as they were, the size grown to the end of them, and the blocks of the file in order.
  pub inode_write_lem :
      {old d : Disk}
      → IsActive old d l
      → IsVolume l.start ip.inum d
      → IsFile l.start d ip
      → (l' : Log) (ip' : Inode) (r : ℤ) → inode_write devsw l ip mem src off n ≡ some (l', ip', r)
      → ((refuses ip off n ≡ true) × (r ≡ minus_one) × (l ≡ l') × (ip ≡ ip'))
        ⊎ ((refuses ip off n ≡ false)
            × (r ≡ pos n)
            × (d' : Disk) × IsSaved old d l ip (λ i. mem (src + i)) off n d' l' ip')
  inode_write_lem {old} {d} h v f l' ip' r e = elim (Bool-cases (refuses ip off n)) [
    | inl t ↦
        let here : ◌≡◌ {A = Option (Log × Inode × ℤ)} (some (l, ip, minus_one))
            (some (l', ip', r)) =
          sym (write_refused t) ∙ e in
        inl (t, cc, cc, cc)
    | inr t ↦
        let ((l1, ip1), e1, e2) =
          bind-some (write_from (suc n) l ip (λ i. mem (src + i)) off n) _ (l', ip', r)
            (sym (write_accepted t) ∙ e) in
        let ((l2, ip2), e3, e4) = bind-some (grow l1 ip1 (off + n) n) _ (l', ip', r) e2 in
        let same_log : l2 ≡ l' = cc in
        let same : ip2 ≡ ip' = cc in
        let result : r ≡ pos n = cc in
        let (d1, a, is_ip, w) =
          write_from-IsWritten (suc n) h v f (λ i. mem (src + i)) off n l1 ip1 e1 in
        let e5 : grow l1 (with_addrs ip a) (off + n) n ≡ some (l2, ip2) =
          ap (λ x. grow l1 x (off + n) n) (sym is_ip) ∙ e3 in
        let (d2, s) = grow-IsSaved (λ i. mem (src + i)) off n a l2 ip2 (accepted_start t) w e5 in
        inr (
          t,
          result,
          d2,
          subst (λ x. IsSaved old d l ip (λ i. mem (src + i)) off n d2 x ip') same_log
              (subst (λ x. IsSaved old d l ip (λ i. mem (src + i)) off n d2 l2 x) same s),
        )
  ]
