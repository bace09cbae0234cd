-- ===== src/Inodes/Bmap.antt =====
-- `bmap` for every block: an entry of the indirect block, and both cases together.
use advance_synchronization.Base.{
  ℕ, ◌+◌, ◌-◌, ◌<◌, ◌≡◌, ◌≢◌, refl, sym, ap, ◌∙◌, arith, ltb, update, eq→==, ne→==, Option, some,
  bind, bind-some, true, false,
}
use mathlib.Core.Path.{subst}
use native.Mathlib.Decide.{ℕ_discrete, dec_lt}
use advance_synchronization.Log.{Block, Disk, Log, log_write, set_data}
use advance_synchronization.Log.Append.{IsActive, log_write-IsActive}
use advance_synchronization.Blocks.{block_alloc}
use advance_synchronization.Blocks.Bitmap.{allocated}
use advance_synchronization.Inodes.{
  Inode, ndirect, nindirect, maxfile, bmap, bmap_direct, bmap_indirect, bmap_entry,
}
use advance_synchronization.Inodes.Volume.{IsVolume, IsData, Kept-IsData}
use advance_synchronization.Inodes.Entries.{entry, IsFile, with_addrs}
use advance_synchronization.Inodes.Mapping.{
  IsMapped, added-IsMapped, there-IsMapped, direct-IsMapped,
}
use advance_synchronization.Inodes.Fresh.{alloc-IsFresh}
use advance_synchronization.Inodes.Indirect.{IsReady, ready, entered, entered-IsAdded}

entry-zero :
    (l : Log) (ind j : ℕ)
    → l.view ind j ≡ 0
    → bmap_entry l ind j
      ≡ bind (block_alloc l) (λ (r : Log × ℕ).
        bind
          (log_write (set_data r.0 ind (update (r.0.view ind) j r.1)) ind)
          (λ l2. some (l2, r.1)))
unfolding bmap_entry
entry-zero l ind j e = rw (eq→== (l.view ind j) 0 e) refl

entry-there : (l : Log) (ind j : ℕ) → l.view ind j ≢ 0 → bmap_entry l ind j ≡ some (l, l.view ind j)
unfolding bmap_entry
entry-there l ind j e = rw (ne→== (l.view ind j) 0 e) refl

module _ (old d : Disk) (l : Log) (ip : Inode) (h : IsActive old d l)
    (v : IsVolume l.start ip.inum d) (f : IsFile l.start d ip) (ind j : ℕ)
    (at : ip.addrs ndirect ≡ ind) (z : ind ≢ 0) (k : j < nindirect) where
  ind-IsData : IsData l.start ip.inum d ind
  ind-IsData = subst (λ x. IsData l.start ip.inum d x) at (f.indirect (λ y. z (sym at ∙ y)))

  indirect-IsMapped :
      (l' : Log) (b : ℕ)
      → bmap_entry l ind j ≡ some (l', b)
      → (d' : Disk) × IsMapped old d l ip (ndirect + j) d' l' ip.addrs b
  indirect-IsMapped l' b e =
      let seen : l.view ind j ≡ d ind j = ap (λ (x : Block). x j) (h.shown ind ind-IsData.before) in
      let small : ndirect + j < maxfile = omega arith in
      elim (ℕ_discrete (l.view ind j) 0) [
        | yes y ↦
            let empty : d ind j ≡ 0 = sym seen ∙ y in
            let ((l1, b1), e1, e2) =
              bind-some (block_alloc l) _ (l', b) (sym (entry-zero l ind j y) ∙ e) in
            let (l2, e3, e4) =
              bind-some (log_write (set_data l1 ind (update (l1.view ind) j b1)) ind) _ (l', b)
                e2 in
            let same_block : b1 ≡ b = cc in
            let same_log : l2 ≡ l' = cc in
            let got : block_alloc l ≡ some (l1, b) = e1 ∙ ap (λ x. some (l1, x)) same_block in
            let (r, active, start) = alloc-IsFresh ip.inum h v l1 b got in
            let x = Kept-IsData r.kept ind v.start_le ind-IsData in
            let below : ind < l1.start = rw start x.before in
            let wrote : log_write (set_data l1 ind (update (l1.view ind) j b)) ind ≡ some l' =
              ap (λ y. log_write (set_data l1 ind (update (l1.view ind) j y)) ind) (sym same_block)
              ∙ e3
              ∙ ap some same_log in
            let (active', start', _, _) =
              log_write-IsActive active ind (update (l1.view ind) j b) l' below x.not_super wrote in
            let view_ind : l1.view ind ≡ allocated d b ind = active.shown ind below in
            (
              entered old d l ip h v f ind j b at z k empty r,
              added-IsMapped old d l ip h v f (ndirect + j)
                  (entered old d l ip h v f ind j b at z k empty r) l' ip.addrs b small
                  (subst
                    (λ (t : Block). IsActive old (update (allocated d b) ind (update t j b)) l')
                    view_ind active')
                  (start' ∙ start) (entered-IsAdded old d l ip h v f ind j b at z k empty r),
            )
        | no y ↦
            let here : ◌≡◌ {A = Option (Log × ℕ)} (some (l, l.view ind j)) (some (l', b)) =
              sym (entry-there l ind j y) ∙ e in
            let stay : l ≡ l' = cc in
            let addr : l.view ind j ≡ b = cc in
            let place : ndirect + j - ndirect ≡ j = omega arith in
            let known : entry d ip (ndirect + j) ≡ d ind j =
              rw at (ground (arith, ap (d ind) place)) in
            let there =
              there-IsMapped old d l ip h v f (ndirect + j) (λ q. y (seen ∙ sym known ∙ q)) in
            (
              d,
              subst (λ x. IsMapped old d l ip (ndirect + j) d x ip.addrs b) stay
                  (subst (λ x. IsMapped old d l ip (ndirect + j) d l ip.addrs x)
                    (known ∙ sym seen ∙ addr) there),
            )
      ]

module _ {old d : Disk} {l : Log} {ip : Inode} (h : IsActive old d l)
    (v : IsVolume l.start ip.inum d) (f : IsFile l.start d ip) where
  after_ready :
      (bn b : ℕ) (d1 d2 : Disk) (l1 l2 : Log) (a : ℕ → ℕ) (ind : ℕ)
      → bn < maxfile
      → IsReady old d l ip d1 l1 a ind
      → IsMapped old d1 l1 (with_addrs ip a) bn d2 l2 a b
      → IsMapped old d l ip bn d2 l2 a b
  after_ready bn b d1 d2 l1 l2 a ind k r m = record {
    active = m.active;
    log_start = m.log_start ∙ r.log_start;
    volume = subst (λ x. IsVolume x ip.inum d2) r.log_start m.volume;
    file = subst (λ x. IsFile x d2 (with_addrs ip a)) r.log_start m.file;
    at = m.at;
    nonzero = m.nonzero;
    same = λ o q. m.same o q ∙ r.same o q;
    others = λ n q z. m.others n q (λ y. z (sym (r.entries n q) ∙ y)) ∙ r.entries n q;
  }

  behind-IsMapped :
      (j : ℕ) (l' : Log) (ip' : Inode) (b : ℕ)
      → j < nindirect
      → bmap_indirect l ip j ≡ some (l', ip', b)
      → (d' : Disk) × (a : ℕ → ℕ) × (ip' ≡ with_addrs ip a)
        × IsMapped old d l ip (ndirect + j) d' l' a b
  unfolding bmap_indirect
  behind-IsMapped j l' ip' b k e =
      let ((l1, ip1, ind), e1, e2) = bind-some (bmap_direct l ip ndirect) _ (l', ip', b) e in
      let ((l2, b2), e3, e4) = bind-some (bmap_entry l1 ind j) _ (l', ip', b) e2 in
      let same_log : l2 ≡ l' = cc in
      let same_block : b2 ≡ b = cc in
      let same_inode : ip1 ≡ ip' = cc in
      let got : bmap_entry l1 ind j ≡ some (l', b) = cc in
      let (d1, a, is_ip, r) = ready old d l ip h v f l1 ip1 ind e1 in
      let v1 : IsVolume l1.start ip.inum d1 =
        subst (λ x. IsVolume x ip.inum d1) (sym r.log_start) r.volume in
      let f1 : IsFile l1.start d1 (with_addrs ip a) =
        subst (λ x. IsFile x d1 (with_addrs ip a)) (sym r.log_start) r.file in
      let (d2, m) =
        indirect-IsMapped old d1 l1 (with_addrs ip a) r.active v1 f1 ind j r.at r.nonzero k l' b
          got in
      (
        d2,
        a,
        sym same_inode ∙ is_ip,
        after_ready (ndirect + j) b d1 d2 l1 l' a ind (omega arith) r m,
      )

  -- bmap returns the block of the file, or a new one, without a change to what the file holds.
  pub bmap-IsMapped :
      (bn : ℕ) (l' : Log) (ip' : Inode) (b : ℕ)
      → bmap l ip bn ≡ some (l', ip', b)
      → (bn < maxfile)
        × (d' : Disk) × (a : ℕ → ℕ) × (ip' ≡ with_addrs ip a)
        × IsMapped old d l ip bn d' l' a b
  unfolding bmap
  bmap-IsMapped bn l' ip' b e = elim (dec_lt bn ndirect) [
    | yes k ↦
        let t : ltb bn ndirect ≡ true = ground arith in
        let (d', a, same, m) = direct-IsMapped old d l ip h v f bn l' ip' b k (rw t at e) in
        (omega arith, d', a, same, m)
    | no n ↦
        let t : ltb bn ndirect ≡ false = ground arith in
        let rest = rw t at e in
        elim (dec_lt (bn - ndirect) nindirect) [
          | yes k ↦
              let u : ltb (bn - ndirect) nindirect ≡ true = ground arith in
              let place : ndirect + (bn - ndirect) ≡ bn = omega arith in
              let (d', a, same, m) = behind-IsMapped (bn - ndirect) l' ip' b k (rw u at rest) in
              (omega arith, d', a, same, subst (λ x. IsMapped old d l ip x d' l' a b) place m)
          | no k ↦
              let u : ltb (bn - ndirect) nindirect ≡ false = ground arith in
              let gone = rw u at rest in cc
        ]
  ]
