-- ===== src/Inodes/Stored.antt =====
-- The inode on the disk, between `inode_update` and `inode_lock`.
use advance_synchronization.Base.{
  ℕ, ◌%◌, ◌^◌, ◌<◌, ◌≤◌, ◌≡◌, ◌≢◌, refl, sym, ap, ◌∙◌, arith, ◌==◌, if◌then◌else◌, eq→==, ne→==,
  some,
}
use native.Mathlib.Decide.{ℕ_discrete}
use advance_synchronization.Log.{Block, Disk, Log}
use advance_synchronization.Log.Append.{IsActive, log_write-IsActive}
use advance_synchronization.Blocks.{ipb}
use advance_synchronization.Inodes.{Inode, ndirect, iblock, put_dinode, get_dinode, inode_update}

-- The fields that are kept on the disk are the same.
pub record IsSame (ip jp : Inode) : Type 0 where
  pub kind : ip.kind ≡ jp.kind
  pub major : ip.major ≡ jp.major
  pub minor : ip.minor ≡ jp.minor
  pub nlink : ip.nlink ≡ jp.nlink
  pub size : ip.size ≡ jp.size
  pub addrs : (i : ℕ) → i ≤ ndirect → ip.addrs i ≡ jp.addrs i

-- The fields of 16 bits that stand low in a word.
pub record IsShort (ip : Inode) : Type 0 where
  pub kind : ip.kind < 2 ^ 16
  pub minor : ip.minor < 2 ^ 16

get_dinode-other :
    (b : Block) (ip jp : Inode)
    → iblock jp.inum ≡ iblock ip.inum
    → jp.inum ≢ ip.inum
    → IsSame (get_dinode (put_dinode b ip) jp) (get_dinode b jp)
unfolding get_dinode put_dinode
get_dinode-other b ip jp e n =
    let apart : jp.inum % ipb ≢ ip.inum % ipb = λ q. n (omega arith) in
    record {
      kind = ground arith;
      major = ground arith;
      minor = ground arith;
      nlink = ground arith;
      size = ground arith;
      addrs = λ i h. ground arith;
    }

unchanged-IsSame : (b : Block) (jp : Inode) → IsSame (get_dinode b jp) (get_dinode b jp)
unchanged-IsSame b jp = record {
  kind = refl;
  major = refl;
  minor = refl;
  nlink = refl;
  size = refl;
  addrs = λ i h. refl;
}

-- The block of inodes after an update.
view-update :
    {old d : Disk} {l : Log} (ip : Inode) (l' : Log)
    → IsActive old d l
    → iblock ip.inum < l.start
    → inode_update l ip ≡ some l'
    → (s : ℕ) → s < l.start
    → l'.view s ≡ (if iblock ip.inum == s then put_dinode (l.view s) ip else l.view s)
unfolding inode_update
view-update {l = l} ip l' h below e s k =
    let t = iblock ip.inum in
    let (active, start, _, _) =
      log_write-IsActive h t (put_dinode (l.view t) ip) l' below (λ y. absurd (omega arith)) e in
    let shown = active.shown s (rw start k) in
    elim (ℕ_discrete t s) [
      | yes q ↦ rw (eq→== t s q) (shown ∙ rw (eq→== t s q) (ap (λ x. put_dinode (l.view x) ip) q))
      | no q ↦ rw (ne→== t s q) (shown ∙ rw (ne→== t s q) (sym (h.shown s k)))
    ]

module _ {old d : Disk} {l : Log} (ip : Inode) (l' : Log) (h : IsActive old d l)
    (below : iblock ip.inum < l.start) (s : IsShort ip) (e : inode_update l ip ≡ some l') where
  -- In a transaction, an inode_update that does not panic leaves the other inodes on the disk as they were.
  update-others :
      (jp : Inode)
      → iblock jp.inum < l.start
      → jp.inum ≢ ip.inum
      → IsSame (get_dinode (l'.view (iblock jp.inum)) jp) (get_dinode (l.view (iblock jp.inum)) jp)
  update-others jp k n =
      let seen = view-update ip l' h below e (iblock jp.inum) k in
      elim (ℕ_discrete (iblock ip.inum) (iblock jp.inum)) [
        | yes q ↦
            rw
              (seen
                ∙ ap
                    (λ t.
                      if t
                      then put_dinode (l.view (iblock jp.inum)) ip
                      else l.view (iblock jp.inum))
                    (eq→== (iblock ip.inum) (iblock jp.inum) q))
              (get_dinode-other (l.view (iblock jp.inum)) ip jp (sym q) n)
        | no q ↦
            rw
              (seen
                ∙ ap
                    (λ t.
                      if t
                      then put_dinode (l.view (iblock jp.inum)) ip
                      else l.view (iblock jp.inum))
                    (ne→== (iblock ip.inum) (iblock jp.inum) q))
              (unchanged-IsSame (l.view (iblock jp.inum)) jp)
      ]
