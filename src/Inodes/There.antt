-- ===== src/Inodes/There.antt =====
-- `bmap` of a block that the file has.
use advance_synchronization.Base.{
  ℕ, ◌-◌, ◌<◌, ◌≡◌, ◌≢◌, refl, sym, ap, ◌∙◌, arith, ◌==◌, ltb, ne→==, some, true, false,
}
use native.Mathlib.Decide.{dec_lt}
use advance_synchronization.Log.{Block, Disk, Log}
use advance_synchronization.Inodes.{
  Inode, ndirect, nindirect, maxfile, bmap, bmap_direct, bmap_indirect, bmap_entry,
}
use advance_synchronization.Inodes.Entries.{entry, IsFile, with_addrs}
use advance_synchronization.Inodes.Mapping.{same_addrs, or_alloc-there}

-- Where the file has the block, `bmap` changes nothing.
module _ (l : Log) (ip : Inode) where
  direct_there : (bn : ℕ) → ip.addrs bn ≢ 0 → bmap_direct l ip bn ≡ some (l, ip, ip.addrs bn)
  unfolding bmap_direct
  direct_there bn z =
      rw (bmap_direct, or_alloc-there l (ip.addrs bn) z)
        (ap (λ a. some (l, with_addrs ip a, ip.addrs bn))
          (sym (same_addrs ip.addrs bn (ip.addrs bn) refl)))

  entry_there : (ind j : ℕ) → l.view ind j ≢ 0 → bmap_entry l ind j ≡ some (l, l.view ind j)
  unfolding bmap_entry
  entry_there ind j z = rw (ne→== (l.view ind j) 0 z) refl

  indirect_there :
      (j : ℕ)
      → ip.addrs ndirect ≢ 0
      → l.view (ip.addrs ndirect) j ≢ 0
      → bmap_indirect l ip j ≡ some (l, ip, l.view (ip.addrs ndirect) j)
  unfolding bmap_indirect
  indirect_there j z y =
      rw (bmap_indirect, direct_there ndirect z, entry_there (ip.addrs ndirect) j y) refl

  pub bmap_there :
      (start : ℕ) (d : Disk) (bn : ℕ)
      → ((s : ℕ) → s < start → l.view s ≡ d s)
      → IsFile start d ip
      → bn < maxfile
      → entry d ip bn ≢ 0
      → bmap l ip bn ≡ some (l, ip, entry d ip bn)
  unfolding bmap
  bmap_there start d bn shown f k z = elim (dec_lt bn ndirect) [
    | yes h ↦
        let t : ltb bn ndirect ≡ true = ground arith in rw t (direct_there bn (λ y. z (rw t y)))
    | no h ↦
        let t : ltb bn ndirect ≡ false = ground arith in
        let u : ltb (bn - ndirect) nindirect ≡ true = ground arith in
        let some_ind : ip.addrs ndirect ≢ 0 = λ y. z (ground arith) in
        let seen : l.view (ip.addrs ndirect) ≡ d (ip.addrs ndirect) =
          shown (ip.addrs ndirect) (f.indirect some_ind).before in
        let q : (ip.addrs ndirect == 0) ≡ false = ne→== (ip.addrs ndirect) 0 some_ind in
        let at = ap (λ (x : Block). x (bn - ndirect)) seen in
        let there : l.view (ip.addrs ndirect) (bn - ndirect) ≢ 0 =
          λ y. z (rw (t, q) (sym at ∙ y)) in
        rw (t, u, q) (indirect_there (bn - ndirect) some_ind there ∙ ap (λ x. some (l, ip, x)) at)
  ]
