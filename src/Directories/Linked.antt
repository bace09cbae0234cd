-- ===== src/Directories/Linked.antt =====
-- A call of `dir_link`, and a `dir_lookup` behind it.
use advance_synchronization.Base.{
  ℕ, suc, ◌+◌, ◌*◌, ◌%◌, ◌^◌, ◌<◌, ◌≤◌, ◌≡◌, ◌≢◌, refl, sym, ap, ◌∙◌, arith, ◌==◌, if◌then◌else◌,
  update, eq→==, Option, none, some, bind, bind-some, false, inl, inr, ℤ, pos,
}
use mathlib.Core.Path.{subst}
use native.Mathlib.Decide.{ℕ_discrete, dec_lt}
use advance_synchronization.Log.{Disk, Log}
use advance_synchronization.Log.Append.{IsActive}
use advance_synchronization.Inodes.{Inode, maxfile}
use advance_synchronization.Inodes.Data.{Devsw, bsize, inode_write}
use advance_synchronization.Inodes.Cache.{Slots, inode_get}
use advance_synchronization.Inodes.Volume.{IsVolume}
use advance_synchronization.Inodes.Saving.{IsSaved, refuses, inode_write_lem}
use advance_synchronization.Inodes.Reading.{Present}
use advance_synchronization.Inodes.Overwriting.{HasRoom, blocks, inode_write_returns}
use advance_synchronization.Directories.{
  dirent_size, dirent_inum, is_match, is_dirent, dir_lookup, dir_link, new_dirent,
}
use advance_synchronization.Directories.Lookup.{dirent_at, IsDirectory, dir_lookup_lem}
use advance_synchronization.Directories.Link.{
  matches-new, free_from-lem, linked-IsDirectory, other_entry, new_entry, new_size,
}
use advance_synchronization.Directories.Branches.{
  link-taken, link-free, whole_before, new_byte, wrote,
}

module _ (devsw : Devsw) (l : Log) (slots : Slots) (dp : ℕ) (name : ℕ → ℕ) (inum : ℕ) {old d : Disk}
    (active : IsActive old d l) (v : IsVolume l.start (slots dp).inum d)
    (h : IsDirectory l d (slots dp)) where
  abbrev dir : Inode
  dir = slots dp

  -- What a call that returns 0 has done.
  record IsLinked (l' : Log) (slots' : Slots) : Type 0 where
    absent :
        (p : ℕ)
        → 0 ≤ p
        → p < dir.size
        → p % dirent_size ≡ 0
        → is_match (dirent_at d dir p) name ≡ false
    at : ℕ
    at_le : at ≤ dir.size
    at_whole : at % dirent_size ≡ 0
    disk : Disk
    inode : Inode
    stored : slots' ≡ update slots dp inode
    saved : IsSaved old d l dir (λ i. new_dirent inum name (0 + i)) at dirent_size disk l' inode

  link-IsLinked :
      (l' : Log) (slots' : Slots)
      → dir_link devsw l slots dp name inum ≡ some (l', slots', pos 0)
      → IsLinked l' slots'
  link-IsLinked l' slots' e = elim (dir_lookup_lem devsw l d slots dp h name) [
    | inr (o, _, found) ↦ absurd (
        link-taken devsw l slots dp name inum o
          (inode_get slots dir.dev (dirent_inum (dirent_at d dir o))) found l' slots' e)
    | inl (absent, found) ↦
        let (o, o_le, o_at, place) =
          free_from-lem devsw l d slots dp h (suc dir.size) 0 refl (omega arith) (omega arith) in
        let ((l1, ip1, r), e1, e2) =
          bind-some (inode_write devsw l dir (new_dirent inum name) 0 o dirent_size) _
            (l', slots', pos 0) (sym (link-free devsw l slots dp name inum o found place) ∙ e) in
        let (all, same_log, same_slots) = wrote l1 l' ip1 slots slots' dp r e2 in
        elim (inode_write_lem devsw l dir (new_dirent inum name) 0 o dirent_size
          (λ y. absurd (omega (arith, h.kind))) active v h.file l1 ip1 r e1) [
            | inl (_, q, _, _) ↦ cc
            | inr (_, _, d', s) ↦ record {
              absent = absent;
              at = o;
              at_le = o_le;
              at_whole = o_at;
              disk = d';
              inode = ip1;
              stored = sym same_slots;
              saved =
                  subst
                    (λ x.
                      IsSaved old d l dir (λ i. new_dirent inum name (0 + i)) o dirent_size d' x
                        ip1)
                    same_log s;
            }
          ]
  ]

  stored_at : (l' : Log) (slots' : Slots) (k : IsLinked l' slots') → slots' dp ≡ k.inode
  stored_at l' slots' k =
      ap (λ (s : Slots). s dp) k.stored
      ∙ ap (λ t. if t then k.inode else slots dp) (eq→== dp dp refl)

  -- In a transaction, on a file system in order, with the blocks of the directory in order and all there: after a
  -- dir_link that returns 0, for a number that is not 0 as 16 bits, dir_lookup of the same name does not panic
  -- unless inode_get does, and gets the inode of that number, at an offset where the entry of the name is new;
  -- the other entries are as they were, and the blocks of the directory in order and all there.
  pub link_lookup :
      ((j : ℕ) → name j < 256)
      → inum % 2 ^ 16 ≢ 0
      → (l' : Log) (slots' : Slots) → dir_link devsw l slots dp name inum ≡ some (l', slots', pos 0)
      → (d' : Disk) × (o : ℕ) × IsDirectory l' d' (slots' dp)
        × (dir_lookup devsw l' slots' dp name
            ≡ bind
                (inode_get slots' dir.dev (inum % 2 ^ 16))
                (λ (q : Slots × ℕ). some (l', q.0, some (q.1, o))))
        × ((p : ℕ)
            → p % dirent_size ≡ 0
            → p < dir.size
            → p ≢ o
            → dirent_at d' (slots' dp) p ≡ dirent_at d dir p)
  link_lookup bytes z l' slots' e =
      let k = link-IsLinked l' slots' e in
      let src : ℕ → ℕ = λ i. new_dirent inum name (0 + i) in
      let s : IsSaved old d l dir src k.at dirent_size k.disk l' (slots' dp) =
        subst (λ x. IsSaved old d l dir src k.at dirent_size k.disk l' x)
          (sym (stored_at l' slots' k)) k.saved in
      let h' = linked-IsDirectory h src k.at s k.at_le k.at_whole in
      let others = other_entry h src k.at s k.at_le k.at_whole in
      let size = new_size h src k.at s k.at_le k.at_whole in
      let (number, match_new) =
        matches-new (dirent_at k.disk (slots' dp) k.at) inum name
          (λ i q. new_entry h src k.at s k.at_le k.at_whole i q ∙ new_byte inum name bytes i) z in
      let within : k.at < (slots' dp).size =
        let (a, b) : (k.at ≤ dir.size)
            × ((slots' dp).size ≡ (if dir.size == k.at then k.at + dirent_size else dir.size)) =
          (k.at_le, size) in
        ground arith in
      (
        k.disk,
        k.at,
        h',
        elim (dir_lookup_lem devsw l' k.disk slots' dp h' name) [
          | inl (f, _) ↦ let no = f k.at (omega arith) within k.at_whole in cc
          | inr (o, q, found) ↦
              let place : o ≡ k.at = elim (ℕ_discrete o k.at) [
                | yes x ↦ x
                | no n ↦
                    let below : o < dir.size =
                      let (a, b) : (o < (slots' dp).size)
                          × ((slots' dp).size
                              ≡ (if dir.size == k.at then k.at + dirent_size else dir.size)) =
                        (q.before, size) in
                      whole_before o k.at dir.size (slots' dp).size h.whole q.aligned k.at_whole n a
                        b in
                    let was = k.absent o (omega arith) below q.aligned in
                    let is = ap (λ x. is_match x name) (others o q.aligned below n) in
                    cc (was, is, q.matches)
              ] in
              let answer : ℕ → (Slots × ℕ) → Option (Log × Slots × Option (ℕ × ℕ)) =
                λ x r. some (l', r.0, some (r.1, x)) in
              subst
                (λ x.
                  dir_lookup devsw l' slots' dp name
                  ≡ bind
                      (inode_get slots' (slots' dp).dev
                        (dirent_inum (dirent_at k.disk (slots' dp) x)))
                      (answer x))
                place found
              ∙ ap (λ x. bind (inode_get slots' (slots' dp).dev x) (answer k.at)) number
              ∙ ap (λ x. bind (inode_get slots' x (inum % 2 ^ 16)) (answer k.at)) s.same_dev
        ],
        others,
      )

  pub dir_link_returns :
      ((p : ℕ) → p < dir.size → p % dirent_size ≡ 0 → is_match (dirent_at d dir p) name ≡ false)
      → Present d dir dir.size dirent_size
      → dir.size + dirent_size ≤ maxfile * bsize
      → HasRoom l 2
      → (l' : Log) × (slots' : Slots) × (dir_link devsw l slots dp name inum
          ≡ some (l', slots', pos 0))
  dir_link_returns absent there small room = elim (dir_lookup_lem devsw l d slots dp h name) [
    | inr (o, q, _) ↦ let no = absent o q.before q.aligned in let yes = q.matches in cc
    | inl (_, found) ↦
        let (o, o_le, o_at, place) =
          free_from-lem devsw l d slots dp h (suc dir.size) 0 refl (omega arith) (omega arith) in
        let accepted : refuses dir o dirent_size ≡ false = ground arith in
        let one : blocks o dirent_size ≡ 1 = omega arith in
        let present : Present d dir o dirent_size = λ p a b. elim (dec_lt p dir.size) [
          | yes k ↦ h.all p (omega arith) (omega arith)
          | no k ↦ there p (omega arith) (omega arith)
        ] in
        let (l1, ip1, e) =
          inode_write_returns devsw l dir (new_dirent inum name) 0 o dirent_size
            (λ y. absurd (omega (arith, h.kind))) active v h.file accepted present
            (omega (arith, room.0), omega (arith, room.1)) in
        (
          l1,
          update slots dp ip1,
          link-free devsw l slots dp name inum o found place
              ∙ ap
                  (λ x. bind x (λ (q : Log × Inode × ℤ).
                    if◌then◌else◌ {A = Option (Log × Slots × ℤ)} (is_dirent q.2)
                      (some (q.0, update slots dp q.1, pos 0)) none))
                  e,
        )
  ]
