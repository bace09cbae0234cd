-- ===== src/Examples/Folders.antt =====
-- A directory with one empty entry in block 5, on the disk of the file's example, gets the name "ab".
use advance_synchronization.Base.{
  ℕ, ◌/◌, ◌%◌, ap, ◌∙◌, ◌<◌, ◌≡◌, ◌≢◌, refl, arith, some, pos, false, if◌then◌else◌, ◌==◌, bind,
}
use advance_synchronization.Log.{Disk, Log}
use advance_synchronization.Inodes.{Inode, maxfile, t_dir}
use advance_synchronization.Inodes.Data.{bsize, get_byte}
use advance_synchronization.Inodes.Cache.{Slots, inode_get}
use advance_synchronization.Inodes.Entries.{entry, IsFile}
use advance_synchronization.Directories.{dir_lookup, dir_link, is_match, dirent_inum, dirent_size}
use advance_synchronization.Directories.Lookup.{dirent_at, IsDirectory, Outcome, dir_lookup_lem}
use advance_synchronization.Directories.Linked.{link_lookup, dir_link_returns}
use advance_synchronization.Examples.Bitmap.{with_bits, in_transaction}
use advance_synchronization.Examples.Files.{
  bits, file, no_devices, begun, volume, ordered, file_entry,
}

abbrev folder : Inode
folder = record file { kind = t_dir; size = 16 }

abbrev slots : Slots
slots i = if i == 0 then folder else record file { ref = 0 }

abbrev name : ℕ → ℕ
name i = if i == 0 then 97 else if i == 1 then 98 else 0

folder-IsFile : IsFile 15 (with_bits bits) folder
folder-IsFile = record {
  mapped = ordered.mapped;
  indirect = ordered.indirect;
  distinct = ordered.distinct;
  apart = ordered.apart;
}

first_block :
    (o : ℕ) → o < 512 → (o / bsize < maxfile) × (entry (with_bits bits) folder (o / bsize) ≢ 0)
first_block o k = let e = file_entry (o / bsize) in (omega arith, ground arith)

folder-IsDirectory : IsDirectory (in_transaction bits) (with_bits bits) (slots 0)
folder-IsDirectory = record {
  shown = λ s k. refl;
  file = folder-IsFile;
  kind = refl;
  whole = refl;
  all = λ o a b. first_block o (omega arith);
}

no_entry : dirent_inum (dirent_at (with_bits bits) folder 0) ≡ 0
unfolding get_byte
no_entry = refl

absent :
    (p : ℕ)
    → p < 16
    → p % dirent_size ≡ 0
    → is_match (dirent_at (with_bits bits) folder p) name ≡ false
absent p k a =
    let first : p ≡ 0 = omega arith in
    let no : dirent_inum (dirent_at (with_bits bits) folder p) ≡ 0 =
      ap (λ x. dirent_inum (dirent_at (with_bits bits) folder x)) first ∙ no_entry in
    ground (arith, no)

dir_lookup_lem_example :
    Outcome no_devices
      (in_transaction bits)
      (with_bits bits)
      slots
      0
      folder-IsDirectory
      name
      0
      (dir_lookup no_devices (in_transaction bits) slots 0 name)
dir_lookup_lem_example =
    dir_lookup_lem no_devices (in_transaction bits) (with_bits bits) slots 0 folder-IsDirectory name

linked :
    (l' : Log) × (slots' : Slots) × (dir_link no_devices (in_transaction bits) slots 0 name 7
      ≡ some (l', slots', pos 0))
linked =
    dir_link_returns no_devices (in_transaction bits) slots 0 name 7 begun volume folder-IsDirectory
      absent (λ o a b. first_block o (omega arith)) (omega arith) (omega arith, omega arith)

name-bytes : (j : ℕ) → name j < 256
name-bytes j = ground arith

link_lookup_example :
    (d' : Disk) × (o : ℕ) × IsDirectory linked.0 d' (linked.1 0)
    × (dir_lookup no_devices linked.0 linked.1 0 name
        ≡ bind (inode_get linked.1 0 7) (λ (q : Slots × ℕ). some (linked.0, q.0, some (q.1, o))))
    × ((p : ℕ)
        → p % dirent_size ≡ 0
        → p < 16
        → p ≢ o
        → dirent_at d' (linked.1 0) p ≡ dirent_at (with_bits bits) folder p)
link_lookup_example =
    link_lookup no_devices (in_transaction bits) slots 0 name 7 begun volume folder-IsDirectory
      name-bytes (omega arith) linked.0 linked.1 linked.2
