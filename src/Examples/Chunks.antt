-- ===== src/Examples/Chunks.antt =====
-- A write of 4000 bytes takes three transactions. The disk of this layer is the list of the sizes written.
use advance_synchronization.Base.{
  ℕ, ◌≡◌, arith, ltb, if◌then◌else◌, refl, true, false, ◌≤◌, List, [], ◌∷◌, pos, negsuc,
}
use advance_synchronization.File.{File, fd_inode}
use advance_synchronization.Transfer.{
  InodeLayer, done, chunk, advance, write_from, file_write, max_chunk,
}
use advance_synchronization.Examples.Run.{no_file}

abbrev sizes : InodeLayer (List ℕ)
sizes = record {
  begin_trans = λ d. d;
  commit_trans = λ d. d;
  inode_read = λ d ip addr off n. (d, n);
  inode_write = λ d ip addr off n. if ltb max_chunk n then (d, negsuc 0) else (n ∷ d, pos n);
}

fits :
    (d : List ℕ) (ip addr off n : ℕ) → n ≤ max_chunk → (sizes.inode_write d ip addr off n).1 ≡ pos n
fits d ip addr off n h = let t : ltb max_chunk n ≡ false = ground arith in rw t refl

abbrev output : File
output = record no_file { kind = fd_inode; ref = 1; writable = true; off = 100 }

three_transactions :
    file_write sizes [] output 0 (pos 4000)
    ≡ done (928 ∷ 1536 ∷ 1536 ∷ []) (record output { off = 4100 }) (pos 4000)
unfolding file_write write_from chunk advance
three_transactions = refl
