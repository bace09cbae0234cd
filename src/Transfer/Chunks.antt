-- ===== src/Transfer/Chunks.antt =====
-- How the loop of `file_write` ends.
use advance_synchronization.Base.{
  ℕ, zero, suc, ◌+◌, ◌-◌, ◌≤◌, ◌<◌, ◌%◌, ◌^◌, ◌≡◌, refl, sym, ap, ◌∙◌, arith, ◌==◌, eq→==, ltb,
  true, pos,
}
use advance_synchronization.File.{File, fd_inode}
use advance_synchronization.Transfer.{
  InodeLayer, done, chunk, max_chunk, advance, write_from, file_write,
}

chunk_bounds :
    (left : ℕ) → 0 < left → (0 < chunk left) × (chunk left ≤ left) × (chunk left ≤ max_chunk)
unfolding chunk
chunk_bounds left p = (ground arith, ground arith, ground arith)

advance_twice : (a b c : ℕ) → ((a + b) % 2 ^ 32 + c) % 2 ^ 32 ≡ (a + (b + c)) % 2 ^ 32
advance_twice a b c = omega arith

mod_lt : (a : ℕ) → a % 2 ^ 32 < 2 ^ 32
mod_lt a = omega arith

mod_small : (a : ℕ) → a < 2 ^ 32 → (a + 0) % 2 ^ 32 ≡ a
mod_small a h = omega arith

same_done :
    {Disk : Type 0} (d : Disk) (f : File) (a b i j : ℕ)
    → a ≡ b
    → i ≡ j
    → done d (record f { off = a }) (pos i) ≡ done d (record f { off = b }) (pos j)
same_done d f a b i j p q = rw (p, q) refl

module _ {Disk : Type 0} (layer : InodeLayer Disk) where
  -- Every write that fits in a transaction moves all bytes.
  abbrev pub IsFull : Type 0
  IsFull =
      (d : Disk) (ip addr off n : ℕ) → n ≤ max_chunk → (layer.inode_write d ip addr off n).1 ≡ pos n

  round_lem :
      (k : ℕ) (d : Disk) (f : File) (addr i left : ℕ)
      → IsFull
      → 0 < left
      → (d' : Disk) × (write_from layer (suc k) d f addr i left
          ≡ write_from layer k d'
              (record f { off = (f.off + chunk left) % 2 ^ 32 })
              addr
              (i + chunk left)
              (left - chunk left))
  unfolding write_from advance
  round_lem k d f addr i left full p =
      let (_, _, fits) = chunk_bounds left p in
      let w = full (layer.begin_trans d) f.ip (addr + i) f.off (chunk left) fits in
      let t : ltb 0 left ≡ true = ground arith in
      let e : (chunk left == chunk left) ≡ true = eq→== (chunk left) (chunk left) refl in
      (
        layer.commit_trans
            (layer.inode_write (layer.begin_trans d) f.ip (addr + i) f.off (chunk left)).0,
        simp (t, w, e) refl,
      )

  loop_lem :
      (k : ℕ) (d : Disk) (f : File) (addr i left : ℕ)
      → IsFull
      → f.off < 2 ^ 32
      → left < k
      → (d' : Disk) × (write_from layer k d f addr i left
          ≡ done d' (record f { off = (f.off + left) % 2 ^ 32 }) (pos (i + left)))
  unfolding write_from
  loop_lem zero d f addr i left full h b = ground arith
  loop_lem (suc k) d f addr i zero full h b = (
    d,
    same_done d f f.off ((f.off + 0) % 2 ^ 32) i (i + 0) (sym (mod_small f.off h)) (omega arith),
  )
  loop_lem (suc k) d f addr i (suc left) full h b =
      let (p, q, _) = chunk_bounds (suc left) (ground arith) in
      let (d1, s) = round_lem k d f addr i (suc left) full (ground arith) in
      let (d2, e) =
        loop_lem k d1 (record f { off = (f.off + chunk (suc left)) % 2 ^ 32 }) addr
          (i + chunk (suc left)) (suc left - chunk (suc left)) full
          (mod_lt (f.off + chunk (suc left))) (omega arith) in
      let c = chunk (suc left) in
      let all : c + (suc left - c) ≡ suc left = omega arith in
      let off = advance_twice f.off c (suc left - c) ∙ ap (λ m. (f.off + m) % 2 ^ 32) all in
      (
        d2,
        s
            ∙ e
            ∙ same_done d2 f (((f.off + c) % 2 ^ 32 + (suc left - c)) % 2 ^ 32)
                ((f.off + suc left) % 2 ^ 32) (i + c + (suc left - c)) (i + suc left) off
                (omega arith),
      )

starts :
    {Disk : Type 0} (layer : InodeLayer Disk) (d : Disk) (f : File) (addr n : ℕ)
    → f.kind ≡ fd_inode
    → f.writable ≡ true
    → file_write layer d f addr (pos n) ≡ write_from layer (suc n) d f addr 0 n
unfolding file_write
starts layer d f addr n k w = simp (k, w) refl

-- If the inode layer does not fail and writes all bytes of a request that fits in a transaction, file_write
-- on an inode that is open for writing returns `n` for every `n`, however large, and moves the offset,
-- below 2 ^ 32 before, by `n` modulo 2 ^ 32.
pub file_write_lem :
    {Disk : Type 0} (layer : InodeLayer Disk) (d : Disk) (f : File) (addr n : ℕ)
    → IsFull layer
    → f.kind ≡ fd_inode
    → f.writable ≡ true
    → f.off < 2 ^ 32
    → (d' : Disk) × (file_write layer d f addr (pos n)
        ≡ done d' (record f { off = (f.off + n) % 2 ^ 32 }) (pos n))
file_write_lem layer d f addr n full k w h =
    let (d', e) = loop_lem layer (suc n) d f addr 0 n full h (omega arith) in
    let off = (f.off + n) % 2 ^ 32 in
    (d', starts layer d f addr n k w ∙ e ∙ same_done d' f off off (0 + n) n refl (omega arith))
