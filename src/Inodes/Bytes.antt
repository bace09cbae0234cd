-- ===== src/Inodes/Bytes.antt =====
-- Bytes of a block that are copied in and out.
use advance_synchronization.Base.{
  ℕ, zero, suc, ◌+◌, ◌-◌, ◌*◌, ◌/◌, ◌%◌, ◌≡◌, ap, arith, ◌==◌, ltb, leb, ◌&&◌, if◌then◌else◌,
}
use native.Mathlib.Decide.{ℕ_discrete}
use advance_synchronization.Log.{Block}
use advance_synchronization.Inodes.Data.{get_byte, set_byte, byte_at, with_byte, copy_in, copy_out}

get_byte-set_byte :
    (j k v w : ℕ) → get_byte j (set_byte k v w) ≡ (if k == j then v % 256 else get_byte j w)
unfolding get_byte set_byte
get_byte-set_byte zero zero v w = omega arith
get_byte-set_byte zero (suc k) v w = ground arith
get_byte-set_byte (suc j) zero v w =
    let rest : (w / 256 * 256 + v % 256) / 256 ≡ w / 256 = omega arith in
    ground (arith, ap (get_byte j) rest)
get_byte-set_byte (suc j) (suc k) v w =
    let rest : (set_byte k v (w / 256) * 256 + w % 256) / 256 ≡ set_byte k v (w / 256) =
      omega arith in
    ground (arith, ap (get_byte j) rest, get_byte-set_byte j k v (w / 256))

same_place : (i j : ℕ) → i / 4 ≡ j / 4 → i % 4 ≡ j % 4 → i ≡ j
same_place i j p q = omega arith

byte_at-with_byte :
    (b : Block) (i v j : ℕ)
    → byte_at (with_byte b i v) j ≡ (if i == j then v % 256 else byte_at b j)
byte_at-with_byte b i v j = elim (ℕ_discrete (i / 4) (j / 4)) [
  | yes e ↦ ground (arith, get_byte-set_byte (j % 4) (i % 4) v (b (i / 4)), same_place i j, ap b e)
  | no d ↦ ground arith
]

-- The bytes of a block after `m` bytes were copied into it.
pub byte_at-copy_in :
    (m : ℕ) (b : Block) (at : ℕ) (src : ℕ → ℕ) (j : ℕ)
    → byte_at (copy_in m b at src) j
      ≡ (if leb at j && ltb j (at + m) then src (j - at) % 256 else byte_at b j)
unfolding copy_in
byte_at-copy_in zero b at src j = ground arith
byte_at-copy_in (suc m) b at src j = elim (ℕ_discrete (at + m) j) [
  | yes e ↦
      let place : j - at ≡ m = omega arith in
      ground (arith, byte_at-with_byte (copy_in m b at src) (at + m) (src m) j, ap src place)
  | no d ↦ ground (
    arith,
    byte_at-with_byte (copy_in m b at src) (at + m) (src m) j,
    byte_at-copy_in m b at src j,
  )
]

-- Memory after `m` bytes of a block were copied to `dst`.
pub copy_out_lem :
    (m : ℕ) (mem : ℕ → ℕ) (dst : ℕ) (b : Block) (at i : ℕ)
    → copy_out m mem dst b at i
      ≡ (if leb dst i && ltb i (dst + m) then byte_at b (at + (i - dst)) else mem i)
unfolding copy_out
copy_out_lem zero mem dst b at i = ground arith
copy_out_lem (suc m) mem dst b at i = elim (ℕ_discrete (dst + m) i) [
  | yes e ↦
      let place : i - dst ≡ m = omega arith in ground (arith, ap (λ x. byte_at b (at + x)) place)
  | no d ↦ ground (arith, copy_out_lem m mem dst b at i)
]
