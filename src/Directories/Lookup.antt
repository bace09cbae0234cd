-- ===== src/Directories/Lookup.antt =====
-- `dir_lookup` and the entries of the directory on the disk.
use advance_synchronization.Base.{
  ℕ, zero, suc, ◌+◌, ◌-◌, ◌/◌, ◌%◌, ◌^◌, ◌<◌, ◌≤◌, ◌≡◌, refl, sym, ap, ◌∙◌, arith, if◌then◌else◌,
  ltb, leb, ◌&&◌, update, eq→==, ne→==, Option, none, some, bind, fun_ext, Bool-cases, true, false,
  ◌⊎◌, inl, inr, pos,
}
use mathlib.Core.Path.{subst}
use native.Mathlib.Decide.{ℕ_discrete, dec_lt}
use advance_synchronization.Log.{Disk, Log}
use advance_synchronization.Inodes.{Inode, t_dir, maxfile}
use advance_synchronization.Inodes.Data.{Devsw, bsize, inode_read}
use advance_synchronization.Inodes.Cache.{Slots, inode_get}
use advance_synchronization.Inodes.Entries.{content, IsFile}
use advance_synchronization.Inodes.Reading.{Present, read_accepted, read_from-there}
use advance_synchronization.Directories.{
  dirent_size, dirent_inum, is_match, read_dirent, lookup_from, dir_lookup,
}

-- The directory entry at the offset, as it stands on the disk.
abbrev pub dirent_at : Disk → Inode → ℕ → ℕ → ℕ
dirent_at d ip off i = if ltb i dirent_size then content d ip (off + i) else 0

-- The blocks of a directory are in order and all there, and its size is that of whole entries.
pub record IsDirectory (l : Log) (d : Disk) (ip : Inode) : Type 0 where
  pub shown : (s : ℕ) → s < l.start → l.view s ≡ d s
  pub file : IsFile l.start d ip
  pub kind : ip.kind ≡ t_dir
  pub whole : ip.size % dirent_size ≡ 0
  pub all : Present d ip 0 ip.size

pub same_slots : (slots : Slots) (dp : ℕ) → update slots dp (slots dp) ≡ slots
same_slots slots dp = fun_ext λ j. elim (ℕ_discrete dp j) [
  | yes q ↦ rw (eq→== dp j q) (ap slots q)
  | no q ↦ rw (ne→== dp j q) refl
]

pub small_size :
    (size off : ℕ) (big : (o : ℕ) → 0 ≤ o → o < 0 + size → o / bsize < maxfile)
    → size % dirent_size ≡ 0
    → off % dirent_size ≡ 0
    → off < size
    → (off + dirent_size ≤ size) × (off + dirent_size < 2 ^ 32)
small_size size off big w a h =
    let fits : off + dirent_size ≤ size = omega arith in
    let x = big (off + 15) (omega arith) (omega arith) in (fits, omega arith)

entry_byte :
    (held : ℕ → ℕ) (off i : ℕ)
    → (if leb 0 i && ltb i (0 + dirent_size) then held (off + (i - 0)) else 0)
      ≡ (if ltb i dirent_size then held (off + i) else 0)
entry_byte held off i = ground arith

read_from-accepted :
    (devsw : Devsw) (l : Log) (ip : Inode) (off : ℕ) (de : ℕ → ℕ)
    → inode_read devsw l ip (λ i. 0) 0 off dirent_size ≡ some (l, ip, de, pos dirent_size)
    → read_dirent devsw l ip off ≡ some (l, ip, de)
unfolding read_dirent
read_from-accepted devsw l ip off de e = rw (read_dirent, e) refl

module _ (devsw : Devsw) (l : Log) (d : Disk) (slots : Slots) (dp : ℕ)
    (h : IsDirectory l d (slots dp)) where
  abbrev dir : Inode
  dir = slots dp

  pub read_dirent-there :
      (off : ℕ)
      → off % dirent_size ≡ 0
      → off < dir.size
      → read_dirent devsw l dir off ≡ some (l, dir, dirent_at d dir off)
  read_dirent-there off a k =
      let (fits, small) = small_size dir.size off (λ o p q. (h.all o p q).0) h.whole a k in
      let (de, e, bytes) =
        read_from-there l dir l.start d h.shown h.file (suc dirent_size) (λ i. 0) 0 off dirent_size
          (pos dirent_size) (omega arith) (λ o p q. h.all o (omega arith) (omega arith)) in
      let accepted =
        read_accepted devsw l dir (λ i. 0) 0 off dirent_size (λ y. absurd (omega (arith, h.kind)))
          fits small in
      let same : de ≡ dirent_at d dir off =
        fun_ext λ i. bytes i ∙ entry_byte (content d dir) off i in
      read_from-accepted devsw l dir off (dirent_at d dir off)
        (accepted ∙ e ∙ ap (λ x. some (l, dir, x, pos dirent_size)) same)

  lookup-end :
      (k : ℕ) (name : ℕ → ℕ) (off : ℕ)
      → dir.size ≤ off
      → lookup_from (suc k) devsw l slots dp name off ≡ some (l, slots, none)
  unfolding lookup_from
  lookup-end k name off h' = let t : ltb off dir.size ≡ false = ground arith in rw t refl

  lookup-step :
      (k : ℕ) (name : ℕ → ℕ) (off : ℕ)
      → off % dirent_size ≡ 0
      → off < dir.size
      → lookup_from (suc k) devsw l slots dp name off ≡ (
          if is_match (dirent_at d dir off) name
          then bind
              (inode_get slots dir.dev (dirent_inum (dirent_at d dir off)))
              (λ (r : Slots × ℕ). some (l, r.0, some (r.1, off)))
          else lookup_from k devsw l slots dp name ((off + dirent_size) % 2 ^ 32))
  unfolding lookup_from
  lookup-step k name off a small =
      let t : ltb off dir.size ≡ true = ground arith in
      rw (t, read_dirent-there off a small, same_slots slots dp) refl

  -- The first entry of the name, and what a look-up does with it.
  pub record IsFirst (name : ℕ → ℕ) (off o : ℕ) : Type 0 where
    pub after : off ≤ o
    pub before : o < dir.size
    pub aligned : o % dirent_size ≡ 0
    pub matches : is_match (dirent_at d dir o) name ≡ true
    pub first :
        (p : ℕ) → off ≤ p → p < o → p % dirent_size ≡ 0 → is_match (dirent_at d dir p) name ≡ false

  abbrev pub Outcome : (ℕ → ℕ) → ℕ → Option (Log × Slots × Option (ℕ × ℕ)) → Type 0
  Outcome name off r =
      (((p : ℕ)
          → off ≤ p
          → p < dir.size
          → p % dirent_size ≡ 0
          → is_match (dirent_at d dir p) name ≡ false)
        × (r ≡ some (l, slots, none)))
      ⊎ ((o : ℕ) × IsFirst name off o
          × (r
              ≡ bind (inode_get slots dir.dev (dirent_inum (dirent_at d dir o)))
                  (λ (q : Slots × ℕ). some (l, q.0, some (q.1, o)))))

  further :
      (name : ℕ → ℕ) (off o : ℕ)
      → off % dirent_size ≡ 0
      → is_match (dirent_at d dir off) name ≡ false
      → ((p : ℕ)
          → off + dirent_size ≤ p
          → p < o
          → p % dirent_size ≡ 0
          → is_match (dirent_at d dir p) name ≡ false)
      → (p : ℕ) → off ≤ p
      → p < o
      → p % dirent_size ≡ 0
      → is_match (dirent_at d dir p) name ≡ false
  further name off o a t f p b c e = elim (ℕ_discrete off p) [
    | yes q ↦ subst (λ x. is_match (dirent_at d dir x) name ≡ false) q t
    | no q ↦ f p (omega arith) c e
  ]

  later :
      (name : ℕ → ℕ) (off : ℕ) (r : Option (Log × Slots × Option (ℕ × ℕ)))
      → off % dirent_size ≡ 0
      → is_match (dirent_at d dir off) name ≡ false
      → Outcome name (off + dirent_size) r
      → Outcome name off r
  later name off r a t (inl (f, e)) = inl (further name off dir.size a t f, e)
  later name off r a t (inr (o, q, e)) = inr (
    o,
    record {
      after = let x = q.after in omega arith;
      before = q.before;
      aligned = q.aligned;
      matches = q.matches;
      first = further name off o a t q.first;
    },
    e,
  )

  lookup_from-lem :
      (k : ℕ) (name : ℕ → ℕ) (off : ℕ)
      → off % dirent_size ≡ 0
      → off ≤ dir.size
      → dir.size < off + k
      → Outcome name off (lookup_from k devsw l slots dp name off)
  lookup_from-lem zero name off a g f = absurd (omega arith)
  lookup_from-lem (suc k) name off a g f = elim (dec_lt off dir.size) [
    | no z ↦ inl (λ p b c e. absurd (omega arith), lookup-end k name off (omega arith))
    | yes z ↦ elim (Bool-cases (is_match (dirent_at d dir off) name)) [
      | inl t ↦ inr (
        off,
        record {
          after = omega arith;
          before = z;
          aligned = a;
          matches = t;
          first = λ p b c e. absurd (omega arith);
        },
        lookup-step k name off a z ∙ rw t refl,
      )
      | inr t ↦
          let (fits, small) = small_size dir.size off (λ o p q. (h.all o p q).0) h.whole a z in
          let next : (off + dirent_size) % 2 ^ 32 ≡ off + dirent_size = omega arith in
          let step : lookup_from (suc k) devsw l slots dp name off
              ≡ lookup_from k devsw l slots dp name (off + dirent_size) =
            lookup-step k name off a z ∙ rw (t, next) refl in
          later name off (lookup_from (suc k) devsw l slots dp name off) a t (
            subst (Outcome name (off + dirent_size)) (sym step)
              (lookup_from-lem k name (off + dirent_size) (omega arith) fits (omega arith)))
    ]
  ]

  -- On a directory whose blocks are in order and all there, dir_lookup does not change the disk: it gives NULL
  -- where no entry in use has the name, and otherwise gets the inode of the first that does, and tells its offset.
  pub dir_lookup_lem : (name : ℕ → ℕ) → Outcome name 0 (dir_lookup devsw l slots dp name)
  unfolding dir_lookup
  dir_lookup_lem name =
      rw (eq→== dir.kind t_dir h.kind)
        (lookup_from-lem (suc dir.size) name 0 refl (omega arith) (omega arith))
