-- ===== src/Log/Append.antt =====
-- `log_write` of a block that the caller has changed.
use advance_synchronization.Base.{
  ℕ, zero, suc, ◌+◌, ◌<◌, ◌≤◌, ◌≡◌, ◌≢◌, refl, sym, ◌∙◌, arith, ◌⊎◌, inl, inr, ◌∷◌, some, true,
  update, ◌==◌, if◌then◌else◌,
}
use native.Mathlib.Decide.{ℕ_discrete}
use advance_synchronization.Transfer.{logsize}
use advance_synchronization.Log.{Block, Disk, Log, set_data, find_sector, log_write}
use advance_synchronization.Log.Area.{All, IsClear}

-- A transaction in progress: the blocks before the log are `old` on the disk and `new` in what is read.
pub record IsActive (old new : Disk) (l : Log) : Type 0 where
  pub active : l.busy ≡ true
  pub empty : l.disk l.start 0 ≡ 0
  pub home : (s : ℕ) → s < l.start → l.disk s ≡ old s
  pub shown : (s : ℕ) → s < l.start → l.view s ≡ new s
  pub logged : (i : ℕ) → i < l.n → l.disk (l.start + i + 1) ≡ new (l.sector i)
  pub cached : (i : ℕ) → i < l.n → l.view (l.start + i + 1) ≡ new (l.sector i)
  pub before : (i : ℕ) → i < l.n → l.sector i < l.start
  pub not_super : (i : ℕ) → i < l.n → l.sector i ≢ 1
  pub distinct : (i j : ℕ) → i < l.n → j < l.n → l.sector i ≡ l.sector j → i ≡ j
  pub rest : (s : ℕ) → s < l.start → ((i : ℕ) → i < l.n → l.sector i ≢ s) → old s ≡ new s
  pub crash : All (IsClear l.start old) l.passed

-- The place in the log for sector `s`: where it stands, or the next.
record IsSlot (n : ℕ) (sector : ℕ → ℕ) (s i : ℕ) : Type 0 where
  within : i ≤ n
  others : (j : ℕ) → j < n → j ≢ i → sector j ≢ s
  same : i < n → sector i ≡ s

find_sector_lem :
    (k i : ℕ) (sector : ℕ → ℕ) (s : ℕ)
    → let r = find_sector k i sector s in
      ((r < i + k) × (sector r ≡ s)) ⊎ ((r ≡ i + k) × ((j : ℕ) → i ≤ j → j < i + k → sector j ≢ s))
unfolding find_sector
find_sector_lem zero i sector s = inr (omega arith, λ j a b. absurd (omega arith))
find_sector_lem (suc k) i sector s = elim (ℕ_discrete (sector i) s) [
  | yes e ↦ inl (ground arith)
  | no d ↦ elim (find_sector_lem k (i + 1) sector s) [
    | inl (a, b) ↦ inl (ground arith)
    | inr (a, b) ↦ inr (
      ground arith,
      λ j u v. elim (ℕ_discrete j i) [ yes e ↦ rw e d | no f ↦ b j (omega arith) (omega arith) ],
    )
  ]
]

-- The state after `log_write` put the buffer of sector `s` at place `i`.
abbrev put : Log → ℕ → ℕ → Log
put l s i = record l {
  sector = update l.sector i s;
  view = update l.view (l.start + i + 1) (l.view s);
  disk = update l.disk (l.start + i + 1) (l.view s);
  passed = l.disk ∷ l.passed;
  n = if i == l.n then l.n + 1 else l.n;
}

module _ {old new : Disk} {l : Log} (h : IsActive old new l) where
  slot : (s : ℕ) → IsSlot l.n l.sector s (find_sector l.n 0 l.sector s)
  slot s = elim (find_sector_lem l.n 0 l.sector s) [
    | inl (a, b) ↦ record {
      within = omega arith;
      others =
          λ j k d e. d (h.distinct j (find_sector l.n 0 l.sector s) k (omega arith) (e ∙ sym b));
      same = λ k. b;
    }
    | inr (a, b) ↦ record {
      within = omega arith;
      others = λ j k d. b j (omega arith) (omega arith);
      same = λ k. absurd (omega arith);
    }
  ]

  module _ (s : ℕ) (b : Block) (below : s < l.start) (d1 : s ≢ 1) (i : ℕ)
      (place : IsSlot l.n l.sector s i) where
    edited : Log
    unfolding set_data
    edited = put (set_data l s b) s i

    held : (j : ℕ) → j < edited.n → j ≢ i → j < l.n
    unfolding edited
    held j k d = ground arith

    edited_cached :
        (j : ℕ) → j < edited.n → edited.view (l.start + j + 1) ≡ update new s b (edited.sector j)
    unfolding edited
    edited_cached j k = elim (ℕ_discrete i j) [
      | yes e ↦ ground (arith, place.within)
      | no d ↦
          let a = held j k (λ e. d (sym e)) in
          ground (arith, h.cached j a, place.others j a (λ e. d (sym e)))
    ]

    edited_logged :
        (j : ℕ) → j < edited.n → edited.disk (l.start + j + 1) ≡ update new s b (edited.sector j)
    unfolding edited
    edited_logged j k = elim (ℕ_discrete i j) [
      | yes e ↦ ground (arith, place.within)
      | no d ↦
          let a = held j k (λ e. d (sym e)) in
          ground (arith, h.logged j a, place.others j a (λ e. d (sym e)))
    ]

    edited_before : (j : ℕ) → j < edited.n → (edited.sector j < l.start) × (edited.sector j ≢ 1)
    unfolding edited
    edited_before j k = elim (ℕ_discrete i j) [
      | yes e ↦ (ground arith, ground arith)
      | no d ↦
          let a = held j k (λ e. d (sym e)) in
          (ground (arith, h.before j a), ground (arith, h.not_super j a))
    ]

    edited_distinct :
        (j k : ℕ) → j < edited.n → k < edited.n → edited.sector j ≡ edited.sector k → j ≡ k
    unfolding edited
    edited_distinct j k u v e = elim (ℕ_discrete i j) [
      | yes p ↦ elim (ℕ_discrete i k) [
        | yes q ↦ omega arith
        | no q ↦
            let a = held k v (λ x. q (sym x)) in ground (arith, place.others k a (λ x. q (sym x)))
      ]
      | no p ↦
          let a = held j u (λ x. p (sym x)) in
          elim (ℕ_discrete i k) [
            | yes q ↦ ground (arith, place.others j a (λ x. p (sym x)))
            | no q ↦ let c = held k v (λ x. q (sym x)) in h.distinct j k a c (ground arith)
          ]
    ]

    edited_rest :
        (t : ℕ)
        → t < l.start
        → ((j : ℕ) → j < edited.n → edited.sector j ≢ t)
        → old t ≡ update new s b t
    unfolding edited
    edited_rest t k f =
        let d : s ≢ t = ground (arith, f i, place.within) in
        let apart : (j : ℕ) → j < l.n → l.sector j ≢ t = λ j a. elim (ℕ_discrete i j) [
          | yes e ↦ rw (sym e) (rw (place.same (omega arith)) d)
          | no e ↦ ground (arith, f j)
        ] in
        h.rest t k apart ∙ ground arith

    edited-IsActive : IsActive old (update new s b) edited
    edited-IsActive = record {
      active = unfold edited in h.active;
      empty = unfold edited in ground (arith, h.empty);
      home = λ t k. unfold edited in ground (arith, h.home t k);
      shown = λ t k. unfold edited in ground (arith, h.shown t k);
      logged = unfold edited in edited_logged;
      cached = unfold edited in edited_cached;
      before = λ j k. unfold edited in (edited_before j k).0;
      not_super = λ j k. unfold edited in (edited_before j k).1;
      distinct = edited_distinct;
      rest = unfold edited in edited_rest;
      crash = unfold edited in (record { empty = h.empty; same = h.home }, h.crash);
    }

  log_write-put :
      (s : ℕ) (b : Block) {l' : Log}
      → log_write (set_data l s b) s ≡ some l'
      → l' ≡ put (set_data l s b) s (find_sector l.n 0 l.sector s)
  unfolding log_write
  log_write-put s b e = ground arith

  -- The next two are about an update of a block by a caller and the `log_write` after it.
  pub log_write-IsActive :
      (s : ℕ) (b : Block) (l' : Log)
      → s < l.start
      → s ≢ 1
      → log_write (set_data l s b) s ≡ some l'
      → IsActive old (update new s b) l'
        × (l'.start ≡ l.start)
        × (l'.size ≡ l.size)
        × (l'.n ≤ l.n + 1)
  unfolding edited set_data
  log_write-IsActive s b l' below d e = rw (log_write-put s b e) (
    edited-IsActive s b below d (find_sector l.n 0 l.sector s) (slot s),
    refl,
    refl,
    ground arith,
  )

  pub log_write_room :
      (s : ℕ) (b : Block)
      → l.n < logsize
      → l.n + 1 < l.size
      → (l' : Log) × (log_write (set_data l s b) s ≡ some l')
  unfolding log_write set_data
  log_write_room s b a c =
      (put (set_data l s b) s (find_sector l.n 0 l.sector s), ground (arith, h.active))
