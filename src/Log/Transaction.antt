-- ===== src/Log/Transaction.antt =====
-- A transaction as a caller runs it: begin, updates of blocks that are logged, commit.
use advance_synchronization.Base.{
  ℕ, suc, ◌+◌, ◌<◌, ◌≤◌, ◌≡◌, ◌≢◌, refl, sym, ◌∙◌, arith, ◌⊎◌, inl, inr, List, [], ◌∷◌, Option,
  some, none, true, false, update, Option-cases,
}
use mathlib.Core.Path.{subst}
use advance_synchronization.Transfer.{logsize}
use advance_synchronization.Log.{
  Block, Disk, Log, set_data, log_write, begin_trans, commit_trans, log_init,
}
use advance_synchronization.Log.Area.{All, LogAt, IsClear}
use advance_synchronization.Log.Recovery.{IsRecovered, log_init_recovers}
use advance_synchronization.Log.Commit.{
  All-map, IsIdle, since, Idle-IsActive, Either, IsCommit, commit_lem,
}
use advance_synchronization.Log.Append.{IsActive, log_write-IsActive, log_write_room}

-- Blocks to write, with their sectors.
abbrev pub Updates : Type 0
Updates = List (ℕ × Block)

unfoldable pub updates : Updates → Log → Option Log
updates [] l = some l
updates ((s, b) ∷ ws) l = elim (log_write (set_data l s b) s) [
  | none ↦ none
  | some l' ↦ updates ws l'
]

unfoldable pub transaction : Updates → Log → Option Log
transaction ws l = elim (begin_trans l) [
  | none ↦ none
  | some l1 ↦ elim (updates ws l1) [ none ↦ none | some l2 ↦ some (commit_trans l2) ]
]

-- What the updates make of the blocks.
abbrev pub after : Updates → Disk → Disk
after [] d = d
after ((s, b) ∷ ws) d = after ws (update d s b)

-- All updates are of blocks before the log other than the super block.
abbrev pub AreBlocks : ℕ → Updates → Type 0
AreBlocks start [] = Unit {0}
AreBlocks start ((s, b) ∷ ws) = (s < start) × (s ≢ 1) × AreBlocks start ws

abbrev pub length : Updates → ℕ
length [] = 0
length (w ∷ ws) = suc (length ws)

updates-none :
    (s : ℕ) (b : Block) (ws : Updates) (l : Log)
    → log_write (set_data l s b) s ≡ none
    → updates ((s, b) ∷ ws) l ≡ none
unfolding updates
updates-none s b ws l e = rw (e, updates) refl

updates-some :
    (s : ℕ) (b : Block) (ws : Updates) (l m : Log)
    → log_write (set_data l s b) s ≡ some m
    → updates ((s, b) ∷ ws) l ≡ updates ws m
unfolding updates
updates-some s b ws l m e = rw (e, updates) refl

updates-IsActive :
    (old new : Disk) (ws : Updates) (l l' : Log)
    → IsActive old new l
    → AreBlocks l.start ws
    → updates ws l ≡ some l'
    → IsActive old (after ws new) l' × (l'.start ≡ l.start)
unfolding updates
updates-IsActive old new [] l l' h a e =
    let f : l ≡ l' = cc in subst (λ x. IsActive old new x × (x.start ≡ l.start)) f (h, refl)
updates-IsActive old new ((s, b) ∷ ws) l l' h (below, d, a) e =
    elim (Option-cases (log_write (set_data l s b) s)) [
      | inl f ↦ let e' = sym (updates-none s b ws l f) ∙ e in cc
      | inr (m, f) ↦
          let (h', at, _, _) = log_write-IsActive h s b m below d f in
          let (h'', at') =
            updates-IsActive old (update new s b) ws m l' h' (rw at a)
              (sym (updates-some s b ws l m f) ∙ e) in
          (h'', at' ∙ at)
    ]

begun : Log → Log
begun l = record l { busy = true; passed = [] }

module _ (ws : Updates) (l : Log) (free : l.busy ≡ false) where
  transaction-none : updates ws (begun l) ≡ none → transaction ws (since l) ≡ none
  unfolding transaction begin_trans begun
  transaction-none e = rw (free, e, transaction) refl

  transaction-some :
      (m : Log) → updates ws (begun l) ≡ some m → transaction ws (since l) ≡ some (commit_trans m)
  unfolding transaction begin_trans begun
  transaction-some m e = rw (free, e, transaction) refl

pub transaction-IsCommit :
    (old : Disk) (ws : Updates) (l l' : Log)
    → IsIdle old l
    → AreBlocks l.start ws
    → transaction ws (since l) ≡ some l'
    → IsCommit old (after ws old) l l'
unfolding begun
transaction-IsCommit old ws l l' h a e = elim (Option-cases (updates ws (begun l))) [
  | inl f ↦ let e' = sym (transaction-none ws l h.idle f) ∙ e in cc
  | inr (m, f) ↦
      let (h', at) = updates-IsActive old old ws (begun l) m (Idle-IsActive old l h) a f in
      let same : commit_trans m ≡ l' =
        (let e' = sym (transaction-some ws l h.idle m f) ∙ e in cc) in
      let c = commit_lem old (after ws old) m h' in
      subst (λ x. IsCommit old (after ws old) l x) same
        (record {
          idle = c.idle;
          at = c.at ∙ at;
          crash = subst (λ x. All (Either x old (after ws old)) (commit_trans m).passed) at c.crash;
        })
]

after_super : (start : ℕ) (ws : Updates) (d : Disk) → AreBlocks start ws → after ws d 1 ≡ d 1
after_super start [] d a = refl
after_super start ((s, b) ∷ ws) d (_, n, a) = after_super start ws (update d s b) a ∙ ground arith

abbrev pub Recovers : ℕ → Disk → Disk → Disk → Type 0
Recovers start old new d = IsRecovered start old (log_init d) ⊎ IsRecovered start new (log_init d)

module _ (old : Disk) (ws : Updates) (l : Log) (behind : 1 < l.start) (at : LogAt l.start (old 1))
    (idle : IsIdle old l) (blocks : AreBlocks l.start ws) where
  Either-Recovers :
      (d : Disk) → Either l.start old (after ws old) d → Recovers l.start old (after ws old) d
  Either-Recovers d (inl h) = inl (log_init_recovers l.start old d behind at h)
  Either-Recovers d (inr h) =
      let at' : LogAt l.start (after ws old 1) = rw (after_super l.start ws old blocks) at in
      inr (log_init_recovers l.start (after ws old) d behind at' h)

  -- A transaction on an idle log of updates of blocks before the log, other than the super block, that does
  -- not panic leaves the log idle over the updated blocks, with none of the rest changed; and from each disk
  -- that it passes through, log_init recovers the blocks before all updates or those after all updates.
  pub crash_atomic :
      (l' : Log)
      → transaction ws (since l) ≡ some l'
      → IsIdle (after ws old) l'
        × (l'.start ≡ l.start)
        × All (Recovers l.start old (after ws old)) (l'.disk ∷ l'.passed)
  crash_atomic l' e =
      let c = transaction-IsCommit old ws l l' idle blocks e in
      let last : IsClear l.start (after ws old) l'.disk = record {
        empty = subst (λ x. l'.disk x 0 ≡ 0) c.at c.idle.empty;
        same = λ s b. c.idle.home s (rw c.at b);
      } in
      (
        c.idle,
        c.at,
        (
          Either-Recovers l'.disk (inr (inl last)),
          All-map (Either l.start old (after ws old)) (Recovers l.start old (after ws old))
              l'.passed Either-Recovers c.crash,
        ),
      )

updates_room :
    (old new : Disk) (ws : Updates) (l : Log)
    → IsActive old new l
    → AreBlocks l.start ws
    → l.n + length ws ≤ logsize
    → l.n + length ws < l.size
    → (l' : Log) × (updates ws l ≡ some l')
unfolding updates
updates_room old new [] l h a b c = (l, refl)
updates_room old new ((s, x) ∷ ws) l h (below, d, a) b c =
    let (m, f) = log_write_room h s x (omega arith) (omega arith) in
    let (h', at, size, grown) = log_write-IsActive h s x m below d f in
    let (l', e) =
      updates_room old (update new s x) ws m h' (rw at a) (omega arith) (omega (arith, size)) in
    (l', updates-some s x ws l m f ∙ e)

pub transaction_room :
    (old : Disk) (ws : Updates) (l : Log)
    → IsIdle old l
    → AreBlocks l.start ws
    → length ws ≤ logsize
    → length ws < l.size
    → (l' : Log) × (transaction ws (since l) ≡ some l')
unfolding begun
transaction_room old ws l h a b c =
    let (m, f) =
      updates_room old old ws (begun l) (Idle-IsActive old l h) a (omega (arith, h.no_blocks))
        (omega (arith, h.no_blocks)) in
    (commit_trans m, transaction-some ws l h.idle m f)
