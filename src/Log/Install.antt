-- ===== src/Log/Install.antt =====
-- Installing the blocks of a committed transaction, and clearing the log after it.
use advance_synchronization.Base.{
  ℕ, zero, suc, ◌+◌, ◌<◌, ◌≤◌, ◌≡◌, ◌≢◌, refl, sym, ap, ◌∙◌, arith, inr,
}
use mathlib.Core.Path.{subst}
use native.Mathlib.Decide.{ℕ_discrete}
use advance_synchronization.Log.{
  Disk, Log, set_data, bufcache_write, install_from, install_trans, write_head,
}
use advance_synchronization.Log.Area.{
  All, IsCommitted, IsClear, IsRecoverable, header_counted, header_others, header_view,
}

-- The state with `t` blocks installed.
pub record IsInstalling (new : Disk) (t : ℕ) (l : Log) : Type 0 where
  pub counted : l.disk l.start 0 ≡ l.n
  pub named : (i : ℕ) → i < l.n → l.disk l.start (suc i) ≡ l.sector i
  pub logged : (i : ℕ) → i < l.n → l.disk (l.start + i + 1) ≡ new (l.sector i)
  pub before : (i : ℕ) → i < l.n → l.sector i < l.start
  pub not_super : (i : ℕ) → i < l.n → l.sector i ≢ 1
  pub rest : (s : ℕ) → s < l.start → ((i : ℕ) → t ≤ i → i < l.n → l.sector i ≢ s) → l.disk s ≡ new s
  pub shown : (i : ℕ) → i < l.n → l.view (l.start + i + 1) ≡ new (l.sector i)
  pub view_rest :
      (s : ℕ) → s < l.start → ((i : ℕ) → t ≤ i → i < l.n → l.sector i ≢ s) → l.view s ≡ new s

abbrev install_one : ℕ → Log → Log
install_one tail l =
    bufcache_write (set_data l (l.sector tail) (l.view (l.start + tail + 1))) (l.sector tail)

module _ {new : Disk} {t : ℕ} {l : Log} (h : IsInstalling new t l) where
  pub Installing-IsCommitted : IsCommitted l.start l.n l.sector new l.disk
  Installing-IsCommitted = record {
    counted = h.counted;
    named = h.named;
    logged = h.logged;
    before = h.before;
    not_super = h.not_super;
    rest = λ s b d. h.rest s b (λ i _ k. d i k);
  }

  later :
      (s : ℕ)
      → l.sector t ≢ s
      → ((i : ℕ) → suc t ≤ i → i < l.n → l.sector i ≢ s)
      → (i : ℕ) → t ≤ i
      → i < l.n
      → l.sector i ≢ s
  later s d f i a b = elim (ℕ_discrete t i) [ yes e ↦ rw (sym e) d | no e ↦ f i (omega arith) b ]

  one-IsInstalling : t < l.n → IsInstalling new (suc t) (install_one t l)
  unfolding set_data bufcache_write
  one-IsInstalling k =
      let b = h.before t k in
      let v = h.shown t k in
      record {
        counted = ground (arith, h.counted);
        named = λ i j. ground (arith, h.named i j);
        logged = λ i j. ground (arith, h.logged i j);
        before = h.before;
        not_super = h.not_super;
        rest = λ s a f. elim (ℕ_discrete (l.sector t) s) [
          | yes e ↦ ground (arith, v, e, ap new e)
          | no d ↦ ground (arith, h.rest s a (later s d f))
        ];
        shown = λ i j. ground (arith, h.shown i j);
        view_rest = λ s a f. elim (ℕ_discrete (l.sector t) s) [
          | yes e ↦ ground (arith, v, e, ap new e)
          | no d ↦ ground (arith, h.view_rest s a (later s d f))
        ];
      }

add_one : (t : ℕ) → t + 1 ≡ suc t
add_one t = omega arith

-- What the loop leaves alone.
abbrev SameHeader : Log → Log → Type 0
SameHeader l l' = (l'.start ≡ l.start) × (l'.n ≡ l.n) × (l'.size ≡ l.size) × (l'.busy ≡ l.busy)

install_next :
    (k t : ℕ) (l : Log) → install_from (suc k) t l ≡ install_from k (suc t) (install_one t l)
unfolding install_from
install_next k t l = ap (λ x. install_from k x (install_one t l)) (add_one t)

install_end : (t : ℕ) (l : Log) → install_from 0 t l ≡ l
unfolding install_from
install_end t l = refl

-- Every disk that the loop passes through can be repaired.
install_from_lem :
    (new : Disk) (P : Disk → Type 0) (k t : ℕ) (l : Log)
    → ((d : Disk) → IsRecoverable l.start new d → P d)
    → k + t ≡ l.n
    → IsInstalling new t l
    → All P l.passed
    → let l' = install_from k t l in IsInstalling new l'.n l' × All P l'.passed × SameHeader l l'
unfolding bufcache_write set_data
install_from_lem new P zero t l ok e h p =
    let f : t ≡ l.n = omega arith in
    rw (install_end t l) (subst (λ x. IsInstalling new x l) f h, p, (refl, refl, refl, refl))
install_from_lem new P (suc k) t l ok e h p =
    let h' = one-IsInstalling h (omega arith) in
    rw (install_next k t l) (
      install_from_lem new P k (suc t) (install_one t l) ok (omega arith) h'
        (ok l.disk (inr (l.n, l.sector, Installing-IsCommitted h)), p))

cleared :
    (new : Disk) (start : ℕ) (l : Log) (P : Disk → Type 0)
    → l.start ≡ start
    → ((d : Disk) → IsRecoverable start new d → P d)
    → IsInstalling new l.n l
    → All P l.passed
    → let l' = write_head (record l { n = 0 }) in
      IsClear start new l'.disk
      × ((s : ℕ) → s < start → l'.view s ≡ new s)
      × All P l'.passed
      × (l'.start ≡ start)
      × (l'.n ≡ 0)
      × (l'.size ≡ l.size)
      × (l'.busy ≡ l.busy)
unfolding write_head
cleared new start l P e ok h p =
    let m = record l { n = 0 } in
    let committed : IsCommitted start l.n l.sector new l.disk =
      rw (← e) (Installing-IsCommitted h) in
    (
      rw (← e) (record {
        empty = header_counted m;
        same = λ s b.
            header_others m s (λ d. absurd (omega arith))
            ∙ h.rest s (omega arith) (λ i a k. absurd (omega arith));
      }),
      λ s b.
          header_view m s (λ d. absurd (omega arith))
          ∙ h.view_rest s (omega arith) (λ i a k. absurd (omega arith)),
      (ok l.disk (inr (l.n, l.sector, committed)), p),
      e,
      refl,
      refl,
      refl,
    )

-- `install_trans`, and then the header that empties the log.
pub installed :
    (new : Disk) (P : Disk → Type 0) (l : Log)
    → ((d : Disk) → IsRecoverable l.start new d → P d)
    → IsInstalling new 0 l
    → All P l.passed
    → let l' = write_head (record (install_trans l) { n = 0 }) in
      IsClear l.start new l'.disk
      × ((s : ℕ) → s < l.start → l'.view s ≡ new s)
      × All P l'.passed
      × (l'.start ≡ l.start)
      × (l'.n ≡ 0)
      × (l'.size ≡ l.size)
      × (l'.busy ≡ l.busy)
unfolding install_trans
installed new P l ok h p =
    let (h', p', same) = install_from_lem new P l.n 0 l ok (omega arith) h p in
    let (clear, shown, ok, start, n, size, busy) =
      cleared new l.start (install_from l.n 0 l) P same.0 ok h' p' in
    (clear, shown, ok, start, n, size ∙ same.2, busy ∙ same.3)
