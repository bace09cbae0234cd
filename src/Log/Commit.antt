-- ===== src/Log/Commit.antt =====
-- `commit_trans` and the disks that it passes through.
use advance_synchronization.Base.{
  ℕ, ◌+◌, ◌<◌, ◌≡◌, refl, ◌∙◌, arith, ◌⊎◌, inl, inr, List, [], ◌∷◌, true, false, ltb,
}
use mathlib.Core.Path.{subst}
use native.Mathlib.Decide.{ℕ_discrete}
use advance_synchronization.Log.{Disk, Log, commit_trans, write_head, install_trans}
use advance_synchronization.Log.Area.{
  All, IsClear, IsRecoverable, header_counted, header_named, header_others, header_view,
}
use advance_synchronization.Log.Install.{IsInstalling, installed}
use advance_synchronization.Log.Append.{IsActive}

-- The log between transactions, with the blocks `old`.
pub record IsIdle (old : Disk) (l : Log) : Type 0 where
  pub idle : l.busy ≡ false
  pub no_blocks : l.n ≡ 0
  pub empty : l.disk l.start 0 ≡ 0
  pub home : (s : ℕ) → s < l.start → l.disk s ≡ old s
  pub shown : (s : ℕ) → s < l.start → l.view s ≡ old s

abbrev pub since : Log → Log
since l = record l { passed = [] }

pub All-map :
    (P Q : Disk → Type 0) (ds : List Disk) → ((d : Disk) → P d → Q d) → All P ds → All Q ds
All-map P Q [] f h = tt
All-map P Q (d ∷ ds) f (h, hs) = (f d h, All-map P Q ds f hs)

pub Idle-IsActive :
    (old : Disk) (l : Log) → IsIdle old l → IsActive old old (record l { busy = true; passed = [] })
Idle-IsActive old l h = record {
  active = refl;
  empty = h.empty;
  home = h.home;
  shown = h.shown;
  logged = λ i k. absurd (omega (arith, h.no_blocks));
  cached = λ i k. absurd (omega (arith, h.no_blocks));
  before = λ i k. absurd (omega (arith, h.no_blocks));
  not_super = λ i k. absurd (omega (arith, h.no_blocks));
  distinct = λ i j k m e. absurd (omega (arith, h.no_blocks));
  rest = λ s b f. refl;
  crash = tt;
}

Active-IsInstalling :
    (old new : Disk) (l : Log) → IsActive old new l → IsInstalling new 0 (write_head l)
unfolding write_head
Active-IsInstalling old new l h = record {
  counted = header_counted l;
  named = λ i k. header_named l i k;
  logged = λ i k. header_others l (l.start + i + 1) (λ e. absurd (omega arith)) ∙ h.logged i k;
  before = h.before;
  not_super = h.not_super;
  rest = λ s b f.
      header_others l s (λ e. absurd (omega arith))
      ∙ h.home s b
      ∙ h.rest s b (λ i k. f i (omega arith) k);
  shown = λ i k. header_view l (l.start + i + 1) (λ e. absurd (omega arith)) ∙ h.cached i k;
  view_rest = λ s b f. header_view l s (λ e. absurd (omega arith)) ∙ h.shown s b;
}

-- A disk that recovery takes to the blocks `old`, or to the blocks `new`.
abbrev pub Either : ℕ → Disk → Disk → Disk → Type 0
Either start old new d = IsRecoverable start old d ⊎ IsRecoverable start new d

pub record IsCommit (old new : Disk) (l l' : Log) : Type 0 where
  pub idle : IsIdle new l'
  pub at : l'.start ≡ l.start
  pub crash : All (Either l.start old new) l'.passed

head_start : (l : Log) → (write_head l).start ≡ l.start
unfolding write_head
head_start l = refl

head_passed :
    (P : Disk → Type 0) (l : Log) → P l.disk → All P l.passed → All P (write_head l).passed
unfolding write_head
head_passed P l h hs = (h, hs)

module _ (old new : Disk) (l : Log) (h : IsActive old new l) where
  crash_active : All (Either l.start old new) l.passed
  crash_active =
      All-map (IsClear l.start old) (Either l.start old new) l.passed (λ d c. inl (inl c)) h.crash

  IsCommit-none : l.n ≡ 0 → IsCommit old new l (record l { busy = false })
  IsCommit-none e = record {
    idle = record {
      idle = refl;
      no_blocks = e;
      empty = h.empty;
      home = λ s b. h.home s b ∙ h.rest s b (λ i k. absurd (omega arith));
      shown = h.shown;
    };
    at = refl;
    crash = crash_active;
  }

  IsCommit-some :
      IsCommit old new l
        (record (write_head (record (install_trans (write_head l)) { n = 0 })) { busy = false })
  IsCommit-some =
      let P = Either l.start old new in
      let (clear, shown, ok, start, n, _, _) =
        installed new P (write_head l)
          (λ d r. inr (subst (λ x. IsRecoverable x new d) (head_start l) r))
          (Active-IsInstalling old new l h)
          (head_passed P l (inl (inl (record { empty = h.empty; same = h.home }))) crash_active) in
      record {
        idle = record {
          idle = refl;
          no_blocks = n;
          empty = rw start clear.empty;
          home = λ s b. clear.same s (omega (arith, start));
          shown = λ s b. shown s (omega (arith, start));
        };
        at = start ∙ head_start l;
        crash = ok;
      }

  pub commit_lem : IsCommit old new l (commit_trans l)
  unfolding commit_trans
  commit_lem = elim (ℕ_discrete l.n 0) [
    | yes e ↦ let t : ltb 0 l.n ≡ false = ground arith in rw t (IsCommit-none e)
    | no d ↦ let t : ltb 0 l.n ≡ true = ground arith in rw t IsCommit-some
  ]
