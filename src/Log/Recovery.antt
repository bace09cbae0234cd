-- ===== src/Log/Recovery.antt =====
-- The recovery at a start, from any disk that can be repaired, and after a crash of the recovery itself.
use advance_synchronization.Base.{
  ℕ, ◌<◌, ◌≤◌, ◌≡◌, ◌≢◌, refl, sym, ap, ◌∙◌, arith, inl, inr, [], false,
}
use advance_synchronization.Log.{
  Block, Disk, Log, sb_nlog, read_head, read_sectors, recover_from_log, log_init,
}
use advance_synchronization.Log.Area.{
  All, LogAt, IsCommitted, IsClear, IsRecoverable, read_sectors_lem,
}
use advance_synchronization.Log.Install.{IsInstalling, installed}

-- The state in which `log_init` calls `recover_from_log`.
abbrev boot : ℕ → Disk → Log
boot start d = record {
  disk = d;
  passed = [];
  view = d;
  start = start;
  size = sb_nlog (d 1);
  busy = false;
  n = 0;
  sector = λ i. 0;
}

module _ {start : ℕ} {new d : Disk} where
  Committed-IsInstalling :
      (n : ℕ) (sector : ℕ → ℕ)
      → IsCommitted start n sector new d
      → IsInstalling new 0 (read_head (boot start d))
  unfolding read_head
  Committed-IsInstalling n sector h =
      let named : (i : ℕ)
          → i < d start 0
          → read_sectors (d start 0) (d start) (λ j. 0) i ≡ sector i =
        λ i k.
          read_sectors_lem (d start 0) (d start) (λ j. 0) i k
          ∙ h.named i (omega (arith, h.counted)) in
      let known : (i : ℕ) → i < d start 0 → i < n = λ i k. omega (arith, h.counted) in
      let apart : (s : ℕ)
          → ((i : ℕ) → 0 ≤ i → i < d start 0 → read_sectors (d start 0) (d start) (λ j. 0) i ≢ s)
          → (i : ℕ) → i < n
          → sector i ≢ s =
        λ s f i k e.
          f i (omega arith) (omega (arith, h.counted)) (named i (omega (arith, h.counted)) ∙ e) in
      record {
        counted = refl;
        named = λ i k. sym (read_sectors_lem (d start 0) (d start) (λ j. 0) i k);
        logged = λ i k. h.logged i (known i k) ∙ ap new (sym (named i k));
        before = λ i k. rw (named i k) (h.before i (known i k));
        not_super = λ i k. rw (named i k) (h.not_super i (known i k));
        rest = λ s b f. h.rest s b (apart s f);
        shown = λ i k. h.logged i (known i k) ∙ ap new (sym (named i k));
        view_rest = λ s b f. h.rest s b (apart s f);
      }

  Clear-IsInstalling : IsClear start new d → IsInstalling new 0 (read_head (boot start d))
  unfolding read_head
  Clear-IsInstalling h = record {
    counted = refl;
    named = λ i k. absurd (omega (arith, h.empty));
    logged = λ i k. absurd (omega (arith, h.empty));
    before = λ i k. absurd (omega (arith, h.empty));
    not_super = λ i k. absurd (omega (arith, h.empty));
    rest = λ s b f. h.same s b;
    shown = λ i k. absurd (omega (arith, h.empty));
    view_rest = λ s b f. h.same s b;
  }

  read-IsInstalling : IsRecoverable start new d → IsInstalling new 0 (read_head (boot start d))
  read-IsInstalling (inl h) = Clear-IsInstalling h
  read-IsInstalling (inr (n, sector, h)) = Committed-IsInstalling n sector h

  super_block : 1 < start → IsRecoverable start new d → d 1 ≡ new 1
  super_block b (inl h) = h.same 1 b
  super_block b (inr (n, sector, h)) = h.rest 1 b h.not_super

log_init-boot :
    (start : ℕ) (d : Disk) → LogAt start (d 1) → log_init d ≡ recover_from_log (boot start d)
unfolding log_init
log_init-boot start d e = ap (λ x. recover_from_log (boot x d)) e

-- The state after a recovery that found the blocks `new`.
pub record IsRecovered (start : ℕ) (new : Disk) (l : Log) : Type 0 where
  pub clear : IsClear start new l.disk
  pub shown : (s : ℕ) → s < start → l.view s ≡ new s
  pub crash : All (IsRecoverable start new) l.passed
  pub log_start : l.start ≡ start
  pub log_size : l.size ≡ sb_nlog (new 1)
  pub idle : l.busy ≡ false
  pub no_blocks : l.n ≡ 0

boot-IsRecovered :
    (start : ℕ) (new d : Disk)
    → 1 < start
    → IsRecoverable start new d
    → IsRecovered start new (recover_from_log (boot start d))
unfolding recover_from_log read_head
boot-IsRecovered start new d b h =
    let (clear, shown, crash, at, n, size, busy) =
      installed new (IsRecoverable start new) (read_head (boot start d)) (λ c r. r)
        (read-IsInstalling h) tt in
    record {
      clear = clear;
      shown = shown;
      crash = crash;
      log_start = at;
      log_size = size ∙ ap (λ (x : Block). sb_nlog x) (super_block b h);
      idle = busy;
      no_blocks = n;
    }

-- From a disk whose log is empty or holds a committed transaction, log_init leaves the blocks before the
-- log as they are with the transaction, on the disk and in what is read from it, and the log empty; and
-- every disk that it passes through is again such a disk, for the same blocks.
pub log_init_recovers :
    (start : ℕ) (new d : Disk)
    → 1 < start
    → LogAt start (new 1)
    → IsRecoverable start new d
    → IsRecovered start new (log_init d)
log_init_recovers start new d b e h =
    let f : LogAt start (d 1) = rw (super_block b h) e in
    rw (log_init-boot start d f) (boot-IsRecovered start new d b h)
