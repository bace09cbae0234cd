-- ===== src/Examples/Logs.antt =====
-- A disk of 20 blocks with a log of five at block 15, and a transaction that writes two blocks.
use advance_synchronization.Base.{◌≡◌, refl, arith, [], ◌∷◌, some, false, inr, if◌then◌else◌, ◌==◌}
use advance_synchronization.Log.{
  Block, Disk, Log, log_init, write_head, write_sectors, install_trans, install_from, set_data,
  bufcache_write, recover_from_log, read_head, read_sectors,
}
use advance_synchronization.Log.Area.{All, IsCommitted}
use advance_synchronization.Log.Recovery.{IsRecovered, log_init_recovers}
use advance_synchronization.Log.Commit.{IsIdle, since}
use advance_synchronization.Log.Transaction.{
  Updates, transaction, after, Recovers, crash_atomic, transaction_room,
}

abbrev super_block : Block
super_block w = if w == 0 then 20 else if w == 3 then 5 else 0

abbrev small_disk : Disk
small_disk s = if s == 1 then super_block else λ w. 0

abbrev small_log : Log
small_log = record {
  disk = small_disk;
  passed = [];
  view = small_disk;
  start = 15;
  size = 5;
  busy = false;
  n = 0;
  sector = λ i. 0;
}

abbrev two_updates : Updates
two_updates = (7, λ w. 1) ∷ (9, λ w. 2) ∷ []

small_log-IsIdle : IsIdle small_disk small_log
small_log-IsIdle = record {
  idle = refl;
  no_blocks = refl;
  empty = refl;
  home = λ s b. refl;
  shown = λ s b. refl;
}

-- The state after it, and that it is reached.
two_written : (l' : Log) × (transaction two_updates (since small_log) ≡ some l')
two_written =
    transaction_room small_disk two_updates small_log small_log-IsIdle (omega arith) (omega arith)
      (omega arith)

crash_atomic_example :
    IsIdle (after two_updates small_disk) two_written.0
    × (two_written.0.start ≡ 15)
    × All
        (Recovers 15 small_disk (after two_updates small_disk))
        (two_written.0.disk ∷ two_written.0.passed)
crash_atomic_example =
    crash_atomic small_disk two_updates small_log (omega arith) refl small_log-IsIdle (omega arith)
      two_written.0 two_written.1

-- The same disk after a commit of block 7 that has not reached its place.
abbrev after_commit : Disk
after_commit s =
    if s == 1
    then super_block
    else if s == 15
    then (λ w. if w == 0 then 1 else if w == 1 then 7 else 0)
    else if s == 16
    then (λ w. 5)
    else (λ w. 0)

abbrev with_block : Disk
with_block s = if s == 7 then (λ w. 5) else small_disk s

after_commit-IsCommitted : IsCommitted 15 1 (λ i. 7) with_block after_commit
after_commit-IsCommitted = record {
  counted = refl;
  named = λ i k. ground arith;
  logged = λ i k. ground arith;
  before = λ i k. omega arith;
  not_super = λ i k. omega arith;
  rest = λ s b f. let d = f 0 (omega arith) in ground arith;
}

log_init_recovers_example : IsRecovered 15 with_block (log_init after_commit)
log_init_recovers_example =
    log_init_recovers 15 with_block after_commit (omega arith) refl
      (inr (1, λ i. 7, after_commit-IsCommitted))

recovered_block : (log_init after_commit).disk 7 3 ≡ 5
unfolding log_init recover_from_log read_head read_sectors write_head write_sectors install_trans
    install_from set_data bufcache_write
recovered_block = refl
