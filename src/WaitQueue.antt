-- ===== src/WaitQueue.antt =====
-- `waitq` of `struct flock_t` (mcertikos/kern/flock/flock.h) with `waitq_add` and `waitq_remove`
-- (mcertikos/kern/flock/flock.c): the processes that wait for one file lock, oldest first.
pub mod Order
pub mod Invariant
use advance_synchronization.Base.{
  ℕ, zero, suc, ◌+◌, ◌-◌, ◌%◌, ◌==◌, leb, if◌then◌else◌, update, not, ◌||◌, ltb,
}

-- NUM_IDS of kern/lib/x86.h.
abbrev pub num_ids : ℕ
num_ids = 64

-- The three arrays have `num_ids` slots; an array is a function of its index.
pub record WaitQueue : Type 0 where
  pub pids : ℕ → ℕ
  pub len : ℕ
  pub inq : ℕ → ℕ
  pub req : ℕ → ℕ

-- The conversion `(uint8_t) n`.
abbrev pub uint8 : ℕ → ℕ
uint8 n = n % 256

-- `len++` runs only below `num_ids`, so it cannot wrap.
unfoldable pub waitq_add : WaitQueue → ℕ → ℕ → WaitQueue
waitq_add q pid r =
    if leb num_ids pid
    then q
    else if not (q.inq pid == 0)
    then record q { req = update q.req pid (uint8 r) }
    else if ltb q.len num_ids
    then record q {
      pids = update q.pids q.len pid;
      len = q.len + 1;
      inq = update q.inq pid 1;
      req = update q.req pid (uint8 r);
    }
    else q

-- `for (; i + 1 < len; i++) pids[i] = pids[i + 1];` with `n` rounds left.
pub shift_down : ℕ → ℕ → (ℕ → ℕ) → ℕ → ℕ
shift_down zero i pids = pids
shift_down (suc n) i pids = shift_down n (i + 1) (update pids i (pids (i + 1)))

-- The search of `waitq_remove` from slot `i` on, with `n` slots left to look at.
pub remove_from : ℕ → ℕ → WaitQueue → ℕ → WaitQueue
remove_from zero i q pid = q
remove_from (suc n) i q pid =
    let rest = remove_from n (i + 1) q pid in
    if q.pids i == pid then record q { pids = shift_down n i q.pids; len = q.len - 1 } else rest

abbrev pub clear_marks : WaitQueue → ℕ → WaitQueue
clear_marks q pid = record q { inq = update q.inq pid 0; req = update q.req pid 0 }

unfoldable pub waitq_remove : WaitQueue → ℕ → WaitQueue
waitq_remove q pid =
    if leb num_ids pid || q.inq pid == 0 then q else clear_marks (remove_from q.len 0 q pid) pid

-- The part of `flock_init` that empties the queue: the loop clears every slot below `num_ids`.
clear_below : ℕ → (ℕ → ℕ) → ℕ → ℕ
clear_below zero a = a
clear_below (suc n) a = update (clear_below n a) n 0

unfoldable pub waitq_init : WaitQueue → WaitQueue
unfolding clear_below
waitq_init q = record q {
  len = 0;
  inq = clear_below num_ids q.inq;
  req = clear_below num_ids q.req;
}
