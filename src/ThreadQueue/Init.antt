-- ===== src/ThreadQueue/Init.antt =====
-- What the boot leaves behind: `tqueue_init` of mcertikos/kern/thread/PTQueueInit/PTQueueInit.c.
use advance_synchronization.Base.{ℕ, zero, suc, ◌+◌, ◌<◌, ◌≤◌, ◌≡◌, refl, sym, ◌∙◌, arith, []}
use native.Mathlib.Decide.{ℕ_discrete}
use advance_synchronization.WaitQueue.{num_ids}
use advance_synchronization.ThreadQueue.{
  Tcb, Threads, dead, num_cpus, nil_id, tcb_init_at_id, tcb_init_from, tqueue_init_at_id,
  tqueue_init_from, tqueue_init,
}
use advance_synchronization.ThreadQueue.Links.{IsQueue}

tqueue_init_from-below :
    (n chid : ℕ) (k : Threads) (c : ℕ)
    → c < chid
    → ((tqueue_init_from n chid k).head c ≡ k.head c)
      × ((tqueue_init_from n chid k).tail c ≡ k.tail c)
unfolding tqueue_init_from
tqueue_init_from-below zero chid k c l = (refl, refl)
tqueue_init_from-below (suc n) chid k c l =
    let (h, t) = tqueue_init_from-below n (chid + 1) (tqueue_init_at_id k chid) c (omega arith) in
    (h ∙ ground arith, t ∙ ground arith)

-- The ends of the queues from `chid` on are cleared, and the rest is left alone.
tqueue_init_from-ends :
    (n chid : ℕ) (k : Threads) (c : ℕ)
    → chid ≤ c
    → c < chid + n
    → ((tqueue_init_from n chid k).head c ≡ nil_id) × ((tqueue_init_from n chid k).tail c ≡ nil_id)
unfolding tqueue_init_from
tqueue_init_from-ends zero chid k c l h = absurd (omega arith)
tqueue_init_from-ends (suc n) chid k c l h = elim (ℕ_discrete c chid) [
  | yes e ↦
      let (same_head, same_tail) =
        tqueue_init_from-below n (chid + 1) (tqueue_init_at_id k chid) c (omega arith) in
      (same_head ∙ ground arith, same_tail ∙ ground arith)
  | no d ↦
      tqueue_init_from-ends n (chid + 1) (tqueue_init_at_id k chid) c (omega arith) (omega arith)
]

tqueue_init_from-tcb : (n chid : ℕ) (k : Threads) → (tqueue_init_from n chid k).tcb ≡ k.tcb
unfolding tqueue_init_from
tqueue_init_from-tcb zero chid k = refl
tqueue_init_from-tcb (suc n) chid k = tqueue_init_from-tcb n (chid + 1) (tqueue_init_at_id k chid)

tcb_init_from-below :
    (n pid root : ℕ) (k : Threads) (x : ℕ) → x < pid → (tcb_init_from n pid root k).tcb x ≡ k.tcb x
unfolding tcb_init_from tcb_init_at_id
tcb_init_from-below zero pid root k x l = refl
tcb_init_from-below (suc n) pid root k x l =
    tcb_init_from-below n (pid + 1) root (tcb_init_at_id k root pid) x (omega arith) ∙ ground arith

-- A block that holds a thread not in use, linked to none.
pub record IsFresh (root : ℕ) (b : Tcb) : Type 0 where
  pub unused : b.state ≡ dead
  pub no_cpu : b.cpuid ≡ num_cpus
  pub no_prev : b.prev ≡ nil_id
  pub no_next : b.next ≡ nil_id
  pub no_channel : b.channel ≡ 0
  pub at_root : b.cwd ≡ root

tcb_init_at_id-IsFresh :
    (k : Threads) (root pid : ℕ) → IsFresh root ((tcb_init_at_id k root pid).tcb pid)
unfolding tcb_init_at_id
tcb_init_at_id-IsFresh k root pid = record {
  unused = ground arith;
  no_cpu = ground arith;
  no_prev = ground arith;
  no_next = ground arith;
  no_channel = ground arith;
  at_root = ground arith;
}

tcb_init_from-IsFresh :
    (n pid root : ℕ) (k : Threads) (x : ℕ)
    → pid ≤ x
    → x < pid + n
    → IsFresh root ((tcb_init_from n pid root k).tcb x)
unfolding tcb_init_from
tcb_init_from-IsFresh zero pid root k x l h = absurd (omega arith)
tcb_init_from-IsFresh (suc n) pid root k x l h = elim (ℕ_discrete x pid) [
  | yes e ↦
      rw (e, tcb_init_from-below n (pid + 1) root (tcb_init_at_id k root pid) pid (omega arith))
        (tcb_init_at_id-IsFresh k root pid)
  | no d ↦
      tcb_init_from-IsFresh n (pid + 1) root (tcb_init_at_id k root pid) x (omega arith)
        (omega arith)
]

-- After `tqueue_init`, whatever the memory held, a queue, of which there is one for each thread id and
-- one for each CPU, stands for the empty list, and the block of a thread is that of a thread not in use.
pub tqueue_init_lem :
    (root : ℕ) (k : Threads) (chid pid : ℕ)
    → chid < num_ids + num_cpus
    → pid < num_ids
    → IsQueue (tqueue_init root k) chid [] × IsFresh root ((tqueue_init root k).tcb pid)
unfolding tqueue_init
tqueue_init_lem root k chid pid c l =
    let (h, t) =
      tqueue_init_from-ends (num_ids + num_cpus) 0 (tcb_init_from num_ids 0 root k) chid
        (omega arith) (omega arith) in
    (
      record { begins = h; linked = sym t },
      rw (tqueue_init_from-tcb (num_ids + num_cpus) 0 (tcb_init_from num_ids 0 root k))
          (tcb_init_from-IsFresh num_ids 0 root k pid (omega arith) (omega arith)),
    )
