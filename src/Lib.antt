-- ===== src/Lib.antt =====
-- The concurrent core of the mCertiKOS kernel in mcertikos/kern: advisory file locks, the open files
-- that hold them, the scheduler that puts their waiters to sleep and wakes them, and the memory that
-- processes run in. Paths are from the root of the repository.
--
-- The parts, and how they meet:
-- - WaitQueue: the queue in a lock (mcertikos/kern/flock/flock.h, waitq_add and waitq_remove of
--   flock.c). WaitQueue.Order reads the array as a list; WaitQueue.Invariant has the operations on it.
-- - Flock: the lock engine (mcertikos/kern/flock/flock.c). A function of the model is one section of
--   code that runs with fl->lock held. Where flock_acquire sleeps, the section ends with the outcome
--   `asleep`, and `flock_resume` is the section that starts when the sleeper runs again: the test of the
--   loop, and then either another sleep or what follows the loop. `flock_release` also tells whether
--   thread_wakeup is called. Flock.Counts relates the counters to numbers of holders and waiters.
-- - File: the file table (mcertikos/kern/fs/file.c), with file_alloc, file_dup, file_close and file_flock.
--   A call of file_flock has at most two sections of the engine, `file_flock_enter` (the checks, unlock,
--   and the release of a lock of the other kind) and `file_flock_acquire`; between them, and while the
--   caller sleeps, others may run. File.Requests has what a whole call does.
-- - System: all processes together. The state is the file table, the lock of each slot of the inode
--   cache, and where each process stands in sys_flock (mcertikos/kern/fs/sysfile.c); a step is one
--   section of one process, or the open, the duplication or the close of an entry, or the reuse of a slot
--   that no entry refers to. A theorem on reachable states is one on every interleaving of such steps.
--   Its children: Views (who holds and who waits, the invariants), Calls, Entries, Opens, Locks, Releases
--   (what each kind of step does to them), Invariant, Others, Reachable (every step keeps them), Safety,
--   Liveness, Priority, Queues and Waiting (what follows).
-- - ThreadQueue: thread control blocks and the doubly linked queues through them (mcertikos/kern/thread/
--   PTCBIntro, PTCBInit, PTQueueIntro, PTQueueInit). ThreadQueue.Links says when a queue stands for a
--   list; Enqueue, Dequeue, Remove and Init are about the operations.
-- - Scheduler: mcertikos/kern/thread/PThread/PThread.c over ThreadQueue, each function as far as it holds
--   sched_lk; thread_sleep is `thread_sleep` up to the switch and `thread_awake` after it.
-- - Pages: the table of physical pages (mcertikos/kern/pmm/MATIntro, MATOp, MATInit). Pages.Scan and
--   Pages.Allocator are about palloc; Pages.Boot and Pages.Table about pmem_init.
-- - Containers: quotas (mcertikos/kern/pmm/MContainer) over Pages, with the parts of kctx_new (mcertikos/
--   kern/thread/PKCtxNew) and sys_spawn (mcertikos/kern/trap/TSyscall) that create a container.
--   Containers.Tree, Quota, Spawn and Boot are about the tree of containers, the pages behind the
--   quotas, sys_spawn and the state after boot.
-- - Descriptors: the descriptors of one process, with fdalloc, the end of sys_open, sys_close and sys_flock
--   (mcertikos/kern/fs/sysfile.c) as whole calls that nothing interrupts, over File.
-- - Paging: page directories and tables (mcertikos/kern/vmm/MPTIntro, MPTOp, MPTComm, MPTKern, MPTNew).
--   Paging.Tables has the operations that allocate from the quota of a process; Paging.Mapping and
--   Paging.Boot are about looking up what was mapped, and about the directories after boot.
-- - SpinLocks: spinlocks and reentrant locks (mcertikos/kern/lib/spinlock.c, reentrant_lock.c) as state
--   machines of the CPUs; that they exclude each other is why the other modules take the code that holds
--   one as a single step.
-- - Paths: the elements of a path, skipelem (mcertikos/kern/fs/path.c).
-- - Transfer: file_read and file_write (mcertikos/kern/fs/file.c) over a record of the inode and log
--   operations that they call. Its loop gets a round for each byte and one for the test that ends it.
-- - Log: the log with its recovery (mcertikos/kern/fs/log.c). A state has the disk, the disks that it was
--   before, and the data that a read through the buffer cache gives; so a crash leaves one of these disks.
--   Log.Area says which disks can be repaired, Install and Recovery are about the installation of a
--   transaction at a commit and at a start, Append and Commit about log_write and commit_trans, and
--   Transaction about a whole transaction.
-- - Blocks: the bitmap of free blocks (mcertikos/kern/fs/block.c) as updates in a transaction. Blocks.Bits and
--   Bitmap are about the bits, Search about the loops, Allocation and Freeing about the two operations.
-- - Inodes: mcertikos/kern/fs/inode.c. Inodes has the maps from a file to its blocks and from an inode to the
--   words on the disk, Data has inode_read and inode_write, and Cache the slots and the functions on them.
--   Bytes is about copies in a block; Volume and Entries say when the file system and the blocks of a file
--   are in order; Fresh, Mapping, Indirect and Bmap are about bmap, and There about a block that is there;
--   Replacing, Writing, Recorded and Saving are about inode_write, Overwriting about a write to blocks that
--   are there, Reading about inode_read, Finding and Slots about inode_get, and Stored about inode_update
--   and inode_lock.
-- - Directories: mcertikos/kern/fs/dir.c over Inodes, with strncmp and strncpy (mcertikos/kern/lib/string.c).
--   Names is about these two, Lookup about dir_lookup, and Branches, Link and Linked about dir_link. The loops get a
--   round for each byte of the directory and one for the test that ends them; each moves 16 bytes.
-- - Base: shared names and the lemmas on counting and summing below a bound. Examples: concrete runs.
--
-- Conventions. Arrays are functions of their index. A pointer to an entry, an inode or a thread is an
-- index; NUM_IDS stands for no thread. A counter that is an int in C and is shown to stay between 0 and a
-- small bound is a number; where the code computes with words that can wrap, the wrap is written out.
-- KERN_PANIC and a failed KERN_ASSERT are a result of their own (`none`, `panic`).
--
-- Bounds. num_ids, nfile, num_cpus and the address range of users' pages are those of the source. A loop
-- over an array has as many rounds as the array has slots left. The loop of palloc gets one round for
-- each of the users' pages and one for the test that ends it; Pages.Scan shows that it always ends within
-- them, because it stops when it comes back to where it began.
--
-- Assumptions of System. A `struct file` is reached through the descriptors of one process, and a process
-- is inside one call at a time: so no call on an entry begins while a process is inside a call on the
-- same entry. A process sleeps from thread_sleep until thread_wakeup on its lock and may run at any time
-- after that.
--
-- Assumptions of Log. The write of one sector is atomic, and is on the disk when the next begins. The buffer
-- of a logged sector stays in the cache, as its flag B_DIRTY demands; a start has an empty cache.
--
-- Assumptions of Inodes. The bitmap has the blocks of the log in use, which mkfs does not see to. The loops of
-- inode_read and inode_write get a round for each byte and one for the test that ends them, as each round moves
-- at least one byte. The reference count of an inode that is dropped is not 0.
--
-- Not modelled: contexts, stacks, registers and device input and output; inode_put, begin_trans and
-- commit_trans in file_close; inode_stat; and the walk along a path.
pub mod Base
pub mod WaitQueue
pub mod Flock
pub mod File
pub mod System
pub mod ThreadQueue
pub mod Scheduler
pub mod Pages
pub mod Containers
pub mod Descriptors
pub mod Paging
pub mod SpinLocks
pub mod Paths
pub mod Transfer
pub mod Log
pub mod Blocks
pub mod Inodes
pub mod Directories
pub mod Examples
