-- ===== src/Lib.antt =====
-- web-os: models of the kernel's core components and the theorems that make them correct.
--
-- The kernel (crates/kernel) is a small Unix for RISC-V. The parts that are modelled here, from below:
--
-- * Errors (crates/kernel/src/error.rs): enum Error, its numbers in the system-call ABI
--   (to_isize is the discriminant, from_isize the function of that name), as_str, and Result with
--   the operator `?` as `>>=`.
-- * Semaphore (semaphore.rs): wait, try_wait, can_wait, post, close, new, new_with_count. One round
--   of the loop of wait is one step, and `none` is to sleep.
-- * Channel (mpmc.rs): sync_channel, SyncSender and Receiver over one shared state, on top of
--   Semaphore. send is two steps, take_place and push_back, since another thread may run between
--   `sem.wait()` and the lock of the queue. Channel/Steps has the interleavings of any number of
--   senders and receivers, Channel/Fifo what holds after any of them.
-- * Pipe (pipe.rs): the ends of a pipe, a loop over bytes on top of Channel. Pipe/Bytes says which
--   bytes the non-blocking calls move, Pipe/Calls relates writes, reads and polls.
-- * IpcSemaphores (ipc.rs): SEM_TABLE and its calls, on top of Semaphore. An Arc is an index into a
--   store that only grows, so that a waiter keeps a semaphore that the table dropped.
-- * SleepLock (sleeplock.rs): rounds of lock, holding, and the drop of a guard as an assertion and a
--   release; SleepLock/Exclusion has their interleavings.
-- * RunQueue (runq.rs, param.rs): the ring of each CPU (push, pop), and runq_pop_or_steal, which the
--   scheduler calls. RunQueue/Fifo refines a ring to a bounded list, RunQueue/Steal is about all
--   queues at once, RunQueue/Push about a push.
-- * Procs (proc.rs, signal.rs, condvar.rs): the process table with sleep, wakeup, the two halves of a round of
--   scheduler, sched and yielding, on top of RunQueue. Procs/Signals has kill and the alarm clock,
--   Procs/Handlers delivery and handlers, Procs/Family fork, clone and exit, Procs/Reaping waitpid,
--   join and reap_threads, Procs/Groups process groups and sessions, and Procs/Steps the whole as
--   steps of CPUs on one table. Procs/States tells states apart, Procs/Balance is about the queues,
--   Procs/Waking and Procs/Callers about what only wakes, Procs/Tree about parents, Procs/Cpus,
--   Procs/Leaving and Procs/Scheduler about the moves on and off a CPU, Procs/Boot, Procs/Births,
--   Procs/Children, Procs/Delivery, Procs/Deaths, Procs/Waits and Procs/Threads about the other calls,
--   Procs/Safety about all steps; Procs/Wakeups, Procs/Stirs, Procs/Signalling, Procs/Kills,
--   Procs/Adoption, Procs/Exits, Procs/Ignored, Procs/Scans, Procs/Returns and Procs/Interruptions say what single calls do, and
--   Procs/Condvars has condition variables.
-- * Tasks (task.rs): READY, spawn_on, the wakers, and run_ready_tasks_cpu. Futures are the parameter
--   `poll`. Tasks/Ready refines the queue, Tasks/Executor is about the loop, and
--   Tasks/Ticks has on_tick_cpu and SleepTicks.
-- * FileLocks and OpenModes (fcntl.rs): the lock table with set_lock, get_lock, clear_locks, and
--   OMode and FcntlCmd. FileLocks/Table reads a table as a map from processes to locks.
-- * BlockStore (bio.rs): what the log needs of the buffer cache: the block that a guard shows, its
--   write to the disk, pins.
-- * Log (log.rs): the journal of the file system, on top of BlockStore. Log/Ops has the
--   transactions: begin_op, write, end_op and sync as they interleave. Log/Install and Log/Copy are
--   the two loops over the entries, Log/Recovery a recovery that is cut off, Log/Crash and
--   Log/Atomic a commit that is, Log/Keeps what a commit leaves alone, Log/Ops/Invariant and
--   Log/Ops/Safety all that threads can do to the log.
--
-- * Volume (fs.rs): the super block, the bit map, bzero, balloc and bfree, on top of Log: a volume is
--   the journal and what the cache shows of the disk. Volume/Logged is about logged writes,
--   Volume/Search and Volume/Bits about the bit map, Volume/Alloc and Volume/Free about the calls.
-- * Inode (fs.rs): IData, DInode, update and bmap, on top of Volume. Inode/Layout says where
--   the blocks of a file stand, Inode/Roots and Inode/Nodes are about the addresses in the inode and in
--   indirect blocks, Inode/Branches about the branches of bmap, Inode/Bmap about the whole call.
-- * PageTable (vm.rs, kalloc.rs): the Sv39 page tables: entries, walk, walkaddr, mappages, unmap, and
--   the counts of PAGE_REF. PageTable/Words is about entries as words, PageTable/Tree about the shape
--   of the tables, PageTable/Growth, PageTable/Rounds and PageTable/Walk about new tables,
--   PageTable/Mapping, PageTable/Ranges and PageTable/Mappages about mapping, PageTable/Walkaddr and
--   PageTable/Unmap about these calls.
-- * Console (console.rs): the input line. The echo, signals and wake-ups are a list of effects.
--   Console/Keys has the interrupt handler, Console/Reads the system calls; Console/Valid,
--   Console/Preserved and Console/Reached are about every state that keys and reads lead to,
--   Console/Typing and Console/Lines about a typed line, Console/Stuck about a line that was taken
--   back behind the reader.
--
-- Prelude has what these share: tests on numbers, lists over native numbers, bytes of words
-- (Prelude/Bytes), do blocks of options (Prelude/Options), and Prelude/Ring, the cells of an array
-- that is used in a circle. Tests.antt in a component's folder runs the code on
-- small inputs and applies the theorems there.
--
-- State and effects: a call takes the state of its object and gives it back; a mutex makes what runs
-- under it one step. An Option around a result is a panic where the file says so, and else a sleep.
-- Numbers are unbounded where the code cannot reach the bound, and each file says so; where the code
-- wraps (size - 1 in LOG.write), the remainder is written out.
--
-- A step of Procs is what a call does to the table between two points at which it can sleep: the lock
-- of the parents and that of a process make it one. Processes are named by their index. A call that
-- sleeps is a round that ends in sleep; the process scans again when it runs again.
--
-- Bounds and fuel: the machine of BlockStore has a number, its power, of block writes that it still
-- serves; a crash is to have too little, and the theorems on crashes take any power. Loops over
-- `0..n` recurse on the rounds that are left, and the code's bound is passed at the call. The loop of
-- run_ready_tasks_cpu has 257 rounds for each task of its budget and one for each waiting number; its
-- theorem shows that this is enough.
--
-- Not modelled: wake-ups of sleeping threads outside Procs (a thread that sleeps may try again at any
-- time), interleavings inside a step of Procs, the memory, files and mappings of processes, the
-- assertions of sched on the lock, the depth of interrupt guards and interrupts, the memory order of
-- atomics, the recycling of buffers (bio.rs), shared memory (ipc.rs), the
-- start-up of task.rs, console output, and the parts of the kernel and of the user programs that are
-- about user memories, devices, directories and the network.
pub mod BlockStore
pub mod Channel
pub mod Console
pub mod Errors
pub mod FileLocks
pub mod Inode
pub mod IpcSemaphores
pub mod Log
pub mod OpenModes
pub mod PageTable
pub mod Pipe
pub mod Prelude
pub mod Procs
pub mod RunQueue
pub mod Semaphore
pub mod SleepLock
pub mod Tasks
pub mod Volume
