-- ===== src/Lib.antt =====
-- gthreads is a library of user-level threads for one processor core. Threads are cooperative: a
-- thread runs until it yields, blocks or ends, and the scheduler's context then picks the next one.
--
-- Parts, and the files that model them (paths from the root of the repository):
--   src/internal/runtime_state.h, include/gthreads/gthreads.h   State (the records and enumerations)
--   src/sync/wait_queue.h        WaitQueue: the ring; Ring (its list view), Fifo, Head and Remove (one
--                                operation each), Refine (the list that a client sees)
--   src/runtime/runtime.c        Runtime: the table of threads; Count (counters), Find (searches),
--                                Table (identifiers), WellFormed (the invariant)
--   src/thread/thread.c          Thread: yield, join, cancel, block, unblock; Account, Create; Counted,
--                                Lifecycle, Cancel, Revive, Join, Joins, Wake, Live, Keeps,
--                                Released, Reach, Owned, Balance, CancelKeeps, CreateMaps, Leaks, Freed (proofs)
--   src/sched/scheduler.c        Scheduler: dispatch and the loops; Select (policies), Modes;
--                                RoundRobin, Priority, Next, Until, Entered (proofs)
--   src/sync/mutex.c, cond.c, sem.c   Sync: Objects (their state), Mutex, Cond, Sem; Mutex/Lock, Mutex/Ends,
--                                Mutex/Unlock, Mutex/Release, Mutex/Waits, Cond/Broadcast, Cond/Signal,
--                                Cond/Undo, Sem/Units, Sem/Takes (proofs);
--                                System (threads and objects as one step relation), and below it
--                                Waiting, Rest, Safe, Mutexes, Unlocks, Others, Wait, Invariant (the
--                                invariant), Untouched, Excludes, Owner, Spares, Section (mutual
--                                exclusion)
--   src/trace/trace_format.h     Trace/Format: records as bytes and the checksum; RoundTrip
--   src/trace/trace_buffer.c     Trace/Buffer
--   src/trace/trace.c            Trace (recording of one event), Trace/Session (start and stop);
--                                Records, Recorded, Ticks, Log (proofs)
--   src/trace/replay.c           Replay: Events (the trace file and the cursor), Drive (the choice);
--                                Skip, Follow (proofs), Stats; Recording, Ends, Session (a recording
--                                from start to stop), Loaded, RoundTrip (its replay), Rejects
--   src/trace/fuzz.c             Fuzz (the generator), Fuzz/Pick (the choice), Fuzz/Range
--                                (proofs), Fuzz/Stats
--   src/context                  Memory (the release of stacks), Context (stacks, first contexts, the
--                                end of a thread), Context/Swap;
--                                Mask (powers of two), Stack, Starts (proofs)
-- Closed is about the interface before initialisation and after shutdown.
-- Base has the shared helpers, Tests the concrete states and the runs of the theorems on them.
--
-- How the code is read. The global state is a record that each function takes and returns. A pointer
-- to a thread record is the index of its slot in a table of 128; NULL is `none`. Mutexes, conditions
-- and semaphores live at addresses, and address 0 is NULL. Numbers are natural numbers, with `u8`,
-- `u32` and `u64` where the C type wraps around. A guard `if (n > 0) n -= 1` is the truncated
-- subtraction. A function is split where it tests a computed value.
--
-- A call that switches to the scheduler's context returns `suspended slot`: its remaining code is
-- said in the comment above it, and its state is what the other threads find. In the scheduler, the
-- code that runs between a switch to a thread and the return is the parameter `others`, which may also
-- give `none`: control never comes back, and the call is `lost`. The step relations of Thread/Reach
-- and Sync/System switch from the scheduler's context alone, so that a join in which a thread waits is
-- no step of theirs. What the C library, the kernel and the processor answer is read from the `World`,
-- whose functions take the number of the call; it also holds the files on the disk and the regions of
-- memory mapped. A theorem
-- that relies on an answer has that as a hypothesis.
--
-- Fuel. The loop of gth_mutex_lock has 53 rounds: each fills a place of the queue, which has 52 at
-- most, and the loop gives up when the queue is full. The loop of gth_cond_broadcast has as many
-- rounds as the queue has entries. The loop of gth_scheduler_run_until and the rejection loop of the
-- fuzzer may run for ever in the code; their fuel is a parameter, and `out_of_fuel` or `spinning` says
-- that it has run out. The loop of the replay has as many rounds as events are left.
--
-- Not modelled: free() of heap memory; fflush, since what fwrite takes counts as written;
-- gth_context_destroy, which clears a pointer of a record that is cleared next; the contents of the
-- scheduler's context; the jump of a new context into its entry function; the examples, benchmarks
-- and tests.
pub mod Base
pub mod Closed
pub mod Memory
pub mod State
pub mod WaitQueue
pub mod Trace
pub mod Replay
pub mod Fuzz
pub mod Runtime
pub mod Context
pub mod Scheduler
pub mod Thread
pub mod Sync
pub mod Tests
