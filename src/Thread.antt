-- ===== src/Thread.antt =====
-- src/thread/thread.c: yield, join, cancellation, blocking and unblocking of threads.
pub mod Account
pub mod Create
pub mod Counted
pub mod Lifecycle
pub mod Cancel
pub mod Revive
pub mod Join
pub mod Joins
pub mod Wake
pub mod Live
pub mod Keeps
pub mod Released
pub mod Owned
pub mod Balance
pub mod CancelKeeps
pub mod CreateMaps
pub mod Leaks
pub mod Freed
pub mod Reach
use gthreads.Base.{ℕ, ◌+◌, ◌-◌, not, Option, none, some, ◌==◌, leb, if◌then◌else◌, u64}
use gthreads.State.{
  Status, ok, einval, estate, enotfound, ThreadState, RuntimeState, Flow, returned, suspended,
}
use gthreads.Trace.{
  trace_thread_yield, trace_thread_cancel, trace_thread_block, trace_thread_unblock,
}
use gthreads.Runtime.{max_threads, thread_at, put_thread, find_thread, is_blocked, is_terminal}
use gthreads.Scheduler.{run_next, run_until}
use Account.{set_thread_state, release_slot}

unfoldable pub yield_in : Option ℕ → RuntimeState → RuntimeState × Flow
yield_in none s = (s, returned estate)
yield_in (some slot) s =
    let traced = trace_thread_yield s.current_tid s in
    (
      record (put_thread traced slot (record (thread_at s slot) { state = ThreadState.ready })) {
        runnable_threads = u64 (s.runnable_threads + 1);
      },
      suspended slot,
    )

-- `gth_thread_yield`; a suspended call returns `ok` when it is resumed.
unfoldable pub thread_yield :
    (ℕ → RuntimeState → Option RuntimeState) → ℕ → RuntimeState → RuntimeState × Flow
unfolding run_next yield_in find_thread
thread_yield others fuel s =
    if not s.initialized
    then (s, returned estate)
    else if s.current_tid == 0
    then run_next others fuel s
    else yield_in (find_thread s s.current_tid) s

-- The end of `gth_thread_join`: the value handed out, and the slot released.
unfoldable pub join_release : Option ℕ → RuntimeState → RuntimeState × Flow × Option ℕ
unfolding release_slot
join_release none s = (s, returned enotfound, none)
join_release (some slot) s = (release_slot slot s, returned ok, some (thread_at s slot).retval)

unfoldable pub join_in :
    (ℕ → RuntimeState → Option RuntimeState)
    → ℕ
    → ℕ
    → Option ℕ
    → RuntimeState
    → RuntimeState × Flow × Option ℕ
unfolding join_release run_until find_thread
join_in others fuel tid none s = (s, returned enotfound, none)
join_in others fuel tid (some slot) s =
    let (s', flow) = run_until others fuel tid s in
    if is_terminal (thread_at s slot).state then join_release (some slot) s else elim flow [
      | returned status ↦ elim status [
        | ok ↦ join_release (find_thread s' tid) s'
        | failed ↦ (s', returned failed, none)
      ]
      | other ↦ (s', other, none)
    ]

-- `gth_thread_join`; the value that goes through `retval` stands last.
unfoldable pub thread_join :
    (ℕ → RuntimeState → Option RuntimeState) → ℕ → ℕ → RuntimeState → RuntimeState × Flow × Option ℕ
unfolding join_in find_thread
thread_join others fuel tid s =
    if not s.initialized
    then (s, returned estate, none)
    else if tid == 0
    then (s, returned einval, none)
    else if tid == s.current_tid
    then (s, returned estate, none)
    else join_in others fuel tid (find_thread s tid) s

-- `gth_thread_unblock_slot`.
unfoldable pub unblock_slot : ℕ → RuntimeState → RuntimeState × Status
unblock_slot slot s =
    let t = thread_at s slot in
    let ready = record (put_thread s slot (record t { state = ThreadState.ready })) {
      blocked_threads = s.blocked_threads - 1;
      runnable_threads = u64 (s.runnable_threads + 1);
    } in
    if not s.initialized
    then (s, estate)
    else if leb max_threads slot
    then (s, einval)
    else if is_blocked t.state
    then (trace_thread_unblock t.tid ready, ok)
    else (s, estate)

unfoldable pub cancel_in : ℕ → Option ℕ → RuntimeState → RuntimeState × Status
unfolding unblock_slot set_thread_state
cancel_in tid none s = (s, enotfound)
cancel_in tid (some slot) s =
    let t = thread_at s slot in
    let traced = trace_thread_cancel tid s in
    let awake = if is_blocked t.state then (unblock_slot t.slot_index traced).0 else traced in
    let marked = set_thread_state slot ThreadState.canceled awake in
    if is_terminal t.state
    then (s, estate)
    else (put_thread marked slot (record (thread_at marked slot) { retval = 0 }), ok)

-- `gth_thread_cancel`.
unfoldable pub thread_cancel : ℕ → RuntimeState → RuntimeState × Status
unfolding cancel_in find_thread
thread_cancel tid s =
    if not s.initialized
    then (s, estate)
    else if tid == 0
    then (s, einval)
    else cancel_in tid (find_thread s tid) s

unfoldable pub block_in : Option ℕ → RuntimeState → RuntimeState × Flow
block_in none s = (s, returned estate)
block_in (some slot) s =
    let traced = trace_thread_block s.current_tid 0 s in
    (
      record (put_thread traced slot (record (thread_at s slot) { state = ThreadState.blocked })) {
        blocked_threads = u64 (s.blocked_threads + 1);
      },
      suspended slot,
    )

-- `gth_thread_block`; a suspended call returns `ok` when it is resumed.
unfoldable pub thread_block : RuntimeState → RuntimeState × Flow
unfolding block_in find_thread
thread_block s =
    if not s.initialized
    then (s, returned estate)
    else if s.current_tid == 0
    then (s, returned estate)
    else block_in (find_thread s s.current_tid) s

-- `gth_thread_self`.
unfoldable pub thread_self : RuntimeState → ℕ
thread_self s = if s.initialized then s.current_tid else 0

-- `gth_thread_current_slot_index`; `max_threads` when there is no current thread.
unfoldable pub current_slot_index : RuntimeState → ℕ
unfolding find_thread
current_slot_index s =
    if s.current_tid == 0 then max_threads else elim (find_thread s s.current_tid) [
      | none ↦ max_threads
      | some slot ↦ (thread_at s slot).slot_index
    ]
