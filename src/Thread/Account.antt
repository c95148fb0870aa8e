-- ===== src/Thread/Account.antt =====
-- src/thread/thread.c: the counters of ready and blocked threads.
use gthreads.Base.{ℕ, ◌+◌, ◌-◌, ◌==◌, if◌then◌else◌, u64}
use gthreads.State.{ThreadState, RuntimeState}
use gthreads.Memory.{stack_free}
use gthreads.Runtime.{zero_thread, thread_at, put_thread}

-- `gth_runtime_account_state_change`, and the same decrements in `gth_thread_release_slot`.
unfoldable pub leave_state : ThreadState → RuntimeState → RuntimeState
leave_state ThreadState.ready s = record s { runnable_threads = s.runnable_threads - 1 }
leave_state ThreadState.blocked s = record s { blocked_threads = s.blocked_threads - 1 }
leave_state _ s = s

unfoldable pub enter_state : ThreadState → RuntimeState → RuntimeState
enter_state ThreadState.ready s = record s { runnable_threads = u64 (s.runnable_threads + 1) }
enter_state ThreadState.blocked s = record s { blocked_threads = u64 (s.blocked_threads + 1) }
enter_state _ s = s

abbrev pub state_code : ThreadState → ℕ
state_code ThreadState.empty = 0
state_code ThreadState.ready = 1
state_code ThreadState.running = 2
state_code ThreadState.blocked = 3
state_code ThreadState.done = 4
state_code ThreadState.canceled = 5

unfoldable pub account_state_change : ThreadState → ThreadState → RuntimeState → RuntimeState
unfolding leave_state enter_state
account_state_change from to s =
    if state_code from == state_code to then s else enter_state to (leave_state from s)

-- `gth_runtime_set_thread_state`.
unfoldable pub set_thread_state : ℕ → ThreadState → RuntimeState → RuntimeState
unfolding account_state_change
set_thread_state slot new_state s =
    let t = thread_at s slot in
    if state_code t.state == state_code new_state
    then s
    else put_thread (account_state_change t.state new_state s) slot (record t { state = new_state })

-- `gth_thread_release_slot`.
unfoldable pub release_slot : ℕ → RuntimeState → RuntimeState
unfolding leave_state stack_free
release_slot slot s =
    let t = thread_at s slot in
    let freed = record (leave_state t.state s) { world = (stack_free t.stack s.world).0 } in
    put_thread freed slot zero_thread
