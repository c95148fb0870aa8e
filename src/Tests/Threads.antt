-- ===== src/Tests/Threads.antt =====
-- The theorems on threads at concrete states.
use gthreads.Base.{Option, ℕ, ◌≡◌, refl, set, some, none, true, arith}
use gthreads.State.{ok, ebusy, ThreadState, RuntimeState, returned, suspended}
use gthreads.Runtime.{snapshot_stats, thread_at, put_thread, find_thread, find_from}
use gthreads.Runtime.Count.{snapshot_stats-IsCounted}
use gthreads.Thread.{
  thread_cancel, thread_yield, thread_join, join_in, join_release, cancel_in, unblock_slot,
}
use gthreads.Scheduler.{run_until, until_found, until_terminal, run_next, run_picked, switch_back}
use gthreads.Scheduler.Select.{
  pick_ready_thread_mode, pick_in_mode, pick_ready_thread, pick_by, pick_rr, rr_from,
}
use gthreads.Memory.{stack_free}
use gthreads.Thread.Account.{
  leave_state, enter_state, set_thread_state, account_state_change, release_slot,
}
use gthreads.Thread.Joins.{JoinOutcome, thread_join_lem}
use gthreads.Thread.Create.{thread_create}
use gthreads.Thread.Lifecycle.{CreateOutcome, thread_create_lem}
use gthreads.Thread.Cancel.{CancelOutcome, thread_cancel_lem}
use gthreads.Thread.Revive.{yield-revives}
use gthreads.Thread.Join.{Joined, thread_join-ended}
use gthreads.Runtime.{is_ready, alloc_thread_slot, alloc_from}
use gthreads.Context.{
  stack_allocate, page_size, is_power_of_two, align_up, map_stack, context_init_thread, ctx_make,
}
use gthreads.Trace.{trace_record, record_event}
use gthreads.Thread.Create.{create_in, create_on}
use gthreads.Scheduler.{dispatch}
use gthreads.Thread.Live.{IsLive}
use gthreads.Thread.Reach.{Reachable, boot, next, create, switch, Reachable-IsLive}
use gthreads.Tests.Data.{
  booted, config, machine, running, worker, holding, holding-IsWellFormed, running-IsWellFormed,
}

-- Nothing else runs.
abbrev idle : ℕ → RuntimeState → Option RuntimeState
idle slot s = some s

abbrev ready_worker : RuntimeState
ready_worker = holding ThreadState.ready

abbrev ended_worker : RuntimeState
ended_worker = holding ThreadState.done

-- A second thread beside the ready one.
thread_create_lem_example :
    CreateOutcome ready_worker 600 7 (thread_create true (some 3) 600 7 ready_worker)
thread_create_lem_example =
    thread_create_lem ready_worker true (some 3) 600 7 (holding-IsWellFormed ThreadState.ready)
      (omega arith)

-- The blocked thread is canceled.
thread_cancel_lem_example :
    CancelOutcome (holding ThreadState.blocked) 1 (thread_cancel 1 (holding ThreadState.blocked))
thread_cancel_lem_example =
    thread_cancel_lem (holding ThreadState.blocked) 1 (holding-IsWellFormed ThreadState.blocked)

yield-revives_example :
    let (s', status) = thread_cancel 1 running in
    (status ≡ ok)
    × ((thread_at s' 0).state ≡ ThreadState.canceled)
    × ((thread_yield idle 0 s').1 ≡ suspended 0)
    × ((thread_at (thread_yield idle 0 s').0 0).state ≡ ThreadState.ready)
unfolding find_thread
yield-revives_example =
    yield-revives idle 0 running 0 running-IsWellFormed refl (omega arith) refl refl

thread_join-ended_example :
    let (s', flow, value) = thread_join idle 0 1 ended_worker in
    (flow ≡ returned ok) × (value ≡ some 42) × Joined ended_worker 1 0 s'
unfolding find_thread
thread_join-ended_example =
    thread_join-ended idle 0 1 0 ended_worker (holding-IsWellFormed ThreadState.done) refl
      (omega arith) refl refl

-- The thread that the scheduler switches to ends before it gives control back.
abbrev finishes : ℕ → RuntimeState → Option RuntimeState
finishes slot s =
    some (put_thread s slot (record (thread_at s slot) { state = ThreadState.done; retval = 5 }))

thread_join_lem_example :
    JoinOutcome 1 (run_until finishes 3 1) ready_worker (thread_join finishes 3 1 ready_worker)
thread_join_lem_example = thread_join_lem finishes 3 1 ready_worker

-- That join waits, succeeds and hands out the value of the thread.
joins_after_wait :
    let (s', flow, value) = thread_join finishes 3 1 ready_worker in
    (flow ≡ returned ok) × (value ≡ some 5)
unfolding thread_join join_in join_release run_until until_found until_terminal run_next run_picked
    switch_back pick_ready_thread_mode pick_in_mode pick_ready_thread pick_by pick_rr rr_from
    dispatch find_thread find_from
joins_after_wait = (refl, refl)

-- A blocked thread, and a ready one that cancels it, joins it and ends.
abbrev two_workers : RuntimeState
two_workers = record (holding ThreadState.blocked) {
  next_tid = 3;
  runnable_threads = 1;
  threads =
      set (holding ThreadState.blocked).threads 1
        (record (worker ThreadState.ready) { tid = 2; slot_index = 1 });
}

abbrev joins_first : ℕ → RuntimeState → Option RuntimeState
joins_first slot s =
    let s' = (thread_join idle 0 1 (thread_cancel 1 s).0).0 in
    some (put_thread s' slot (record (thread_at s' slot) { state = ThreadState.done }))

-- The second join of a thread that another one has joined in the meantime.
second_join : (thread_join joins_first 3 1 two_workers).1 ≡ returned ebusy
unfolding thread_join join_in join_release run_until until_found until_terminal run_next run_picked
    switch_back pick_ready_thread_mode pick_in_mode pick_ready_thread pick_by pick_rr rr_from
    dispatch find_thread find_from thread_cancel cancel_in unblock_slot release_slot leave_state
    enter_state set_thread_state account_state_change trace_record record_event stack_free
second_join = refl

snapshot_stats-IsCounted_example :
    ((snapshot_stats ready_worker).runnable ≡ 1) × ((snapshot_stats ready_worker).blocked ≡ 0)
snapshot_stats-IsCounted_example =
    snapshot_stats-IsCounted ready_worker (holding-IsWellFormed ThreadState.ready).counted

-- A thread is created and runs.
abbrev pub created : RuntimeState
created = (thread_create true none 600 7 booted).0

created-Reachable : Reachable created
created-Reachable =
    next booted created (boot config machine) (create booted true none 600 7 (omega arith))

pub created_idle : created.current_tid ≡ 0
unfolding thread_create create_in create_on stack_allocate page_size is_power_of_two align_up
    map_stack context_init_thread ctx_make trace_record alloc_thread_slot alloc_from record_event
created_idle = refl

pub created_ready : is_ready (thread_at created 0).state ≡ true
unfolding thread_create create_in create_on stack_allocate page_size is_power_of_two align_up
    map_stack context_init_thread ctx_make trace_record alloc_thread_slot alloc_from record_event
created_ready = refl

Reachable-IsLive_example : IsLive (dispatch 0 created)
Reachable-IsLive_example = Reachable-IsLive (
    next created (dispatch 0 created) created-Reachable
      (switch created 0 created_idle (omega arith) created_ready))
