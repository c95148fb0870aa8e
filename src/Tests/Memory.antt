-- ===== src/Tests/Memory.antt =====
-- The theorems on the memory of stacks at a thread that has been created and runs.
use gthreads.Base.{ℕ, ◌≡◌, ◌≢◌, refl, [], some, none, true, arith}
use mathlib.Core.Option.{some-injective}
use gthreads.State.{RuntimeState}
use gthreads.Runtime.{runtime_shutdown, alloc_thread_slot, alloc_from}
use gthreads.Context.{
  stack_allocate, page_size, is_power_of_two, align_up, map_stack, context_init_thread, ctx_make,
}
use gthreads.Trace.{trace_record, record_event}
use gthreads.Thread.Create.{thread_create, create_in, create_on}
use gthreads.Scheduler.{dispatch}
use gthreads.Thread.Reach.{Reachable, boot, next, create, switch}
use gthreads.Thread.Owned.{IsOwned}
use gthreads.Thread.Freed.{Reachable-IsOwned, runtime_shutdown-Unmaps}
use gthreads.Tests.Data.{booted, config, machine}
use gthreads.Tests.Threads.{created, created_idle, created_ready}

abbrev at_work : RuntimeState
at_work = dispatch 0 created

abbrev at_work_run : Reachable at_work
at_work_run =
    next created at_work
      (next booted created (boot config machine) (create booted true none 600 7 (omega arith)))
      (switch created 0 created_idle (omega arith) created_ready)

machine_nonzero : (i : ℕ) → machine.mmap i ≢ some 0
machine_nonzero i e = omega (arith, some-injective 1048576 0 e)

-- The stack of the thread with its guard page is mapped while it runs.
at_work_maps : at_work.world.regions ≢ []
unfolding thread_create create_in create_on stack_allocate page_size is_power_of_two align_up
    map_stack context_init_thread ctx_make trace_record alloc_thread_slot alloc_from record_event
    dispatch
at_work_maps e = cc e

Reachable-IsOwned_example : IsOwned at_work
Reachable-IsOwned_example = Reachable-IsOwned at_work_run refl machine_nonzero

runtime_shutdown-Unmaps_example : (runtime_shutdown at_work).0.world.regions ≡ []
unfolding thread_create create_in create_on stack_allocate page_size is_power_of_two align_up
    map_stack context_init_thread ctx_make trace_record alloc_thread_slot alloc_from record_event
    dispatch
runtime_shutdown-Unmaps_example = runtime_shutdown-Unmaps at_work_run refl machine_nonzero refl
