-- ===== src/Tests/Systems.antt =====
-- The theorems on whole systems at concrete sequences of calls.
use gthreads.Base.{ℕ, ◌≡◌, ◌≢◌, ◌⊎◌, refl, ap, arith, true, false, none}
use gthreads.State.{ok, returned}
use gthreads.Runtime.{alloc_thread_slot, alloc_from}
use gthreads.Context.{
  stack_allocate, page_size, is_power_of_two, align_up, map_stack, context_init_thread, ctx_make,
}
use gthreads.Trace.{trace_record, record_event}
use gthreads.Thread.Create.{thread_create, create_in, create_on}
use gthreads.Sync.Cond.{cond_signal}
use gthreads.Sync.System.Section.{Uses, start, enter, work, Uses-unique}
use gthreads.Scheduler.{dispatch}
use gthreads.Thread.{thread_self}
use gthreads.Thread.Reach.{create, switch}
use gthreads.Sync.Objects.{Sys, zero_mutex, zero_cond, zero_sem, put}
use gthreads.Sync.Mutex.{mutex_init, mutex_lock, mutex_unlock, acquire}
use gthreads.Sync.System.{settle, Reaches, thread, init_mutex, lock, unlock, signal, boot, next}
use gthreads.Sync.System.Safe.{IsSafe}
use gthreads.Sync.System.Invariant.{Reaches-IsSafe}
use gthreads.Sync.System.Owner.{Move-excludes}
use gthreads.Tests.Data.{booted, config, machine}
use gthreads.Tests.Threads.{created, created_idle, created_ready}

-- A thread is created and runs, initialises the mutex at address 100 and locks it.
abbrev empty_system : Sys
empty_system = record {
  rt = booted;
  mutexes = λ _. zero_mutex;
  conds = λ _. zero_cond;
  sems = λ _. zero_sem;
}

abbrev idle_system : Sys
idle_system = record empty_system { rt = created }

abbrev running_system : Sys
running_system = record idle_system { rt = dispatch 0 created }

abbrev ready_system : Sys
ready_system = (mutex_init 100 running_system).0

abbrev locked_system : Sys
locked_system = settle (mutex_lock 100 ready_system)

ready_system-Reaches : Reaches ready_system
ready_system-Reaches =
    next running_system ready_system
      (next idle_system running_system
        (next empty_system idle_system (boot config machine)
          (thread empty_system created (create booted true none 600 7 (omega arith))))
        (thread idle_system (dispatch 0 created)
          (switch created 0 created_idle (omega arith) created_ready)))
      (init_mutex running_system 100 refl)

locked_system-Reaches : Reaches locked_system
locked_system-Reaches = next ready_system locked_system ready_system-Reaches (lock ready_system 100)

Reaches-IsSafe_example : IsSafe locked_system
Reaches-IsSafe_example = Reaches-IsSafe locked_system-Reaches

locked_system_held : (locked_system.mutexes 100).locked ≢ 0
unfolding mutex_lock mutex_init acquire
locked_system_held = omega arith

Move-excludes_example :
    ((((mutex_unlock 100 locked_system).0.mutexes 100).locked ≡ (locked_system.mutexes 100).locked)
      × (((mutex_unlock 100 locked_system).0.mutexes 100).owner
          ≡ (locked_system.mutexes 100).owner))
    ⊎ ((((mutex_unlock 100 locked_system).0.mutexes 100).locked ≡ 0)
        × (((locked_system.mutexes 100).owner ≡ 0)
            ⊎ ((locked_system.mutexes 100).owner ≡ thread_self locked_system.rt)))
Move-excludes_example =
    Move-excludes locked_system-Reaches (unlock locked_system 100) 100 locked_system_held

ready_system_runs : thread_self ready_system.rt ≡ 1
unfolding thread_create create_in create_on stack_allocate page_size is_power_of_two align_up
    map_stack context_init_thread ctx_make trace_record alloc_thread_slot alloc_from record_event
    dispatch mutex_init thread_self
ready_system_runs = refl

ready_system_locks : (mutex_lock 100 ready_system).1 ≡ returned ok
unfolding thread_create create_in create_on stack_allocate page_size is_power_of_two align_up
    map_stack context_init_thread ctx_make trace_record alloc_thread_slot alloc_from record_event
    dispatch mutex_init mutex_lock
ready_system_locks = refl

-- The thread is in its section, between lock and unlock.
section-Uses :
    Uses 100 (mutex_lock 100 ready_system).0 (put (λ tid. false) (thread_self ready_system.rt) true)
section-Uses =
    enter ready_system (λ tid. false) (start ready_system ready_system-Reaches)
      (λ z. omega (arith, z, ready_system_runs)) ready_system_locks

section_inside : put (λ tid. false) (thread_self ready_system.rt) true 1 ≡ true
section_inside = ap (λ n. put (λ tid. false) n true 1) ready_system_runs

-- It signals a condition in there.
abbrev signalling : Sys
signalling = (cond_signal 200 (mutex_lock 100 ready_system).0).0

signalling-Uses : Uses 100 signalling (put (λ tid. false) (thread_self ready_system.rt) true)
signalling-Uses =
    work (mutex_lock 100 ready_system).0 signalling
      (put (λ tid. false) (thread_self ready_system.rt) true)
      (signal (mutex_lock 100 ready_system).0 200) section-Uses tt

Uses-unique_example :
    (◌≡◌ {A = ℕ} 1 1) × ((signalling.mutexes 100).owner ≡ 1) × ((signalling.mutexes 100).locked ≢ 0)
Uses-unique_example = Uses-unique 100 signalling-Uses 1 1 section_inside section_inside
