-- ===== src/Tests/Data.antt =====
-- Concrete states of the runtime.
use gthreads.Base.{◌+◌, ◌<◌, refl, ◌∙◌, [], some, true, arith, length, set, length-set}
use gthreads.State.{Policy, Config, Thread, ThreadState, World, RuntimeState}
use gthreads.Runtime.{zero_thread, fresh_state, is_ready, is_blocked}
use gthreads.Runtime.Count.{one_if, count-set}
use gthreads.Runtime.Table.{set-IsTable_new}
use gthreads.Runtime.WellFormed.{IsWellFormed, fresh_state-IsWellFormed}

-- A machine on which every call of the outside succeeds.
abbrev pub machine : World
machine = record {
  calls = 0;
  rdtsc = λ n. 1000 + n;
  fxsave = λ n. n;
  realtime_ns = λ n. some n;
  malloc = λ n. true;
  mmap = λ n. some 1048576;
  mprotect = λ n. true;
  fopen = λ n. true;
  fwrite = λ n size. size;
  ftell = λ n. true;
  fread = λ n. true;
  sysconf_pagesize = 4096;
  cached_page_size = 0;
  disk = [];
  words = λ a. 0;
  regions = [];
  ctx_trampoline = 1;
  thread_trampoline = 2;
}

abbrev pub config : Config
config = record {
  stack_size_bytes = 65536;
  policy = Policy.rr;
  quantum_us = 0;
  replay_seed = 0;
  enable_deterministic_trace = 0;
  enable_schedule_fuzzing = 0;
}

abbrev pub booted : RuntimeState
booted = fresh_state config machine

-- A thread with identifier 1 in slot 0.
abbrev pub worker : ThreadState → Thread
worker x = record zero_thread { tid = 1; fn = 500; retval = 42; state = x; slot_index = 0 }

-- The runtime with that thread.
abbrev pub holding : ThreadState → RuntimeState
holding x = record booted {
  next_tid = 2;
  runnable_threads = one_if (is_ready x);
  blocked_threads = one_if (is_blocked x);
  threads = set booted.threads 0 (worker x);
}

booted_inside : 0 < length booted.threads
booted_inside = omega arith

pub holding-IsWellFormed : (x : ThreadState) → IsWellFormed (holding x)
holding-IsWellFormed x =
    let v = fresh_state-IsWellFormed config machine in
    record {
      counted = record {
        slots = length-set booted.threads 0 (worker x) ∙ v.counted.slots;
        ready =
            omega (
              arith,
              count-set is_ready booted.threads 0 (worker x) booted_inside,
              v.counted.ready,
            );
        blocked = omega (
          arith,
          count-set is_blocked booted.threads 0 (worker x) booted_inside,
          v.counted.blocked,
        );
      };
      table = set-IsTable_new booted.threads 1 0 (worker x) v.table booted_inside refl refl;
    }

-- The same while the thread runs.
abbrev pub running : RuntimeState
running = record (holding ThreadState.running) { current_tid = 1 }

pub running-IsWellFormed : IsWellFormed running
running-IsWellFormed =
    let v = holding-IsWellFormed ThreadState.running in
    record {
      counted = record {
        slots = v.counted.slots;
        ready = v.counted.ready;
        blocked = v.counted.blocked;
      };
      table = v.table;
    }
