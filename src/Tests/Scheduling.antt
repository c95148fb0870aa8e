-- ===== src/Tests/Scheduling.antt =====
-- The theorems on the scheduler at concrete tables.
use gthreads.Base.{ℕ, ◌≤◌, ◌<◌, ◌≡◌, refl, some, arith, set}
use gthreads.State.{FuzzState, Policy, Thread, ThreadState, RuntimeState}
use gthreads.Runtime.{max_threads, zero_thread}
use gthreads.Scheduler.Select.{rr_from, pick_by, pick_rr, pick_ready_thread}
use gthreads.Scheduler.RoundRobin.{
  RoundRobinPick, pick_ready_thread-rr, Passed, start, pass, distance, Passed-le-distance,
}
use gthreads.Scheduler.Priority.{PriorityPick, pick_ready_thread-priority}
use gthreads.Fuzz.{random_range, draw, spread, xorshift, should_perturb}
use gthreads.Fuzz.Pick.{fuzz_pick_open, pick_alternative, pick_drawn, pick_from, count_ready}
use gthreads.Fuzz.Range.{ReadyAt, fuzz_pick_open-ReadyAt}
use gthreads.Tests.Data.{booted, config}

abbrev ready_thread : ℕ → ℕ → ℕ → Thread
ready_thread tid priority slot = record zero_thread {
  tid = tid;
  priority = priority;
  state = ThreadState.ready;
  slot_index = slot;
}

-- Ready threads in the slots 3 and 7; the last choice was slot 127.
abbrev two_ready : RuntimeState
two_ready = record booted {
  threads = set (set booted.threads 3 (ready_thread 4 1 3)) 7 (ready_thread 8 5 7);
}

abbrev by_priority : RuntimeState
by_priority = record two_ready { config = record config { policy = Policy.priority } }

pick_ready_thread-rr_example : RoundRobinPick two_ready (pick_ready_thread two_ready)
pick_ready_thread-rr_example = pick_ready_thread-rr two_ready refl

-- The same table once slot 3 has been chosen.
abbrev chosen : RuntimeState
chosen = record two_ready { last_rr_slot = 3 }

slot_3_first : (pick_ready_thread two_ready).1 ≡ some 3
unfolding pick_ready_thread pick_by rr_from pick_rr
slot_3_first = refl

-- Slot 7 is passed over once, then it is the next.
Passed-once : Passed 7 1 two_ready
Passed-once = pass two_ready chosen 3 refl refl slot_3_first (omega arith) refl (start chosen)

Passed-le-distance_example : (1 ≤ distance two_ready.last_rr_slot 7) × (1 < max_threads)
Passed-le-distance_example = Passed-le-distance 7 two_ready (omega arith) Passed-once

pick_ready_thread-priority_example : PriorityPick by_priority (pick_ready_thread by_priority)
pick_ready_thread-priority_example = pick_ready_thread-priority by_priority refl

-- A generator in its eighth decision, at a rate of 100 percent.
abbrev fuzzer : FuzzState
fuzzer = record { state0 = 1; state1 = 2; seed = 1; decision_count = 7; perturbation_rate = 100 }

-- The generator after the decision, which takes two numbers.
abbrev after_choice : FuzzState
after_choice = record fuzzer {
  state0 = 140738578874496;
  state1 = 140737488363648;
  decision_count = 8;
}

-- The choice of slot 3 becomes slot 7.
fuzz_pick_open-ReadyAt_example : ReadyAt two_ready.threads 7
unfolding fuzz_pick_open pick_alternative pick_drawn pick_from count_ready random_range draw spread
    xorshift should_perturb
fuzz_pick_open-ReadyAt_example =
    fuzz_pick_open-ReadyAt 100 two_ready.threads fuzzer 3 (omega arith, refl) after_choice 7 refl
