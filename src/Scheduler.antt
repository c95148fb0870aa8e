-- ===== src/Scheduler.antt =====
-- src/sched/scheduler.c: dispatch of the chosen thread. What runs between a switch to a thread and
-- the return to the frame that has made it is the parameter `others`. It gives `none` when control
-- does not come back there, as when a thread that runs in between overwrites the scheduler's context
-- with a switch of its own. `fuel` bounds the loops that the code leaves open.
pub mod Select
pub mod Modes
pub mod RoundRobin
pub mod Priority
pub mod Next
pub mod Until
pub mod Entered
use gthreads.Base.{
  ℕ, zero, suc, ◌+◌, ◌-◌, Bool, true, false, ◌&&◌, ◌||◌, Option, none, some, ◌==◌, ltb,
  if◌then◌else◌, u64,
}
use gthreads.State.{
  Status, ok, estate, enotfound, ebusy, Mode, ThreadState, TraceState, RuntimeState, Flow, returned,
  lost, out_of_fuel,
}
use gthreads.Trace.{trace_context_switch}
use gthreads.Runtime.{thread_at, put_thread, find_thread, is_terminal}
use Select.{Pick, found, nothing, spinning, pick_ready_thread_mode}

abbrev is_recording : Mode → Bool
is_recording Mode.recording = true
is_recording _ = false

abbrev is_tracing : Option TraceState → Bool
is_tracing none = false
is_tracing (some t) = t.active

-- Whether `gth_scheduler_run_next` records the switch.
abbrev pub traces_switch : RuntimeState → Bool
traces_switch s = is_recording s.mode || is_tracing s.trace

-- `gth_scheduler_run_next` from the chosen thread to the switch.
unfoldable pub dispatch : ℕ → RuntimeState → RuntimeState
dispatch slot s =
    let t = thread_at s slot in
    let traced = if traces_switch s then trace_context_switch s.current_tid t.tid s else s in
    record (put_thread traced slot (record t { state = ThreadState.running })) {
      current_tid = t.tid;
      context_switches = u64 (s.context_switches + 1);
      runnable_threads = s.runnable_threads - 1;
    }

-- What comes behind the switch of `gth_scheduler_run_next`, if control comes back there.
unfoldable pub switch_back : ℕ → RuntimeState → Option RuntimeState → RuntimeState × Flow
switch_back previous_tid away none = (away, lost)
switch_back previous_tid away (some s) = (record s { current_tid = previous_tid }, returned ok)

-- The choice and the switch; `lost` when control does not come back behind it.
unfoldable pub run_picked :
    (ℕ → RuntimeState → Option RuntimeState) → RuntimeState → Pick → RuntimeState × Flow
unfolding dispatch switch_back
run_picked others s nothing = (s, returned enotfound)
run_picked others s spinning = (s, out_of_fuel)
run_picked others s (found slot) =
    let away = dispatch slot s in switch_back s.current_tid away (others slot away)

-- `gth_scheduler_run_next`.
unfoldable pub run_next :
    (ℕ → RuntimeState → Option RuntimeState) → ℕ → RuntimeState → RuntimeState × Flow
unfolding pick_ready_thread_mode run_picked
run_next others fuel s =
    let (s', pick) = pick_ready_thread_mode fuel s in
    if s.initialized then run_picked others s' pick else (s, returned estate)

-- The loop of `gth_scheduler_run_until`, with at most `fuel` rounds.
unfoldable pub until_terminal :
    (ℕ → RuntimeState → Option RuntimeState) → ℕ → ℕ → RuntimeState → RuntimeState × Flow
unfolding run_next
until_terminal others zero target s =
    if is_terminal (thread_at s target).state then (s, returned ok) else (s, out_of_fuel)
until_terminal others (suc fuel) target s =
    let (s', flow) = run_next others fuel s in
    let rest = until_terminal others fuel target s' in
    if is_terminal (thread_at s target).state then (s, returned ok) else elim flow [
      | returned status ↦ elim status [
        | ok ↦ rest
        | enotfound ↦ (s', returned ebusy)
        | failed ↦ (s', returned failed)
      ]
      | other ↦ (s', other)
    ]

unfoldable pub until_found :
    (ℕ → RuntimeState → Option RuntimeState) → ℕ → Option ℕ → RuntimeState → RuntimeState × Flow
unfolding until_terminal
until_found others fuel none s = (s, returned enotfound)
until_found others fuel (some target) s = until_terminal others fuel target s

-- `gth_scheduler_run_until`.
unfoldable pub run_until :
    (ℕ → RuntimeState → Option RuntimeState) → ℕ → ℕ → RuntimeState → RuntimeState × Flow
unfolding until_found find_thread
run_until others fuel tid s =
    if s.initialized
    then (if (tid == s.current_tid) && (ltb 0 tid)
        then (s, returned estate)
        else until_found others fuel (find_thread s tid) s)
    else (s, returned estate)
