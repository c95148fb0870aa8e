-- ===== src/Scheduler/Modes.antt =====
-- src/sched/scheduler.c: `gth_scheduler_set_mode`.
use gthreads.Base.{◌==◌, if◌then◌else◌}
use gthreads.State.{Status, ok, estate, Mode, RuntimeState}
use gthreads.Trace.Session.{trace_init, trace_cleanup}
use gthreads.Replay.Events.{replay_cleanup}
use gthreads.Fuzz.{fuzz_init, fuzz_cleanup}

-- The part of `gth_scheduler_set_mode` that ends the old mode.
unfoldable pub leave_mode : Mode → RuntimeState → RuntimeState
unfolding trace_cleanup replay_cleanup fuzz_cleanup
leave_mode Mode.normal s = s
leave_mode Mode.recording s = trace_cleanup s
leave_mode Mode.replaying s = replay_cleanup s
leave_mode Mode.fuzzing s = fuzz_cleanup s

unfoldable pub enter_mode : Mode → RuntimeState → RuntimeState × Status
unfolding trace_init fuzz_init
enter_mode Mode.normal s = (s, ok)
enter_mode Mode.replaying s = (s, ok)
enter_mode Mode.recording s =
    let (s', status) = trace_init s in
    elim status [
      | ok ↦ (s', ok)
      | estate ↦ (s', ok)
      | failed ↦ (record s' { mode = Mode.normal }, failed)
    ]
enter_mode Mode.fuzzing s =
    let seed = if s.config.replay_seed == 0 then 123456789 else s.config.replay_seed in
    let (s', status) = fuzz_init seed s in
    elim status [ ok ↦ (s', ok) | failed ↦ (record s' { mode = Mode.normal }, failed) ]

-- `gth_scheduler_set_mode`.
unfoldable pub set_mode : Mode → RuntimeState → RuntimeState × Status
unfolding leave_mode enter_mode
set_mode mode s =
    if s.initialized
    then enter_mode mode (record (leave_mode s.mode s) { mode = mode })
    else (s, estate)
