-- ===== src/Replay/Drive.antt =====
-- src/trace/replay.c: `gth_replay_next_thread`, which runs the threads in the order of the trace.
use gthreads.Base.{ℕ, zero, suc, ◌-◌, ◌||◌, Option, none, some, ◌==◌, if◌then◌else◌, u32}
use gthreads.State.{TraceRecord, ReplayState, RuntimeState}
use gthreads.Trace.Format.{EventType, event_code}
use gthreads.Runtime.{find_thread, thread_at, is_ready, is_running}
use gthreads.Replay.Events.{peek_event, next_event, mark_diverged}

unfoldable pub runnable_slot : RuntimeState → Option ℕ → Option ℕ
runnable_slot s none = none
runnable_slot s (some slot) =
    let state = (thread_at s slot).state in
    if is_ready state || is_running state then some slot else none

-- `gth_replay_find_thread`.
unfoldable pub replay_find_thread : RuntimeState → ℕ → Option ℕ
unfolding runnable_slot
replay_find_thread s tid = if tid == 0 then none else runnable_slot s (find_thread s tid)

-- The loop that consumes events up to the next context switch. Each round consumes one, so that
-- `fuel` rounds are enough for `fuel` events.
unfoldable pub skip_to_switch : ℕ → ReplayState → ReplayState
unfolding peek_event next_event
skip_to_switch zero r = r
skip_to_switch (suc fuel) r = elim (peek_event r) [
  | none ↦ r
  | some rec ↦
      let rest = skip_to_switch fuel (next_event r).0 in
      if rec.type == event_code EventType.context_switch then r else rest
]

-- The events that are left.
abbrev pub events_left : ReplayState → ℕ
events_left r = r.event_count - r.current_idx

-- What is done with the thread that the event under the cursor names.
unfoldable pub take_switch : ReplayState → Option ℕ → ReplayState × Option ℕ
unfolding mark_diverged next_event
take_switch r none = (mark_diverged r, none)
take_switch r (some slot) = ((next_event r).0, some slot)

unfoldable pub next_at : RuntimeState → ReplayState → Option TraceRecord → ReplayState × Option ℕ
unfolding take_switch replay_find_thread
next_at s r none = (r, none)
next_at s r (some rec) =
    if rec.type == event_code EventType.context_switch
    then take_switch r (replay_find_thread s (u32 rec.raw))
    else (r, none)

unfoldable pub next_thread_open : RuntimeState → ReplayState → ReplayState × Option ℕ
unfolding skip_to_switch next_at peek_event
next_thread_open s r = let r' = skip_to_switch (events_left r) r in next_at s r' (peek_event r')

-- `gth_replay_next_thread`.
unfoldable pub replay_next_thread : Option ReplayState → RuntimeState → RuntimeState × Option ℕ
unfolding next_thread_open
replay_next_thread none s = (s, none)
replay_next_thread (some r) s =
    let (r', slot) = next_thread_open s r in (record s { replay = some r' }, slot)
