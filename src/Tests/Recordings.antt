-- ===== src/Tests/Recordings.antt =====
-- The theorems on recordings at a concrete one.
use gthreads.Base.{◌≡◌, refl, arith, List, [], ◌∷◌, some}
use gthreads.State.{ok}
use gthreads.Trace.Format.{EventType}
use gthreads.Trace.Session.{trace_start, trace_stop}
use gthreads.Replay.Events.{replay_init}
use gthreads.Replay.Recording.{Event}
use gthreads.Replay.Session.{CanRecord, record_all}
use gthreads.Replay.RoundTrip.{Replays, all_events, replay_init-Replays}
use gthreads.Tests.Data.{booted}

-- A thread is created and the scheduler switches to it.
abbrev two_events : List Event
two_events =
    record { type = EventType.thread_create; tid = 1; data1 = 0; data2 = 0 }
    ∷ record { type = EventType.context_switch; tid = 0; data1 = 0; data2 = 1 }
    ∷ []

booted-CanRecord : CanRecord booted
booted-CanRecord = record {
  initialized = refl;
  no_trace = refl;
  no_replay = refl;
  mode = λ e. cc;
  willing = record {
    malloc = λ n. refl;
    fopen = λ n. refl;
    fwrite = λ n size. refl;
    ftell = λ n. refl;
    fread = λ n. refl;
  };
}

replay_init-Replays_example :
    let (s1, status1) = trace_start (some (97 ∷ [])) booted in
    let (s2, status2) = trace_stop (record_all two_events s1) in
    (status1 ≡ ok)
    × (status2 ≡ ok)
    × Replays (all_events two_events) (replay_init (some (97 ∷ [])) s2)
replay_init-Replays_example =
    replay_init-Replays 97 [] two_events booted booted-CanRecord (omega arith, (omega arith, tt))
      (omega arith)
