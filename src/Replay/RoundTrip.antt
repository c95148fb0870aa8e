-- ===== src/Replay/RoundTrip.antt =====
-- src/trace/trace.c, src/trace/replay.c: what is recorded between `gth_trace_start` and
-- `gth_trace_stop` is what `gth_replay_init` loads.
use gthreads.Base.{
  ℕ, ◌+◌, ◌<◌, ◌≤◌, ◌≡◌, ◌≢◌, refl, sym, ap, ◌∙◌, subst, List, [], ◌∷◌, ◌++◌, false, arith, Option,
  some, length, length-append, get_or, leb, if◌then◌else◌,
}
use gthreads.State.{Status, ok, estate, TraceRecord, ReplayState, RuntimeState}
use gthreads.Trace.Format.{decode}
use gthreads.Trace.Session.{trace_start, trace_stop, stop_active, stop_open}
use gthreads.Trace.Buffer.{tick}
use gthreads.Replay.Events.{
  replay_init, init_replay, read_file, read_bytes, init_loaded, peek_event, count_records,
  record_bytes, max_file_size,
}
use gthreads.Replay.Loaded.{
  AllGood, file_of, length-file_of, decode-record_bytes, count_records-file_of,
}
use gthreads.Replay.Recording.{Event, Shows, AllShow, length-AllShow, get_or-AllShow, IsWilling}
use gthreads.Replay.Ends.{started, trace_start-started}
use gthreads.Replay.Session.{
  Recording, recorded, recorded-Recording, start_event, stop_event, record_all, CanRecord, AllFit,
  started-Recording, record_all-Recording, Stopped, stop_open-Stopped,
}

-- Everything that a recording of `es` holds: the calls that start and stop it record an event each.
abbrev pub all_events : List Event → List Event
all_events es = (start_event ∷ es) ++ (stop_event ∷ [])

-- The replay of a trace that shows `es`: the record at each index of the cursor shows its event.
pub record Replays (es : List Event) (r : RuntimeState × Status) : Type 0 where
  pub replay : ReplayState
  pub status : r.1 ≡ ok
  pub loaded : r.0.replay ≡ some replay
  pub start : replay.current_idx ≡ 0
  pub count : replay.event_count ≡ length es
  pub at : ℕ → TraceRecord
  pub peek : (i : ℕ) → i < length es → peek_event (record replay { current_idx = i }) ≡ some (at i)
  pub shows : (i : ℕ) (d : Event) → i < length es → Shows (at i) (get_or es i d)

-- The stop of an active recording.
trace_stop-open :
    (now : Option ℕ) (path : List ℕ) (es : List Event) (s : RuntimeState)
    → Recording now path es s
    → trace_stop s ≡ (stop_open (recorded stop_event s).trace (recorded stop_event s), ok)
unfolding trace_stop stop_active
trace_stop-open now path es s v =
    ap (λ b. if b then stop_active s.trace s else (s, estate)) v.initialized
    ∙ ap (λ x. stop_active x s) v.is_state
    ∙ ap
        (λ b.
          if b
          then (stop_open (recorded stop_event s).trace (recorded stop_event s), ok)
          else (s, estate))
        v.active

loaded_replay : List ℕ → ReplayState
loaded_replay bytes = record {
  events = bytes;
  event_count = count_records bytes;
  current_idx = 0;
  diverged = false;
  last_timestamp = 0;
}

-- A file of good records is loaded.
init_loaded-some :
    (bytes : List ℕ) (s : RuntimeState)
    → count_records bytes ≢ 0
    → IsWilling s.world
    → ((init_loaded (some bytes) s).1 ≡ ok)
      × ((init_loaded (some bytes) s).0.replay ≡ some (loaded_replay bytes))
unfolding init_loaded loaded_replay
init_loaded-some bytes s h v = ground (arith, v.malloc s.world.calls)

read_bytes-some :
    (bytes : List ℕ) (s : RuntimeState)
    → 32 ≤ length bytes
    → length bytes ≤ max_file_size
    → IsWilling s.world
    → read_bytes (some bytes) s.world ≡ (some bytes, tick (tick (tick s.world)))
unfolding read_bytes
read_bytes-some bytes s lo hi v = ground (
  arith,
  v.fopen s.world.calls,
  v.ftell s.world.calls,
  v.malloc (s.world.calls + 1),
  v.fread (s.world.calls + 1 + 1),
)

replay_init-loads :
    (c : ℕ) (path bytes : List ℕ) (s : RuntimeState)
    → Stopped (c ∷ path) bytes s
    → 32 ≤ length bytes
    → length bytes ≤ max_file_size
    → replay_init (some (c ∷ path)) s
      ≡ init_loaded (some bytes) (record s { world = tick (tick (tick s.world)) })
unfolding replay_init init_replay read_file
replay_init-loads c path bytes s v lo hi =
    ap (λ b. if b then init_replay s.replay (c ∷ path) s else (s, estate)) v.initialized
    ∙ ap (λ x. init_replay x (c ∷ path) s) v.idle
    ∙ ap (λ x. init_loaded (read_bytes x s.world).0 (record s { world = (read_bytes x s.world).1 }))
        v.found
    ∙ ap (λ r. init_loaded r.0 (record s { world = r.1 })) (read_bytes-some bytes s lo hi v.willing)

peek_event-inside :
    (r : ReplayState)
    → r.current_idx < r.event_count
    → peek_event r ≡ some (decode (record_bytes r.events r.current_idx))
unfolding peek_event
peek_event-inside r h =
    let inside : leb r.event_count r.current_idx ≡ false = ground arith in rw inside refl

-- A stopped trace is loaded and shows its events.
Stopped-Replays :
    (now : Option ℕ) (c : ℕ) (path : List ℕ) (es : List Event) (rs : List TraceRecord)
    (s : RuntimeState)
    → Stopped (c ∷ path) (file_of now rs) s
    → AllGood rs
    → AllShow rs es
    → 0 < length es
    → length es < 8388608
    → Replays es (replay_init (some (c ∷ path)) s)
unfolding loaded_replay
Stopped-Replays now c path es rs s v good show some_events few =
    let n = length-AllShow rs es show in
    let size = length-file_of now rs in
    let any = start_record now in
    let k = count_records-file_of now rs any good in
    let ticked : IsWilling (tick (tick (tick s.world))) = record {
      malloc = v.willing.malloc;
      fopen = v.willing.fopen;
      fwrite = v.willing.fwrite;
      ftell = v.willing.ftell;
      fread = v.willing.fread;
    } in
    let l =
      init_loaded-some (file_of now rs) (record s { world = tick (tick (tick s.world)) })
        (λ z. absurd (omega (arith, k, n, z, some_events))) ticked in
    rw
      (replay_init-loads c path (file_of now rs) s v (omega (arith, size)) (omega (arith, size, n)))
      (record {
        replay = loaded_replay (file_of now rs);
        status = l.0;
        loaded = l.1;
        start = refl;
        count = k ∙ n;
        at = λ i. get_or rs i any;
        peek = λ i h.
            peek_event-inside (record (loaded_replay (file_of now rs)) { current_idx = i })
              (omega (arith, k, n))
            ∙ ap some (decode-record_bytes now rs i any good (omega (arith, n)));
        shows = λ i d h. get_or-AllShow rs es i any d show h;
      })
  where
    start_record : Option ℕ → TraceRecord
    start_record x = decode (file_of x [])

pub length-all_events : (es : List Event) → length (all_events es) ≡ length es + 2
length-all_events es = omega (arith, length-append (start_event ∷ es) (stop_event ∷ []))

-- A recording that is started and stopped, with any calls of `gth_trace_record` between the two, on
-- a C library that gives memory, opens files and writes every byte, and short enough for the limit
-- on the size of a trace file: both calls succeed, `gth_replay_init` with the same path then loads
-- the file, and the record at each index is the one of its event, from the start's to the stop's, with
-- its type, its thread and its payload.
pub replay_init-Replays :
    (c : ℕ) (path : List ℕ) (es : List Event) (s : RuntimeState)
    → CanRecord s
    → AllFit es
    → length es + 2 < 8388608
    → let (s1, status1) = trace_start (some (c ∷ path)) s in
      let (s2, status2) = trace_stop (record_all es s1) in
      (status1 ≡ ok) × (status2 ≡ ok) × Replays (all_events es) (replay_init (some (c ∷ path)) s2)
replay_init-Replays c path es s can fit few =
    let now = s.world.realtime_ns (s.world.calls + 1 + 1) in
    let s1 = recorded start_event (started (c ∷ path) s) in
    let r1 =
      recorded-Recording now (c ∷ path) [] start_event (started (c ∷ path) s)
        (started-Recording (c ∷ path) s can) (omega arith) in
    let r2 = record_all-Recording now (c ∷ path) (start_event ∷ []) es s1 r1 fit in
    let r3 =
      recorded-Recording now (c ∷ path) (start_event ∷ es) stop_event (record_all es s1) r2
        (omega arith) in
    let s3 = recorded stop_event (record_all es s1) in
    let n = length-all_events es in
    let stopped = trace_stop-open now (c ∷ path) (start_event ∷ es) (record_all es s1) r2 in
    rw (trace_start-started c path s can.initialized can.no_trace can.willing) (
      refl,
      ap (λ r. r.1) stopped,
      subst (λ x. Replays (all_events es) (replay_init (some (c ∷ path)) x))
          (sym (ap (λ r. r.0) stopped))
          (Stopped-Replays now c path (all_events es) r3.records (stop_open s3.trace s3)
            (stop_open-Stopped now (c ∷ path) (all_events es) s3 r3) r3.good r3.show (omega arith)
            (omega arith)),
    )
