-- ===== src/Trace/Session.antt =====
-- src/trace/trace.c: `gth_trace_init`, `gth_trace_cleanup`, `gth_trace_start`, `gth_trace_stop`.
use gthreads.Base.{
  ℕ, Bool, List, [], ◌∷◌, true, false, Option, none, some, ◌==◌, if◌then◌else◌, u64,
}
use gthreads.State.{
  Status, ok, einval, enomem, estate, einternal, TraceState, File, World, RuntimeState,
}
use gthreads.Trace.Format.{
  EventType, Header, encode_header, trace_magic, trace_version, buffer_count, record_size,
  header_size,
}
use gthreads.Trace.Buffer.{tick, create, fwrite}
use gthreads.Trace.{timestamp_freq, timestamp, flush_trace, fclose, trace_record}

abbrev pub fresh_trace : TraceState
fresh_trace = record {
  file = none;
  buffer = none;
  event_count = 0;
  timestamp_freq = timestamp_freq;
  start_time = 0;
  active = false;
}

unfoldable pub init_trace : Option TraceState → RuntimeState → RuntimeState × Status
init_trace (some t) s = (s, estate)
init_trace none s =
    if s.world.malloc s.world.calls
    then (record s { trace = some fresh_trace; world = tick s.world }, ok)
    else (record s { world = tick s.world }, enomem)

-- `gth_trace_init`.
unfoldable pub trace_init : RuntimeState → RuntimeState × Status
unfolding init_trace
trace_init s = if s.initialized then init_trace s.trace s else (s, estate)

-- `gth_trace_cleanup` on the trace state: what it leaves of the world.
unfoldable pub close_trace : TraceState → World → World
unfolding flush_trace fclose
close_trace t w =
    let (t', w') = flush_trace t w in if t.active then fclose t'.file w' else fclose t.file w

unfoldable pub cleanup_open : Option TraceState → RuntimeState → RuntimeState
unfolding close_trace
cleanup_open none s = s
cleanup_open (some t) s = record s {
  trace = none;
  trace_enabled = false;
  world = close_trace t s.world;
}

unfoldable pub trace_cleanup : RuntimeState → RuntimeState
unfolding cleanup_open
trace_cleanup s = cleanup_open s.trace s

-- The header that `gth_trace_write_header` builds. The clock may fail, which leaves 0.
unfoldable pub make_header : Option ℕ → Header
make_header now = record {
  magic = trace_magic;
  version = trace_version;
  creation_time = elim now [ none ↦ 0 | some ns ↦ u64 ns ];
  timestamp_freq = timestamp_freq;
  reserved0 = 0;
  reserved1 = 0;
}

-- `gth_trace_write_header`; the status is `einternal` unless all of the header was written.
unfoldable pub write_header : File → World → File × Status × World
unfolding make_header encode_header fwrite
write_header file w =
    let bytes = encode_header (make_header (w.realtime_ns w.calls)) in
    let (file', written, w') = fwrite bytes header_size file (tick w) in
    if written == header_size then (file', ok, w') else (file', einternal, w')

-- The part of `gth_trace_start` behind the opened file.
unfoldable pub start_recording : TraceState → File → RuntimeState → RuntimeState × Status
unfolding write_header create timestamp trace_cleanup trace_record fclose
start_recording t file s =
    let (file', status, w1) = write_header file s.world in
    let closed = trace_cleanup (record s { trace = some t; world = fclose (some file') w1 }) in
    let (buffer, w2) = create buffer_count record_size w1 in
    let closed2 = trace_cleanup (record s { trace = some t; world = fclose (some file') w2 }) in
    elim status [
      | ok ↦ elim buffer [
        | none ↦ (closed2, enomem)
        | some buf ↦
            let (now, w3) = timestamp w2 in
            let started = record s {
              trace = some (record t {
                file = some file';
                buffer = some buf;
                start_time = now;
                active = true;
              });
              trace_enabled = true;
              world = w3;
            } in
            (trace_record EventType.runtime_init 0 0 0 started, ok)
      ]
      | failed ↦ (closed, failed)
    ]

-- What `fopen` for writing does to a file on the disk.
abbrev pub truncate : List ℕ → World → World
truncate path w = record w { disk = (path, []) ∷ w.disk }

-- The part of `gth_trace_start` behind `gth_trace_init`, by the state of the trace. With no trace
-- `gth_trace_init` has failed for want of memory.
unfoldable pub open_trace : Option TraceState → List ℕ → RuntimeState → RuntimeState × Status
unfolding start_recording trace_cleanup
open_trace none path s = (s, enomem)
open_trace (some t) path s = elim t.file [
  | some file ↦ (s, estate)
  | none ↦
      let opened = record s { world = tick s.world } in
      let emptied = record s { world = truncate path (tick s.world) } in
      if s.world.fopen s.world.calls
      then start_recording t (record { path = path; bytes = [] }) emptied
      else (trace_cleanup opened, einternal)
]

-- `gth_trace_start`; the path is NULL, empty or a string.
unfoldable pub trace_start : Option (List ℕ) → RuntimeState → RuntimeState × Status
unfolding trace_init open_trace
trace_start none s = if s.initialized then (s, einval) else (s, estate)
trace_start (some []) s = if s.initialized then (s, einval) else (s, estate)
trace_start (some (c ∷ path)) s =
    let s1 = (trace_init s).0 in
    if s.initialized then open_trace s1.trace (c ∷ path) s1 else (s, estate)

-- The effect of `gth_trace_stop` on an active trace: the flush, then the file closed and the trace
-- put away.
unfoldable pub stop_open : Option TraceState → RuntimeState → RuntimeState
unfolding flush_trace fclose
stop_open none s = s
stop_open (some t) s =
    let (t', w') = flush_trace t s.world in
    record s { trace = none; trace_enabled = false; world = fclose t'.file w' }

unfoldable pub stop_active : Option TraceState → RuntimeState → RuntimeState × Status
unfolding stop_open trace_record
stop_active none s = (s, estate)
stop_active (some t) s =
    let recorded = trace_record EventType.runtime_shutdown 0 0 0 s in
    if t.active then (stop_open recorded.trace recorded, ok) else (s, estate)

-- `gth_trace_stop`.
unfoldable pub trace_stop : RuntimeState → RuntimeState × Status
unfolding stop_active
trace_stop s = if s.initialized then stop_active s.trace s else (s, estate)

-- `gth_trace_is_active`.
unfoldable pub trace_is_active : Option TraceState → Bool
trace_is_active none = false
trace_is_active (some t) = t.active
