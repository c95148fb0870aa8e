-- ===== src/Replay/Ends.antt =====
-- src/trace/trace.c: the first and the last call of a recording.
use mathlib.Core.List.{append-nil}
use gthreads.Base.{
  ℕ, ◌+◌, ◌*◌, ◌≡◌, refl, sym, ap, ap₂, ◌∙◌, List, [], ◌∷◌, ◌++◌, true, arith, some, none, take,
  ◌==◌, if◌then◌else◌, Bool-cases, inl, inr,
}
use gthreads.State.{ok, estate, TraceState, TraceBuffer, File, World, RuntimeState}
use gthreads.Trace.{timestamp, flush_trace, flush_open, trace_record, fclose}
use gthreads.Trace.Format.{EventType, encode_header, header_size, record_size, buffer_count}
use gthreads.Trace.Buffer.{tick, create, flush, fwrite}
use gthreads.Trace.Records.{Holds, stored, take_all, flush_all, length-stored}
use gthreads.Trace.Log.{Writing, logged}
use gthreads.Trace.Session.{
  truncate, fresh_trace, trace_start, trace_init, init_trace, open_trace, start_recording,
  write_header, make_header,
}
use gthreads.Replay.Recording.{IsWilling}

-- The state of `gth_trace_start` before it records its own event.
abbrev pub started_file : List ℕ → World → File
started_file path w = record {
  path = path;
  bytes = take header_size (encode_header (make_header (w.realtime_ns (w.calls + 1 + 1))));
}

abbrev pub started_buffer : TraceBuffer
started_buffer = record { buffer = []; capacity = 256; count = 0; record_size = 32 }

-- The state with the opened file, and the world behind the buffer.
abbrev opened : RuntimeState → File → World → RuntimeState
opened s file w = record s {
  trace = some (record fresh_trace {
    file = some file;
    buffer = some started_buffer;
    start_time = (timestamp w).0;
    active = true;
  });
  trace_enabled = true;
  world = (timestamp w).1;
}

-- The world behind the `fopen` of a recording.
abbrev emptied : List ℕ → World → World
emptied path w = truncate path (tick (tick w))

abbrev pub started : List ℕ → RuntimeState → RuntimeState
started path s =
    opened s (started_file path s.world) (tick (tick (tick (tick (emptied path s.world)))))

create-records :
    (w : World)
    → IsWilling w
    → create buffer_count record_size w ≡ (some started_buffer, tick (tick w))
unfolding create
create-records w v = rw (v.malloc w.calls, v.malloc (w.calls + 1)) refl

write_header-written :
    (path : List ℕ) (w : World)
    → IsWilling w
    → write_header (record { path = path; bytes = [] }) w ≡ (
      record {
        path = path;
        bytes = take header_size (encode_header (make_header (w.realtime_ns w.calls)));
      },
      ok,
      tick (tick w),
    )
unfolding write_header fwrite
write_header-written path w v = rw (v.fwrite (w.calls + 1) header_size) refl

start_recording-started :
    (path : List ℕ) (s : RuntimeState)
    → IsWilling s.world
    → start_recording fresh_trace
        (record { path = path; bytes = [] })
        (record s { trace = some fresh_trace; world = emptied path s.world })
      ≡ (trace_record EventType.runtime_init 0 0 0 (started path s), ok)
unfolding start_recording timestamp
start_recording-started path s v =
    let v2 : IsWilling (emptied path s.world) = record {
      malloc = v.malloc;
      fopen = v.fopen;
      fwrite = v.fwrite;
      ftell = v.ftell;
      fread = v.fread;
    } in
    let v4 : IsWilling (tick (tick (emptied path s.world))) = record {
      malloc = v.malloc;
      fopen = v.fopen;
      fwrite = v.fwrite;
      ftell = v.ftell;
      fread = v.fread;
    } in
    let h = write_header-written path (emptied path s.world) v2 in
    let c = create-records (tick (tick (emptied path s.world))) v4 in
    rw (h, start_recording)
      (rw (ap (λ r. (create buffer_count record_size r.2).0) h ∙ ap (λ r. r.0) c) (
        ap₂ (λ f w. (trace_record EventType.runtime_init 0 0 0 (opened s f w), ok))
          (ap (λ r. r.0) h)
          (ap (λ r. (create buffer_count record_size r.2).1) h ∙ ap (λ r. r.1) c)))

trace_init-fresh :
    (s : RuntimeState)
    → s.initialized ≡ true
    → s.trace ≡ none
    → IsWilling s.world
    → (trace_init s).0 ≡ record s { trace = some fresh_trace; world = tick s.world }
unfolding trace_init init_trace
trace_init-fresh s on e v = ground (arith, v.malloc s.world.calls)

open_trace-started :
    (path : List ℕ) (s : RuntimeState)
    → IsWilling s.world
    → open_trace
        (some fresh_trace)
        path
        (record s { trace = some fresh_trace; world = tick s.world })
      ≡ (trace_record EventType.runtime_init 0 0 0 (started path s), ok)
unfolding open_trace
open_trace-started path s v = rw (v.fopen (s.world.calls + 1)) (start_recording-started path s v)

pub trace_start-started :
    (c : ℕ) (path : List ℕ) (s : RuntimeState)
    → s.initialized ≡ true
    → s.trace ≡ none
    → IsWilling s.world
    → trace_start (some (c ∷ path)) s
      ≡ (trace_record EventType.runtime_init 0 0 0 (started (c ∷ path) s), ok)
unfolding trace_start
trace_start-started c path s on e v =
    let s1 = (trace_init s).0 in
    ap (λ b. if b then open_trace s1.trace (c ∷ path) s1 else (s, estate)) on
    ∙ ap (λ (x : RuntimeState). open_trace x.trace (c ∷ path) x) (trace_init-fresh s on e v)
    ∙ open_trace-started (c ∷ path) s v

flush_nothing :
    (buf : TraceBuffer) (file : File) (w : World)
    → (buf.count == 0) ≡ true
    → flush buf file w ≡ (buf, file, 0, w)
unfolding flush
flush_nothing buf file w h = rw h refl

-- What a file holds once a buffer has been flushed to it.
flushed-disk :
    (buf : TraceBuffer) (file : File) (w : World)
    → Holds buf
    → ((n size : ℕ) → w.fwrite n size ≡ size)
    → let (buf', file', n, w') = flush buf file w in
      (file'.path, file'.bytes) ∷ w'.disk ≡ (file.path, file.bytes ++ stored buf) ∷ w.disk
flushed-disk buf file w v all = elim (Bool-cases (buf.count == 0)) [
  | inl nothing ↦ rw (flush_nothing buf file w nothing) (
      ap (λ l. (file.path, l) ∷ w.disk)
        (sym (append-nil file.bytes)
          ∙ ap (λ n. file.bytes ++ take n buf.buffer) {x = 0} {y = buf.count * buf.record_size}
              (ground (arith, nothing))))
  | inr something ↦ rw (flush_all buf file w (ground (arith, something)) all) (
      ap (λ l. (file.path, file.bytes ++ l) ∷ w.disk)
        (take_all (buf.count * buf.record_size) (stored buf)
          (omega (arith, length-stored buf v, ap (λ n. buf.count * n) v.size))))
]

pub flush_trace-all :
    (t : TraceState) (v : Writing t) (w : World)
    → ((n size : ℕ) → w.fwrite n size ≡ size)
    → (fclose (flush_trace t w).0.file (flush_trace t w).1).disk ≡ (v.out.path, logged t v) ∷ w.disk
unfolding flush_trace flush_open fclose
flush_trace-all t v w all =
    ap₂ (λ x y. (fclose (flush_open t x y w).0.file (flush_open t x y w).1).disk) v.has_file
      v.has_buffer
    ∙ flushed-disk v.records v.out w v.holds all
