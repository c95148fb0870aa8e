-- ===== src/Trace/Log.antt =====
-- src/trace/trace.c, src/trace/trace_buffer.c: what is recorded stands in the file and the buffer, in
-- the order of the calls.
use mathlib.Core.List.{append_assoc}
use gthreads.Base.{
  ℕ, ◌+◌, ◌*◌, ◌<◌, ◌≡◌, ◌≢◌, refl, sym, ap, ap₂, ◌∙◌, List, [], ◌++◌, true, false, some, arith,
  Bool-cases, inl, inr, length, take, leb, u64,
}
use gthreads.State.{Mode, TraceBuffer, File, TraceState, World, RuntimeState}
use gthreads.Trace.Format.{EventType, encode}
use gthreads.Trace.Format.RoundTrip.{length-encode}
use gthreads.Trace.{
  timestamp, build_record, record_open, record_event, trace_record, append_or_flush, append_again,
  flush_trace, flush_open,
}
use gthreads.Trace.Buffer.{append, tick}
use gthreads.Trace.Records.{
  take_all, stored, Holds, appended, append-appended, length-stored, stored-appended,
  appended-Holds, flush_all,
}

-- A trace that is being written.
pub record Writing (t : TraceState) : Type 0 where
  pub out : File
  pub records : TraceBuffer
  pub has_file : t.file ≡ some out
  pub has_buffer : t.buffer ≡ some records
  pub holds : Holds records

-- The bytes recorded so far: those in the file, then those in the buffer.
abbrev pub logged : (t : TraceState) → Writing t → List ℕ
logged t w = w.out.bytes ++ stored w.records

-- The trace has grown by some bytes, in the same file.
pub record Grown (t : TraceState) (v : Writing t) (bytes : List ℕ) (t' : TraceState) : Type 0 where
  pub writing : Writing t'
  pub grown : logged t' writing ≡ logged t v ++ bytes
  pub path : writing.out.path ≡ v.out.path
  pub counted : t'.event_count ≡ u64 (t.event_count + 1)
  pub active : t'.active ≡ t.active

append_again-some :
    (t : TraceState) (buf : TraceBuffer) (bytes : List ℕ)
    → buf.count < buf.capacity
    → append_again t (some buf) bytes
      ≡ record t { buffer = some (appended buf bytes); event_count = u64 (t.event_count + 1) }
unfolding append_again
append_again-some t buf bytes h = rw (append-appended buf bytes h)

append_or_flush_room :
    (t : TraceState) (buf : TraceBuffer) (bytes : List ℕ) (w : World)
    → buf.count < buf.capacity
    → append_or_flush t buf bytes w
      ≡ (record t { buffer = some (appended buf bytes); event_count = u64 (t.event_count + 1) }, w)
unfolding append_or_flush
append_or_flush_room t buf bytes w h = rw (append-appended buf bytes h)

append_full :
    (buf : TraceBuffer) (bytes : List ℕ)
    → leb buf.capacity buf.count ≡ true
    → append buf bytes ≡ (buf, false)
unfolding append
append_full buf bytes h = rw h

-- The buffer and the file after a flush.
abbrev emptied : TraceBuffer → TraceBuffer
emptied buf = record buf { count = 0 }

abbrev written : TraceBuffer → File → File
written buf file = record file {
  bytes = file.bytes ++ take (buf.count * buf.record_size) (stored buf);
}

flush_trace_all :
    (t : TraceState) (buf : TraceBuffer) (file : File) (w : World)
    → t.file ≡ some file
    → t.buffer ≡ some buf
    → 0 < buf.count
    → ((n size : ℕ) → w.fwrite n size ≡ size)
    → flush_trace t w
      ≡ (record t { buffer = some (emptied buf); file = some (written buf file) }, tick w)
unfolding flush_trace flush_open
flush_trace_all t buf file w e f h all =
    ap₂ (λ x y. flush_open t x y w) e f ∙ rw (flush_all buf file w h all)

append_or_flush_full :
    (t : TraceState) (buf : TraceBuffer) (file : File) (bytes : List ℕ) (w : World)
    → t.file ≡ some file
    → t.buffer ≡ some buf
    → 0 < buf.capacity
    → leb buf.capacity buf.count ≡ true
    → ((n size : ℕ) → w.fwrite n size ≡ size)
    → (append_or_flush t buf bytes w).0 ≡ record t {
      file = some (written buf file);
      buffer = some (appended (emptied buf) bytes);
      event_count = u64 (t.event_count + 1);
    }
unfolding append_or_flush
append_or_flush_full t buf file bytes w e f room full all =
    rw (append_full buf bytes full, flush_trace_all t buf file w e f (ground arith) all)
      (append_again-some _ (emptied buf) bytes room)

written-bytes :
    (buf : TraceBuffer) (file : File)
    → Holds buf
    → (written buf file).bytes ≡ file.bytes ++ stored buf
written-bytes buf file v =
    ap (λ l. file.bytes ++ l)
      (take_all (buf.count * buf.record_size) (stored buf)
        (omega (arith, length-stored buf v, ap (λ n. buf.count * n) v.size)))

stored-emptied : (buf : TraceBuffer) → stored (emptied buf) ≡ []
stored-emptied buf = ap (λ n. take n buf.buffer) {x = 0 * buf.record_size} {y = 0} (omega arith)

append_or_flush-Grown :
    (t : TraceState) (v : Writing t) (bytes : List ℕ) (w : World)
    → length bytes ≡ 32
    → ((n size : ℕ) → w.fwrite n size ≡ size)
    → Grown t v bytes (append_or_flush t v.records bytes w).0
append_or_flush-Grown t v bytes w e all =
    elim (Bool-cases (leb v.records.capacity v.records.count)) [
      | inr room ↦ rw (append_or_flush_room t v.records bytes w (ground arith)) (record {
        writing = record {
          out = v.out;
          records = appended v.records bytes;
          has_file = v.has_file;
          has_buffer = refl;
          holds = appended-Holds v.records bytes v.holds e;
        };
        grown =
            ap (λ l. v.out.bytes ++ l) (stored-appended v.records bytes v.holds e)
            ∙ sym (append_assoc v.out.bytes (stored v.records) bytes);
        path = refl;
        counted = refl;
        active = refl;
      })
      | inl full ↦
          let none_left : Holds (emptied v.records) = record {
            size = v.holds.size;
            fits = omega arith;
            room = v.holds.room;
          } in
          rw
            (append_or_flush_full t v.records v.out bytes w v.has_file v.has_buffer v.holds.room
              full all)
            (record {
              writing = record {
                out = written v.records v.out;
                records = appended (emptied v.records) bytes;
                has_file = refl;
                has_buffer = refl;
                holds = appended-Holds (emptied v.records) bytes none_left e;
              };
              grown =
                  ap₂ (λ x y. x ++ y) (written-bytes v.records v.out v.holds)
                    (stored-appended (emptied v.records) bytes none_left e
                      ∙ ap (λ l. l ++ bytes) (stored-emptied v.records));
              path = refl;
              counted = refl;
              active = refl;
            })
    ]

record_open-Grown :
    (mode : Mode) (t : TraceState) (v : Writing t) (type : EventType) (tid data1 data2 : ℕ)
    (w : World)
    → mode ≢ Mode.replaying
    → ((n size : ℕ) → w.fwrite n size ≡ size)
    → Grown t v
        (encode (build_record type tid data1 data2 (timestamp w).0))
        (record_open mode t (some v.records) type tid data1 data2 w).0
unfolding record_open timestamp
record_open-Grown Mode.replaying t v type tid data1 data2 w h all = absurd (h refl)
record_open-Grown mode t v type tid data1 data2 w h all =
    let r = build_record type tid data1 data2 (timestamp w).0 in
    append_or_flush-Grown t v (encode r) (timestamp w).1 (length-encode r) all

-- The trace that a call of `gth_trace_record` leaves.
pub record Logged (s : RuntimeState) (t : TraceState) (v : Writing t) (bytes : List ℕ)
    (s' : RuntimeState) : Type 0 where
  pub trace : TraceState
  pub is_trace : s'.trace ≡ some trace
  pub grown : Grown t v bytes trace
  pub same_threads : s'.threads ≡ s.threads

-- While a trace is written, outside of a replay and on a file that takes every byte, a call of
-- `gth_trace_record` puts the 32 bytes of its record behind everything recorded before, whether the
-- buffer has room or has to be flushed first, and counts one event.
pub trace_record-Logged :
    (s : RuntimeState) (t : TraceState) (v : Writing t) (type : EventType) (tid data1 data2 : ℕ)
    → s.trace ≡ some t
    → t.active ≡ true
    → s.mode ≢ Mode.replaying
    → ((n size : ℕ) → s.world.fwrite n size ≡ size)
    → Logged s t v
        (encode (build_record type tid data1 data2 (timestamp s.world).0))
        (trace_record type tid data1 data2 s)
unfolding trace_record record_event
trace_record-Logged s t v type tid data1 data2 e on h all = record {
  trace = (record_open s.mode t (some v.records) type tid data1 data2 s.world).0;
  is_trace =
      ap (λ x. (record_event s.mode x type tid data1 data2 s.world).0) e
      ∙ simp on
          (ap (λ b. some (record_open s.mode t b type tid data1 data2 s.world).0) v.has_buffer);
  grown = record_open-Grown s.mode t v type tid data1 data2 s.world h all;
  same_threads = refl;
}
