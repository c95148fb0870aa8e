-- ===== src/Trace/Ticks.antt =====
-- src/trace/trace.c: what a call of `gth_trace_record` keeps of the world.
use gthreads.Base.{ℕ, ◌*◌, List, ◌==◌, Option, none, some, if-cases}
use gthreads.State.{Mode, TraceState, TraceBuffer, File, World, RuntimeState}
use gthreads.Trace.{
  timestamp, build_record, append_or_flush, flush_trace, flush_open, record_open, record_event,
  trace_record,
}
use gthreads.Trace.Format.{EventType, encode}
use gthreads.Trace.Buffer.{tick, append, flush, fwrite}

-- A predicate of the world that a call of the outside keeps.
module _ (P : World → Type 0) (ticked : (w : World) → P w → P (tick w)) where
  flush-keeps : (buf : TraceBuffer) (file : File) (w : World) → P w → P (flush buf file w).3
  unfolding flush fwrite
  flush-keeps buf file w v =
      let Q : TraceBuffer × File × ℕ × World → Type 0 = λ r. P r.3 in
      let size = buf.count * buf.record_size in
      if-cases Q (buf.count == 0) (λ h. v)
        (λ h. if-cases Q (w.fwrite w.calls size == size) (λ h. ticked w v) (λ h. ticked w v))

  pub flush_open-keeps :
      (t : TraceState) (file : Option File) (buf : Option TraceBuffer) (w : World)
      → P w
      → P (flush_open t file buf w).1
  unfolding flush_open
  flush_open-keeps t none buf w v = v
  flush_open-keeps t (some file) none w v = v
  flush_open-keeps t (some file) (some buf) w v = flush-keeps buf file w v

  append_or_flush-keeps :
      (t : TraceState) (buf : TraceBuffer) (bytes : List ℕ) (w : World)
      → P w
      → P (append_or_flush t buf bytes w).1
  unfolding append_or_flush flush_trace
  append_or_flush-keeps t buf bytes w v =
      if-cases (λ (r : TraceState × World). P r.1) (append buf bytes).1 (λ h. v)
        (λ h. flush_open-keeps t t.file t.buffer w v)

  record_open-keeps :
      (mode : Mode) (t : TraceState) (buf : Option TraceBuffer) (type : EventType)
      (tid data1 data2 : ℕ) (w : World)
      → P w
      → P (record_open mode t buf type tid data1 data2 w).1
  unfolding record_open timestamp
  record_open-keeps Mode.replaying t buf type tid data1 data2 w v = v
  record_open-keeps _ t none type tid data1 data2 w v = v
  record_open-keeps _ t (some buf) type tid data1 data2 w v =
      append_or_flush-keeps t buf (encode (build_record type tid data1 data2 (timestamp w).0))
        (tick w) (ticked w v)

  record_event-keeps :
      (mode : Mode) (t : Option TraceState) (type : EventType) (tid data1 data2 : ℕ) (w : World)
      → P w
      → P (record_event mode t type tid data1 data2 w).1
  unfolding record_event
  record_event-keeps mode none type tid data1 data2 w v = v
  record_event-keeps mode (some t) type tid data1 data2 w v =
      if-cases (λ (r : Option TraceState × World). P r.1) t.active
        (λ h. record_open-keeps mode t t.buffer type tid data1 data2 w v) (λ h. v)

  pub trace_record-keeps :
      (type : EventType) (tid data1 data2 : ℕ) (s : RuntimeState)
      → P s.world
      → P (trace_record type tid data1 data2 s).world
  unfolding trace_record
  trace_record-keeps type tid data1 data2 s =
      record_event-keeps s.mode s.trace type tid data1 data2 s.world
