-- ===== src/Trace.antt =====
-- src/trace/trace.c: recording of events into the buffer, and the life of a trace.
pub mod Format
pub mod Buffer
pub mod Session
pub mod Recorded
pub mod Records
pub mod Log
pub mod Ticks
use gthreads.Base.{
  ℕ, ◌+◌, ◌*◌, ◌%◌, List, [], ◌∷◌, ◌++◌, Bool, true, false, not, ◌&&◌, Option, none, some, ◌==◌,
  if◌then◌else◌, u8, u32, u64,
}
use gthreads.State.{
  Status, ok, einval, enomem, estate, einternal, Mode, TraceRecord, TraceBuffer, TraceState, File,
  World, RuntimeState,
}
use Format.{
  EventType, event_code, encode, calc_checksum, Header, encode_header, trace_magic, trace_version,
  buffer_count, record_size, header_size,
}
use Format
use Buffer.{tick, create, append, flush, fwrite}

-- `gth_trace_timestamp_freq` on x86_64.
abbrev pub timestamp_freq : ℕ
timestamp_freq = 2500000000

-- `gth_trace_timestamp`: the time-stamp counter.
unfoldable pub timestamp : World → ℕ × World
timestamp w = (u64 (w.rdtsc w.calls), tick w)

-- `gth_trace_flush`, on the fields that it touches. `fflush` writes nothing that is modelled.
unfoldable pub flush_open :
    TraceState → Option File → Option TraceBuffer → World → TraceState × World
unfolding flush
flush_open t none _ w = (t, w)
flush_open t (some file) none w = (t, w)
flush_open t (some file) (some buf) w =
    let (buf', file', n, w') = flush buf file w in
    (record t { buffer = some buf'; file = some file' }, w')

unfoldable pub flush_trace : TraceState → World → TraceState × World
unfolding flush_open
flush_trace t w = flush_open t t.file t.buffer w

-- `fclose`: what has been written stands on the disk under the file's path.
unfoldable pub fclose : Option File → World → World
fclose none w = w
fclose (some file) w = record w { disk = (file.path, file.bytes) ∷ w.disk }

-- Two 32-bit halves of the payload; `<< 32` of 32 bits and the `|` of disjoint bits.
abbrev pub pack_halves : ℕ → ℕ → ℕ
pack_halves data1 data2 = u32 data1 * 4294967296 + u32 data2

-- The payload by event type.
unfoldable pub payload : EventType → ℕ → ℕ → ℕ
payload EventType.context_switch data1 data2 = pack_halves data1 data2
payload EventType.sem_wait data1 data2 = pack_halves data1 data2
payload EventType.sem_post data1 data2 = pack_halves data1 data2
payload EventType.cond_broadcast data1 data2 = pack_halves data1 data2
payload EventType.cond_signal data1 data2 = pack_halves data1 data2
payload _ data1 data2 = data1

unfoldable pub build_record : EventType → ℕ → ℕ → ℕ → ℕ → TraceRecord
unfolding payload calc_checksum
build_record type tid data1 data2 now =
    let blank : TraceRecord = record {
      timestamp = now;
      type = event_code type;
      reserved = 0;
      tid = u32 tid;
      slot_index = 0;
      raw = payload type data1 data2;
      pad = 0;
      checksum = 0;
    } in
    record blank { checksum = calc_checksum blank }

unfoldable pub append_again : TraceState → Option TraceBuffer → List ℕ → TraceState
unfolding append
append_again t none bytes = t
append_again t (some buf) bytes =
    let (buf', stored) = append buf bytes in
    if stored then record t { buffer = some buf'; event_count = u64 (t.event_count + 1) } else t

-- The append of `gth_trace_record`, with its flush and second attempt.
unfoldable pub append_or_flush : TraceState → TraceBuffer → List ℕ → World → TraceState × World
unfolding append flush_trace append_again
append_or_flush t buf bytes w =
    let (buf', stored) = append buf bytes in
    if stored
    then (record t { buffer = some buf'; event_count = u64 (t.event_count + 1) }, w)
    else let (t', w') = flush_trace t w in (append_again t' t'.buffer bytes, w')

-- `gth_trace_record` on the trace state: nothing unless tracing is active, in replay mode or
-- without a buffer.
unfoldable pub record_open :
    Mode → TraceState → Option TraceBuffer → EventType → ℕ → ℕ → ℕ → World → TraceState × World
unfolding timestamp build_record encode append_or_flush
record_open Mode.replaying t buffer type tid data1 data2 w = (t, w)
record_open _ t none type tid data1 data2 w = (t, w)
record_open _ t (some buf) type tid data1 data2 w =
    let (now, w') = timestamp w in
    append_or_flush t buf (encode (build_record type tid data1 data2 now)) w'

unfoldable pub record_event :
    Mode → Option TraceState → EventType → ℕ → ℕ → ℕ → World → Option TraceState × World
unfolding record_open
record_event mode none type tid data1 data2 w = (none, w)
record_event mode (some t) type tid data1 data2 w =
    let (t', w') = record_open mode t t.buffer type tid data1 data2 w in
    if t.active then (some t', w') else (some t, w)

-- `gth_trace_record`. Only the trace state and the world change.
unfoldable pub trace_record : EventType → ℕ → ℕ → ℕ → RuntimeState → RuntimeState
trace_record type tid data1 data2 s =
    let (t, w) = record_event s.mode s.trace type tid data1 data2 s.world in
    record s { trace = t; world = w }

-- The instrumentation calls, in the order of the source.
abbrev pub trace_context_switch : ℕ → ℕ → RuntimeState → RuntimeState
trace_context_switch from_tid to_tid =
    trace_record EventType.context_switch from_tid from_tid to_tid

abbrev pub trace_thread_create : ℕ → RuntimeState → RuntimeState
trace_thread_create tid = trace_record EventType.thread_create tid 0 0

abbrev pub trace_thread_exit : ℕ → ℕ → RuntimeState → RuntimeState
trace_thread_exit tid retval = trace_record EventType.thread_exit tid retval 0

abbrev pub trace_thread_cancel : ℕ → RuntimeState → RuntimeState
trace_thread_cancel target_tid = trace_record EventType.thread_cancel target_tid 0 0

abbrev pub trace_thread_block : ℕ → ℕ → RuntimeState → RuntimeState
trace_thread_block tid reason = trace_record EventType.thread_block tid reason 0

abbrev pub trace_thread_unblock : ℕ → RuntimeState → RuntimeState
trace_thread_unblock tid = trace_record EventType.thread_unblock tid 0 0

abbrev pub trace_thread_yield : ℕ → RuntimeState → RuntimeState
trace_thread_yield tid = trace_record EventType.thread_yield tid 0 0

abbrev pub trace_mutex_lock : ℕ → ℕ → RuntimeState → RuntimeState
trace_mutex_lock tid mutex_addr = trace_record EventType.mutex_lock tid mutex_addr 0

abbrev pub trace_mutex_unlock : ℕ → ℕ → RuntimeState → RuntimeState
trace_mutex_unlock tid mutex_addr = trace_record EventType.mutex_unlock tid mutex_addr 0

abbrev pub trace_mutex_wait : ℕ → ℕ → RuntimeState → RuntimeState
trace_mutex_wait tid mutex_addr = trace_record EventType.mutex_wait tid mutex_addr 0

abbrev pub trace_mutex_wake : ℕ → ℕ → RuntimeState → RuntimeState
trace_mutex_wake tid mutex_addr = trace_record EventType.mutex_wake tid mutex_addr 0

abbrev pub trace_sem_wait : ℕ → ℕ → ℕ → RuntimeState → RuntimeState
trace_sem_wait tid sem_addr count_before = trace_record EventType.sem_wait tid sem_addr count_before

abbrev pub trace_sem_post : ℕ → ℕ → ℕ → RuntimeState → RuntimeState
trace_sem_post tid sem_addr count_after = trace_record EventType.sem_post tid sem_addr count_after

abbrev pub trace_sem_wake : ℕ → ℕ → RuntimeState → RuntimeState
trace_sem_wake tid sem_addr = trace_record EventType.sem_wake tid sem_addr 0

abbrev pub trace_cond_wait : ℕ → ℕ → RuntimeState → RuntimeState
trace_cond_wait tid cond_addr = trace_record EventType.cond_wait tid cond_addr 0

abbrev pub trace_cond_signal : ℕ → ℕ → ℕ → RuntimeState → RuntimeState
trace_cond_signal tid cond_addr target_tid =
    trace_record EventType.cond_signal tid cond_addr target_tid

abbrev pub trace_cond_broadcast : ℕ → ℕ → ℕ → RuntimeState → RuntimeState
trace_cond_broadcast tid cond_addr wake_count =
    trace_record EventType.cond_broadcast tid cond_addr wake_count
