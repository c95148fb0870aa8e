-- ===== src/Tests/Traces.antt =====
-- The theorems on traces at concrete records and states.
use gthreads.Base.{◌≡◌, ◌≢◌, arith, [], ◌∷◌, ◌++◌, replicate, refl, true, false, some}
use gthreads.State.{ReplayState, TraceRecord, TraceBuffer, File, TraceState, Mode, RuntimeState}
use gthreads.Trace.Format.{EventType, decode, encode, validate_record}
use gthreads.Trace.Format.RoundTrip.{Fits, decode-encode}
use gthreads.Trace.{timestamp, build_record, trace_record}
use gthreads.Trace.Recorded.{validate_record-encode}
use gthreads.Trace.Log.{Writing, Logged, trace_record-Logged}
use gthreads.Replay.Drive.{next_thread_open, replay_next_thread}
use gthreads.Replay.Follow.{Follows, replay_next_thread-Follows}
use gthreads.Tests.Data.{booted}

-- A context switch from the scheduler to thread 5.
abbrev switch : TraceRecord
switch = record {
  timestamp = 123456789012;
  type = 10;
  reserved = 0;
  tid = 5;
  slot_index = 2;
  raw = 21474836480;
  pad = 0;
  checksum = 3735928559;
}

switch-Fits : Fits switch
switch-Fits = record {
  timestamp = omega arith;
  type = omega arith;
  reserved = omega arith;
  tid = omega arith;
  slot_index = omega arith;
  raw = omega arith;
  pad = omega arith;
  checksum = omega arith;
}

decode-encode_example : decode (encode switch) ≡ switch
decode-encode_example = decode-encode switch switch-Fits

validate_record-encode_example :
    let r = build_record EventType.context_switch 0 0 5 1000 in
    (decode (encode r) ≡ r) × (validate_record (decode (encode r)) ≡ true)
validate_record-encode_example =
    validate_record-encode EventType.context_switch 0 0 5 1000 (omega arith) (omega arith)

-- A trace with a full buffer of one record.
abbrev buffer : TraceBuffer
buffer = record { buffer = encode switch; capacity = 1; count = 1; record_size = 32 }

abbrev file : File
file = record { path = 116 ∷ []; bytes = [] }

abbrev full_trace : TraceState
full_trace = record {
  file = some file;
  buffer = some buffer;
  event_count = 1;
  timestamp_freq = 2500000000;
  start_time = 1;
  active = true;
}

full_trace-Writing : Writing full_trace
unfolding encode
full_trace-Writing = record {
  out = file;
  records = buffer;
  has_file = refl;
  has_buffer = refl;
  holds = record { size = refl; fits = omega arith; room = omega arith };
}

abbrev traced : RuntimeState
traced = record booted { mode = Mode.recording; trace = some full_trace }

not_replaying : Mode.recording ≢ Mode.replaying
not_replaying e = cc

trace_record-Logged_example :
    Logged traced full_trace full_trace-Writing
      (encode (build_record EventType.thread_yield 1 1 0 (timestamp traced.world).0))
      (trace_record EventType.thread_yield 1 1 0 traced)
trace_record-Logged_example =
    trace_record-Logged traced full_trace full_trace-Writing EventType.thread_yield 1 1 0 refl refl
      not_replaying (λ n size. refl)

-- A trace of one event, the switch to thread 5, and its replay.
abbrev recorded : ReplayState
recorded = record {
  events = replicate 32 0 ++ encode switch;
  event_count = 1;
  current_idx = 0;
  diverged = false;
  last_timestamp = 0;
}

replay_next_thread-Follows_example :
    let (r', choice) = next_thread_open booted recorded in
    (replay_next_thread (some recorded) booted ≡ (record booted { replay = some r' }, choice))
    × Follows booted recorded r' choice
replay_next_thread-Follows_example = replay_next_thread-Follows booted recorded
