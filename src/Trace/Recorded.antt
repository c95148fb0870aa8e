-- ===== src/Trace/Recorded.antt =====
-- src/trace/trace.c: a record that `gth_trace_record` builds passes the check of the replay.
use gthreads.Base.{ℕ, ◌<◌, ◌≡◌, refl, ap, ◌∙◌, true, arith, ==_iff, u32}
use gthreads.Trace.{payload, build_record}
use gthreads.Trace.Format.{
  EventType, event_code, body, encode, decode, calc_checksum, validate_record,
}
use gthreads.Trace.Format.RoundTrip.{Fits, decode-encode, calc_checksum-lt}

payload-lt :
    (type : EventType) (data1 data2 : ℕ)
    → data1 < 18446744073709551616
    → payload type data1 data2 < 18446744073709551616
unfolding payload
payload-lt EventType.context_switch data1 data2 h = omega arith
payload-lt EventType.sem_wait data1 data2 h = omega arith
payload-lt EventType.sem_post data1 data2 h = omega arith
payload-lt EventType.cond_broadcast data1 data2 h = omega arith
payload-lt EventType.cond_signal data1 data2 h = omega arith
payload-lt _ data1 data2 h = h

event_code-lt : (type : EventType) → event_code type < 256
event_code-lt EventType.no_event = omega arith
event_code-lt _ = omega arith

pub build_record-Fits :
    (type : EventType) (tid data1 data2 now : ℕ)
    → data1 < 18446744073709551616
    → now < 18446744073709551616
    → Fits (build_record type tid data1 data2 now)
unfolding build_record
build_record-Fits type tid data1 data2 now h n = record {
  timestamp = n;
  type = omega (arith, event_code-lt type);
  reserved = omega arith;
  tid = omega arith;
  slot_index = omega arith;
  raw = payload-lt type data1 data2 h;
  pad = omega arith;
  checksum = calc_checksum-lt (record {
    timestamp = now;
    type = event_code type;
    reserved = 0;
    tid = u32 tid;
    slot_index = 0;
    raw = payload type data1 data2;
    pad = 0;
    checksum = 0;
  });
}

-- The checksum covers every field but itself.
pub validate_record-build_record :
    (type : EventType) (tid data1 data2 now : ℕ)
    → validate_record (build_record type tid data1 data2 now) ≡ true
unfolding build_record validate_record calc_checksum body
validate_record-build_record type tid data1 data2 now = (==_iff _ _).1 refl

-- An event with a 64-bit payload and time is written to the file as 32 bytes that the replay reads
-- back as the same record, with a checksum that it accepts.
pub validate_record-encode :
    (type : EventType) (tid data1 data2 now : ℕ)
    → data1 < 18446744073709551616
    → now < 18446744073709551616
    → let r = build_record type tid data1 data2 now in
      (decode (encode r) ≡ r) × (validate_record (decode (encode r)) ≡ true)
validate_record-encode type tid data1 data2 now h n =
    let e = decode-encode _ (build_record-Fits type tid data1 data2 now h n) in
    (e, ap validate_record e ∙ validate_record-build_record type tid data1 data2 now)
