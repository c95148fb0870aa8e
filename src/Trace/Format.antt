-- ===== src/Trace/Format.antt =====
-- src/trace/trace_format.h: the event codes, the 32 bytes of a record, and its FNV-1a checksum.
pub mod RoundTrip
use gthreads.Base.{
  ℕ, zero, suc, ◌+◌, ◌*◌, ◌/◌, ◌%◌, List, [], ◌∷◌, ◌++◌, Bool, bit_xor, ◌==◌, take, drop, u32,
}
use gthreads.State.{TraceRecord}

abbrev pub trace_magic : ℕ
trace_magic = 0x32525447

abbrev pub trace_version : ℕ
trace_version = 2

abbrev pub record_size : ℕ
record_size = 32

abbrev pub header_size : ℕ
header_size = 32

abbrev pub buffer_count : ℕ
buffer_count = 256

-- `gth_event_type_t`.
pub data EventType : Type 0 where
  no_event thread_create thread_exit thread_cancel context_switch thread_yield : EventType
  thread_block thread_unblock mutex_lock mutex_unlock mutex_wait mutex_wake : EventType
  sem_wait sem_post sem_wake cond_wait cond_signal cond_broadcast : EventType
  runtime_init runtime_shutdown : EventType

abbrev pub event_code : EventType → ℕ
event_code no_event = 0
event_code thread_create = 1
event_code thread_exit = 2
event_code thread_cancel = 3
event_code context_switch = 10
event_code thread_yield = 11
event_code thread_block = 20
event_code thread_unblock = 21
event_code mutex_lock = 30
event_code mutex_unlock = 31
event_code mutex_wait = 32
event_code mutex_wake = 33
event_code sem_wait = 40
event_code sem_post = 41
event_code sem_wake = 42
event_code cond_wait = 50
event_code cond_signal = 51
event_code cond_broadcast = 52
event_code runtime_init = 90
event_code runtime_shutdown = 91

-- The `w` bytes of a number, the lowest first, and back.
unfoldable pub to_bytes : ℕ → ℕ → List ℕ
to_bytes zero n = []
to_bytes (suc w) n = n % 256 ∷ to_bytes w (n / 256)

unfoldable pub from_bytes : List ℕ → ℕ
from_bytes [] = 0
from_bytes (b ∷ bs) = b + 256 * from_bytes bs

-- The bytes of a record without its checksum, in the order of the packed struct.
unfoldable pub body : TraceRecord → List ℕ
unfolding to_bytes
body r =
    to_bytes 8 r.timestamp
    ++ (to_bytes 1 r.type
        ++ (to_bytes 1 r.reserved
            ++ (to_bytes 4 r.tid
                ++ (to_bytes 4 r.slot_index ++ (to_bytes 8 r.raw ++ to_bytes 2 r.pad)))))

unfoldable pub encode : TraceRecord → List ℕ
unfolding body
encode r = body r ++ to_bytes 4 r.checksum

-- One round of the hash: `hash ^= byte; hash *= prime`.
unfoldable pub fnv_step : ℕ → ℕ → ℕ
fnv_step hash byte = u32 (bit_xor hash byte * 16777619)

unfoldable pub fnv : ℕ → List ℕ → ℕ
unfolding fnv_step
fnv hash [] = hash
fnv hash (b ∷ bs) = fnv (fnv_step hash b) bs

unfoldable pub calc_checksum : TraceRecord → ℕ
unfolding fnv body
calc_checksum r = fnv 2166136261 (body r)

unfoldable pub validate_record : TraceRecord → Bool
unfolding calc_checksum
validate_record r = r.checksum == calc_checksum r

-- The record that 32 bytes hold, as a cast of their address reads it.
unfoldable pub decode : List ℕ → TraceRecord
unfolding from_bytes
decode bytes = record {
  timestamp = from_bytes (take 8 bytes);
  type = from_bytes (take 1 (drop 8 bytes));
  reserved = from_bytes (take 1 (drop 9 bytes));
  tid = from_bytes (take 4 (drop 10 bytes));
  slot_index = from_bytes (take 4 (drop 14 bytes));
  raw = from_bytes (take 8 (drop 18 bytes));
  pad = from_bytes (take 2 (drop 26 bytes));
  checksum = from_bytes (take 4 (drop 28 bytes));
}

-- `gth_trace_header_t`.
pub record Header : Type 0 where
  pub magic : ℕ
  pub version : ℕ
  pub creation_time : ℕ
  pub timestamp_freq : ℕ
  pub reserved0 : ℕ
  pub reserved1 : ℕ

unfoldable pub encode_header : Header → List ℕ
unfolding to_bytes
encode_header h =
    to_bytes 4 h.magic
    ++ (to_bytes 4 h.version
        ++ (to_bytes 8 h.creation_time
            ++ (to_bytes 8 h.timestamp_freq ++ (to_bytes 4 h.reserved0 ++ to_bytes 4 h.reserved1))))

unfoldable pub decode_header : List ℕ → Header
unfolding from_bytes
decode_header bytes = record {
  magic = from_bytes (take 4 bytes);
  version = from_bytes (take 4 (drop 4 bytes));
  creation_time = from_bytes (take 8 (drop 8 bytes));
  timestamp_freq = from_bytes (take 8 (drop 16 bytes));
  reserved0 = from_bytes (take 4 (drop 24 bytes));
  reserved1 = from_bytes (take 4 (drop 28 bytes));
}
