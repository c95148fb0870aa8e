-- ===== src/Trace/Format/RoundTrip.antt =====
-- src/trace/trace_format.h: a record that is written is read back, and passes the check of its sum.
use gthreads.Base.{ℕ, ◌*◌, ◌<◌, ◌≡◌, refl, List, [], ◌∷◌, arith, length, bit_xor, u32}
use gthreads.State.{TraceRecord}
use gthreads.Trace.Format.{to_bytes, from_bytes, body, encode, decode, fnv, calc_checksum}

-- The number that `w` bytes hold, as arithmetic over its digits.
from_to_1 : (n : ℕ) → n < 256 → from_bytes (to_bytes 1 n) ≡ n
unfolding from_bytes to_bytes
from_to_1 n h = omega arith

from_to_2 : (n : ℕ) → n < 65536 → from_bytes (to_bytes 2 n) ≡ n
unfolding from_bytes to_bytes
from_to_2 n h = omega arith

from_to_4 : (n : ℕ) → n < 4294967296 → from_bytes (to_bytes 4 n) ≡ n
unfolding from_bytes to_bytes
from_to_4 n h = omega arith

from_to_8 : (n : ℕ) → n < 18446744073709551616 → from_bytes (to_bytes 8 n) ≡ n
unfolding from_bytes to_bytes
from_to_8 n h = omega arith

-- The widths of the fields of `gth_trace_record_t`.
pub record Fits (r : TraceRecord) : Type 0 where
  pub timestamp : r.timestamp < 18446744073709551616
  pub type : r.type < 256
  pub reserved : r.reserved < 256
  pub tid : r.tid < 4294967296
  pub slot_index : r.slot_index < 4294967296
  pub raw : r.raw < 18446744073709551616
  pub pad : r.pad < 65536
  pub checksum : r.checksum < 4294967296

-- The 32 bytes of a record whose fields fit their widths give the record back.
pub decode-encode : (r : TraceRecord) → Fits r → decode (encode r) ≡ r
unfolding decode encode
decode-encode r f i = record {
  timestamp = from_to_8 r.timestamp f.timestamp i;
  type = from_to_1 r.type f.type i;
  reserved = from_to_1 r.reserved f.reserved i;
  tid = from_to_4 r.tid f.tid i;
  slot_index = from_to_4 r.slot_index f.slot_index i;
  raw = from_to_8 r.raw f.raw i;
  pad = from_to_2 r.pad f.pad i;
  checksum = from_to_4 r.checksum f.checksum i;
}

pub length-encode : (r : TraceRecord) → length (encode r) ≡ 32
unfolding encode
length-encode r = refl

fnv-lt : (hash : ℕ) (bytes : List ℕ) → hash < 4294967296 → fnv hash bytes < 4294967296
unfolding fnv
fnv-lt hash [] h = h
fnv-lt hash (b ∷ bytes) h = fnv-lt (u32 (bit_xor hash b * 16777619)) bytes (omega arith)

pub calc_checksum-lt : (r : TraceRecord) → calc_checksum r < 4294967296
unfolding calc_checksum
calc_checksum-lt r = fnv-lt 2166136261 (body r) (omega arith)
