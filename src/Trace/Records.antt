-- ===== src/Trace/Records.antt =====
-- src/trace/trace_buffer.c: the records in a buffer, as bytes.

use gthreads.Base.{
  ℕ, zero, suc, ◌+◌, ◌*◌, ◌/◌, ◌<◌, ◌≤◌, ◌≡◌, refl, sym, ap, ap₂, ◌∙◌, subst, List, [], ◌∷◌, ◌++◌,
  true, false, arith, ◌==◌, length, length-append, take, leb,
}
use gthreads.State.{TraceBuffer, File, World}
use gthreads.Trace.Buffer.{append, flush, fwrite, tick}

pub take_all {ℓ} : {A : Type ℓ} (n : ℕ) (l : List A) → length l ≤ n → take n l ≡ l
take_all zero [] h = refl
take_all zero (x ∷ l) h = absurd (omega arith)
take_all (suc n) [] h = refl
take_all (suc n) (x ∷ l) h = ap (λ r. x ∷ r) (take_all n l (omega arith))

length-take {ℓ} : {A : Type ℓ} (n : ℕ) (l : List A) → n ≤ length l → length (take n l) ≡ n
length-take zero l h = refl
length-take (suc n) [] h = absurd (omega arith)
length-take (suc n) (x ∷ l) h = omega (arith, length-take n l (omega arith))

-- The bytes of the records in a buffer.
abbrev pub stored : TraceBuffer → List ℕ
stored buf = take (buf.count * buf.record_size) buf.buffer

-- A buffer of 32-byte records.
pub record Holds (buf : TraceBuffer) : Type 0 where
  pub size : buf.record_size ≡ 32
  pub fits : buf.count * 32 ≤ length buf.buffer
  pub room : 0 < buf.capacity

-- What an append to a buffer that is not full gives.
abbrev pub appended : TraceBuffer → List ℕ → TraceBuffer
appended buf bytes = record buf {
  buffer = stored buf ++ take buf.record_size bytes;
  count = buf.count + 1;
}

pub append-appended :
    (buf : TraceBuffer) (bytes : List ℕ)
    → buf.count < buf.capacity
    → append buf bytes ≡ (appended buf bytes, true)
unfolding append
append-appended buf bytes h =
    let room : leb buf.capacity buf.count ≡ false = ground arith in rw room

pub length-stored : (buf : TraceBuffer) → Holds buf → length (stored buf) ≡ buf.count * 32
length-stored buf v =
    subst (λ n. length (take (buf.count * n) buf.buffer) ≡ buf.count * 32) (sym v.size)
      (length-take (buf.count * 32) buf.buffer v.fits)

length-appended :
    (buf : TraceBuffer) (bytes : List ℕ)
    → Holds buf
    → length bytes ≡ 32
    → length (stored buf ++ bytes) ≡ (buf.count + 1) * 32
length-appended buf bytes v e = omega (arith, length-append (stored buf) bytes, length-stored buf v)

take_record :
    (buf : TraceBuffer) (bytes : List ℕ)
    → Holds buf
    → length bytes ≡ 32
    → take buf.record_size bytes ≡ bytes
take_record buf bytes v e = take_all buf.record_size bytes (omega (arith, v.size))

pub stored-appended :
    (buf : TraceBuffer) (bytes : List ℕ)
    → Holds buf
    → length bytes ≡ 32
    → stored (appended buf bytes) ≡ stored buf ++ bytes
stored-appended buf bytes v e =
    ap₂ (λ n l. take ((buf.count + 1) * n) (stored buf ++ l)) v.size (take_record buf bytes v e)
    ∙ take_all ((buf.count + 1) * 32) (stored buf ++ bytes)
        (omega (arith, length-appended buf bytes v e))

pub appended-Holds :
    (buf : TraceBuffer) (bytes : List ℕ)
    → Holds buf
    → length bytes ≡ 32
    → Holds (appended buf bytes)
appended-Holds buf bytes v e = record {
  size = v.size;
  fits =
      subst (λ l. (buf.count + 1) * 32 ≤ length (stored buf ++ l)) (sym (take_record buf bytes v e))
        (omega (arith, length-appended buf bytes v e));
  room = v.room;
}

-- A flush on which `fwrite` takes every byte.
pub flush_all :
    (buf : TraceBuffer) (file : File) (w : World)
    → 0 < buf.count
    → ((n size : ℕ) → w.fwrite n size ≡ size)
    → flush buf file w ≡ (
      record buf { count = 0 },
      record file { bytes = file.bytes ++ take (buf.count * buf.record_size) (stored buf) },
      buf.count * buf.record_size / buf.record_size,
      tick w,
    )
unfolding flush fwrite
flush_all buf file w h all =
    let some_records : (buf.count == 0) ≡ false = ground arith in
    let complete : (buf.count * buf.record_size == buf.count * buf.record_size) ≡ true =
      ground arith in
    rw (some_records, all w.calls (buf.count * buf.record_size), complete)
