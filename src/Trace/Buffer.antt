-- ===== src/Trace/Buffer.antt =====
-- src/trace/trace_buffer.c: the linear buffer of records, flushed when it is full. An absent buffer
-- is the NULL pointer.
use gthreads.Base.{
  ℕ, ◌+◌, ◌*◌, ◌/◌, List, [], ◌++◌, Bool, true, false, ◌||◌, Option, none, some, ◌==◌, ltb, leb,
  if◌then◌else◌, take,
}
use gthreads.State.{TraceBuffer, File, World}

abbrev pub size_max : ℕ
size_max = 18446744073709551615

-- One call of a function of the C library, the kernel or the processor.
abbrev pub tick : World → World
tick w = record w { calls = w.calls + 1 }

unfoldable pub create : ℕ → ℕ → World → Option TraceBuffer × World
create capacity record_size w =
    if capacity == 0 || record_size == 0
    then (none, w)
    else if ltb (size_max / capacity) record_size
    then (none, w)
    else if w.malloc w.calls
    then (if w.malloc (tick w).calls
        then (
          some (record { buffer = []; capacity = capacity; count = 0; record_size = record_size }),
          tick (tick w),
        )
        else (none, tick (tick w)))
    else (none, tick w)

unfoldable pub is_full : Option TraceBuffer → Bool
is_full none = false
is_full (some buf) = leb buf.capacity buf.count

unfoldable pub is_empty : Option TraceBuffer → Bool
is_empty none = true
is_empty (some buf) = buf.count == 0

unfoldable pub count : Option TraceBuffer → ℕ
count none = 0
count (some buf) = buf.count

-- `memcpy` of the record behind the `count` records of the buffer.
unfoldable pub append : TraceBuffer → List ℕ → TraceBuffer × Bool
unfolding is_full
append buf bytes = if is_full (some buf) then (buf, false) else (
  record buf {
    buffer = take (buf.count * buf.record_size) buf.buffer ++ take buf.record_size bytes;
    count = buf.count + 1;
  },
  true,
)

-- `fwrite` of bytes: how many were written, and the file with them.
unfoldable pub fwrite : List ℕ → ℕ → File → World → File × ℕ × World
fwrite bytes size file w =
    let written = w.fwrite w.calls size in
    (record file { bytes = file.bytes ++ take written bytes }, written, tick w)

-- The number that comes out is that of the records written, 0 on error.
unfoldable pub flush : TraceBuffer → File → World → TraceBuffer × File × ℕ × World
unfolding fwrite
flush buf file w =
    let size = buf.count * buf.record_size in
    let (file', written, w') = fwrite (take size buf.buffer) size file w in
    if buf.count == 0
    then (buf, file, 0, w)
    else if written == size
    then (record buf { count = 0 }, file', written / buf.record_size, w')
    else (buf, file', 0, w')

unfoldable pub clear : Option TraceBuffer → Option TraceBuffer
clear none = none
clear (some buf) = some (record buf { count = 0 })
