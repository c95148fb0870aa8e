-- ===== src/Replay/Events.antt =====
-- src/trace/replay.c: loading and validating a trace, and the cursor over its events.
use gthreads.Base.{
  ℕ, zero, suc, ◌+◌, ◌-◌, ◌*◌, ◌/◌, List, [], ◌∷◌, Bool, true, false, not, ◌&&◌, Option, none, some,
  ◌==◌, ltb, leb, if◌then◌else◌, length, take, drop,
}
use gthreads.State.{
  Status, ok, einval, enomem, estate, enotfound, TraceRecord, ReplayState, World, RuntimeState,
  Mode,
}
use gthreads.Trace.Format.{
  Header, decode, decode_header, validate_record, header_size, record_size, trace_magic,
  trace_version,
}
use gthreads.Trace.Buffer.{tick}

abbrev pub max_file_size : ℕ
max_file_size = 268435456

abbrev pub same_path : List ℕ → List ℕ → Bool
same_path [] [] = true
same_path (a ∷ as') (b ∷ bs) = (a == b) && same_path as' bs
same_path _ _ = false

-- The contents of a file, or nothing: what `fopen` finds under a path.
unfoldable pub lookup_file : List ℕ → List (List ℕ × List ℕ) → Option (List ℕ)
lookup_file path [] = none
lookup_file path ((p, bytes) ∷ files) =
    if same_path p path then some bytes else lookup_file path files

unfoldable pub validate_header : Header → Bool
validate_header h = (h.magic == trace_magic) && (h.version == trace_version)

-- `gth_replay_read_file` on the contents of the file. `ftell` says whether `fseek` and `ftell` succeed
-- on a file that has been opened, and `fread` whether all of it is read. A file that cannot be opened,
-- measured, held or read, or is too small or too large, gives nothing.
unfoldable pub read_bytes : Option (List ℕ) → World → Option (List ℕ) × World
read_bytes none w = (none, tick w)
read_bytes (some bytes) w =
    let opened = tick w in
    let held = tick opened in
    if not (w.fopen w.calls && w.ftell w.calls)
    then (none, opened)
    else if ltb (length bytes) header_size
    then (none, opened)
    else if ltb max_file_size (length bytes)
    then (none, opened)
    else if not (w.malloc opened.calls)
    then (none, held)
    else if w.fread held.calls
    then (some bytes, tick held)
    else (none, tick held)

unfoldable pub read_file : List ℕ → World → Option (List ℕ) × World
unfolding lookup_file read_bytes
read_file path w = read_bytes (lookup_file path w.disk) w

-- The bytes of record `i` of a loaded trace.
abbrev pub record_bytes : List ℕ → ℕ → List ℕ
record_bytes bytes i = take record_size (drop (header_size + i * record_size) bytes)

-- The loop of `gth_replay_count_records`: whether the `n` records from `i` on are valid.
unfoldable pub records_valid : List ℕ → ℕ → ℕ → Bool
unfolding validate_record decode
records_valid bytes i zero = true
records_valid bytes i (suc n) =
    let rest = records_valid bytes (i + 1) n in
    if validate_record (decode (record_bytes bytes i)) then rest else false

unfoldable pub count_records : List ℕ → ℕ
unfolding validate_header decode_header records_valid
count_records bytes =
    let record_count = (length bytes - header_size) / record_size in
    if ltb (length bytes) header_size
    then 0
    else if validate_header (decode_header bytes)
    then (if records_valid bytes 0 record_count then record_count else 0)
    else 0

-- The part of `gth_replay_init` behind the file that has been read.
unfoldable pub init_loaded : Option (List ℕ) → RuntimeState → RuntimeState × Status
unfolding count_records
init_loaded none s = (s, enotfound)
init_loaded (some bytes) s =
    if count_records bytes == 0
    then (s, estate)
    else if s.world.malloc s.world.calls
    then (
      record s {
        replay = some (record {
          events = bytes;
          event_count = count_records bytes;
          current_idx = 0;
          diverged = false;
          last_timestamp = 0;
        });
        world = tick s.world;
      },
      ok,
    )
    else (record s { world = tick s.world }, enomem)

unfoldable pub init_replay : Option ReplayState → List ℕ → RuntimeState → RuntimeState × Status
unfolding read_file init_loaded
init_replay (some r) path s = (s, estate)
init_replay none path s =
    let (bytes, w) = read_file path s.world in init_loaded bytes (record s { world = w })

-- `gth_replay_init`.
unfoldable pub replay_init : Option (List ℕ) → RuntimeState → RuntimeState × Status
unfolding init_replay
replay_init none s = if s.initialized then (s, einval) else (s, estate)
replay_init (some []) s = if s.initialized then (s, einval) else (s, estate)
replay_init (some (c ∷ path)) s =
    if s.initialized then init_replay s.replay (c ∷ path) s else (s, estate)

-- `gth_replay_cleanup`.
unfoldable pub replay_cleanup : RuntimeState → RuntimeState
replay_cleanup s = record s { replay = none }

-- `gth_replay_from` of src/trace/trace.c.
unfoldable pub replay_from : Option (List ℕ) → RuntimeState → RuntimeState × Status
unfolding replay_init
replay_from path s =
    let (s', status) = replay_init path s in
    elim status [
      | ok ↦ (record s' { mode = Mode.replaying; trace_enabled = false }, ok)
      | failed ↦ (s', failed)
    ]

-- `gth_replay_peek_event`: the record at the cursor, if the trace has not ended.
unfoldable pub peek_event : ReplayState → Option TraceRecord
unfolding decode
peek_event r =
    if leb r.event_count r.current_idx
    then none
    else some (decode (record_bytes r.events r.current_idx))

-- `gth_replay_next_event`: the record at the cursor, consumed.
unfoldable pub next_event : ReplayState → ReplayState × Option TraceRecord
unfolding decode
next_event r =
    let rec = decode (record_bytes r.events r.current_idx) in
    if leb r.event_count r.current_idx
    then (r, none)
    else (record r { last_timestamp = rec.timestamp; current_idx = r.current_idx + 1 }, some rec)

-- `gth_replay_mark_diverged`.
unfoldable pub mark_diverged : ReplayState → ReplayState
mark_diverged r = record r { diverged = true }

unfoldable pub validate_at : ReplayState → Option TraceRecord → ℕ → ℕ → ReplayState × Bool
unfolding next_event mark_diverged
validate_at r none expected_type tid = (mark_diverged r, false)
validate_at r (some rec) expected_type tid =
    if (rec.type == expected_type) && (rec.tid == tid)
    then ((next_event r).0, true)
    else (mark_diverged r, false)

-- `gth_replay_validate_event`; without a replay every event matches.
unfoldable pub validate_event : Option ReplayState → ℕ → ℕ → Option ReplayState × Bool
unfolding validate_at peek_event
validate_event none expected_type tid = (none, true)
validate_event (some r) expected_type tid =
    let (r', b) = validate_at r (peek_event r) expected_type tid in (some r', b)
