-- ===== src/Replay/Session.antt =====
-- src/trace/trace.c: a recording from its first call to the file that it leaves.
use mathlib.Core.List.{append_assoc, append-nil}
use gthreads.Base.{
  ℕ, ◌+◌, ◌<◌, ◌≡◌, ◌≢◌, refl, sym, ap, ap₂, ◌∙◌, subst, List, [], ◌∷◌, ◌++◌, true, arith, Option,
  some, none, take, ◌==◌, ==_iff, ◌&&◌,
}
use gthreads.State.{Mode, TraceRecord, TraceState, File, World, RuntimeState}
use gthreads.Trace.{timestamp, build_record, flush_trace, trace_record, fclose}
use gthreads.Trace.Format.{EventType, encode, encode_header, header_size}
use gthreads.Trace.Recorded.{build_record-Fits, validate_record-build_record}
use gthreads.Trace.Log.{Writing, logged, trace_record-Logged}
use gthreads.Trace.Session.{make_header, stop_open}
use gthreads.Replay.Events.{lookup_file, same_path}
use gthreads.Replay.Loaded.{bytes_of, IsGood, AllGood, file_of}
use gthreads.Replay.Ends.{started, started_file, started_buffer, flush_trace-all}
use gthreads.Replay.Recording.{
  flush_open-IsWilling, Event, Shows, AllShow, AllShow-snoc, AllGood-snoc, bytes_of_snoc, IsWilling,
  trace_record-IsWilling,
}

-- A trace is recorded under `path`, and the events so far are `es`.
pub record Recording (now : Option ℕ) (path : List ℕ) (es : List Event) (s : RuntimeState)
    : Type 0 where
  pub state : TraceState
  pub is_state : s.trace ≡ some state
  pub active : state.active ≡ true
  pub writing : Writing state
  pub records : List TraceRecord
  pub bytes : logged state writing ≡ file_of now records
  pub file_path : writing.out.path ≡ path
  pub good : AllGood records
  pub show : AllShow records es
  pub willing : IsWilling s.world
  pub mode : s.mode ≢ Mode.replaying
  pub initialized : s.initialized ≡ true
  pub idle : s.replay ≡ none

built-IsGood :
    (e : Event) (now : ℕ)
    → e.data1 < 18446744073709551616
    → now < 18446744073709551616
    → IsGood (build_record e.type e.tid e.data1 e.data2 now)
built-IsGood e now h n = record {
  fits = build_record-Fits e.type e.tid e.data1 e.data2 now h n;
  valid = validate_record-build_record e.type e.tid e.data1 e.data2 now;
}

built-Shows : (e : Event) (now : ℕ) → Shows (build_record e.type e.tid e.data1 e.data2 now) e
unfolding build_record
built-Shows e now = record { type = refl; tid = refl; raw = refl }

abbrev pub recorded : Event → RuntimeState → RuntimeState
recorded e s = trace_record e.type e.tid e.data1 e.data2 s

recorded-rest :
    (e : Event) (s : RuntimeState)
    → ((recorded e s).mode ≡ s.mode)
      × ((recorded e s).initialized ≡ s.initialized)
      × ((recorded e s).replay ≡ s.replay)
unfolding trace_record
recorded-rest e s = (refl, refl, refl)

timestamp-lt : (w : World) → (timestamp w).0 < 18446744073709551616
unfolding timestamp
timestamp-lt w = omega arith

-- One more event.
pub recorded-Recording :
    (now : Option ℕ) (path : List ℕ) (es : List Event) (e : Event) (s : RuntimeState)
    → Recording now path es s
    → e.data1 < 18446744073709551616
    → Recording now path (es ++ (e ∷ [])) (recorded e s)
recorded-Recording now path es e s v h =
    let l =
      trace_record-Logged s v.state v.writing e.type e.tid e.data1 e.data2 v.is_state v.active
        v.mode v.willing.fwrite in
    let r = build_record e.type e.tid e.data1 e.data2 (timestamp s.world).0 in
    let kept = recorded-rest e s in
    record {
      state = l.trace;
      is_state = l.is_trace;
      active = l.grown.active ∙ v.active;
      writing = l.grown.writing;
      records = v.records ++ (r ∷ []);
      bytes =
          l.grown.grown
          ∙ ap (λ x. x ++ encode r) v.bytes
          ∙ append_assoc (encode_header (make_header now)) (bytes_of v.records) (encode r)
          ∙ ap (λ x. encode_header (make_header now) ++ x) (sym (bytes_of_snoc v.records r));
      file_path = l.grown.path ∙ v.file_path;
      good =
          AllGood-snoc v.records r v.good
            (built-IsGood e (timestamp s.world).0 h (timestamp-lt s.world));
      show = AllShow-snoc v.records es r e v.show (built-Shows e (timestamp s.world).0);
      willing = trace_record-IsWilling e s v.willing;
      mode = λ q. v.mode (sym kept.0 ∙ q);
      initialized = kept.1 ∙ v.initialized;
      idle = kept.2 ∙ v.idle;
    }

abbrev pub start_event : Event
start_event = record { type = EventType.runtime_init; tid = 0; data1 = 0; data2 = 0 }

abbrev pub stop_event : Event
stop_event = record { type = EventType.runtime_shutdown; tid = 0; data1 = 0; data2 = 0 }

-- The calls of `gth_trace_record` in order.
abbrev pub record_all : List Event → RuntimeState → RuntimeState
record_all [] s = s
record_all (e ∷ es) s = record_all es (recorded e s)

-- A runtime that can start a recording.
pub record CanRecord (s : RuntimeState) : Type 0 where
  pub initialized : s.initialized ≡ true
  pub no_trace : s.trace ≡ none
  pub no_replay : s.replay ≡ none
  pub mode : s.mode ≢ Mode.replaying
  pub willing : IsWilling s.world

header_bytes :
    (h : Option ℕ)
    → take header_size (encode_header (make_header h)) ≡ encode_header (make_header h)
unfolding encode_header
header_bytes h = refl

pub started-Recording :
    (path : List ℕ) (s : RuntimeState)
    → CanRecord s
    → Recording (s.world.realtime_ns (s.world.calls + 1 + 1)) path [] (started path s)
unfolding timestamp
started-Recording path s v = record {
  state = _;
  is_state = refl;
  active = refl;
  writing = record {
    out = started_file path s.world;
    records = started_buffer;
    has_file = refl;
    has_buffer = refl;
    holds = record { size = refl; fits = omega arith; room = omega arith };
  };
  records = [];
  bytes = ap (λ l. l ++ []) (header_bytes (s.world.realtime_ns (s.world.calls + 1 + 1)));
  file_path = refl;
  good = tt;
  show = tt;
  willing = record {
    malloc = v.willing.malloc;
    fopen = v.willing.fopen;
    fwrite = v.willing.fwrite;
    ftell = v.willing.ftell;
    fread = v.willing.fread;
  };
  mode = v.mode;
  initialized = v.initialized;
  idle = v.no_replay;
}

abbrev pub AllFit : List Event → Type 0
AllFit [] = Unit
AllFit (e ∷ es) = (e.data1 < 18446744073709551616) × AllFit es

pub record_all-Recording :
    (now : Option ℕ) (path : List ℕ) (before es : List Event) (s : RuntimeState)
    → Recording now path before s
    → AllFit es
    → Recording now path (before ++ es) (record_all es s)
record_all-Recording now path before [] s v h =
    subst (λ l. Recording now path l s) (sym (append-nil before)) v
record_all-Recording now path before (e ∷ es) s v h =
    subst (λ l. Recording now path l (record_all es (recorded e s)))
      (append_assoc before (e ∷ []) es)
      (record_all-Recording now path (before ++ (e ∷ [])) es (recorded e s)
        (recorded-Recording now path before e s v h.0) h.1)

-- The runtime behind `gth_trace_stop`, with the closed file.
pub record Stopped (path bytes : List ℕ) (s : RuntimeState) : Type 0 where
  pub found : lookup_file path s.world.disk ≡ some bytes
  pub willing : IsWilling s.world
  pub initialized : s.initialized ≡ true
  pub idle : s.replay ≡ none

same_path_self : (path : List ℕ) → same_path path path ≡ true
same_path_self [] = refl
same_path_self (a ∷ path) =
    ap₂ ◌&&◌ {x = a == a} {y = true} ((==_iff a a).1 refl) (same_path_self path)

fclose-IsWilling : (file : Option File) (w : World) → IsWilling w → IsWilling (fclose file w)
unfolding fclose
fclose-IsWilling none w v = v
fclose-IsWilling (some file) w v = record {
  malloc = v.malloc;
  fopen = v.fopen;
  fwrite = v.fwrite;
  ftell = v.ftell;
  fread = v.fread;
}

pub stop_open-Stopped :
    (now : Option ℕ) (path : List ℕ) (es : List Event) (s : RuntimeState)
    → (v : Recording now path es s) → Stopped path (file_of now v.records) (stop_open s.trace s)
unfolding stop_open lookup_file flush_trace
stop_open-Stopped now path es s v = rw v.is_state (record {
  found = ap (lookup_file path) closed ∙ found_first;
  willing =
      fclose-IsWilling _ _
        (flush_open-IsWilling v.state v.state.file v.state.buffer s.world v.willing);
  initialized = v.initialized;
  idle = v.idle;
})
  where
    closed :
        (fclose (flush_trace v.state s.world).0.file (flush_trace v.state s.world).1).disk
        ≡ (path, file_of now v.records) ∷ s.world.disk
    closed =
        flush_trace-all v.state v.writing s.world v.willing.fwrite
        ∙ ap₂ (λ x y. (x, y) ∷ s.world.disk) v.file_path v.bytes

    found_first :
        lookup_file path ((path, file_of now v.records) ∷ s.world.disk)
        ≡ some (file_of now v.records)
    found_first = rw (same_path_self path) refl
