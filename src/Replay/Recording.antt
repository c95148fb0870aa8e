-- ===== src/Replay/Recording.antt =====
-- src/trace/trace.c: the trace file under construction, as the list of the events recorded.
use mathlib.Core.List.{append_assoc}
use gthreads.Base.{
  ℕ, zero, suc, ◌<◌, ◌≡◌, refl, sym, ap, ◌∙◌, List, [], ◌∷◌, ◌++◌, true, arith, Option, length,
  get_or, u32,
}
use gthreads.State.{TraceRecord, TraceState, TraceBuffer, File, World, RuntimeState}
use gthreads.Trace.{payload, flush_open, trace_record}
use gthreads.Trace.Format.{EventType, event_code, encode}
use gthreads.Trace.Buffer.{tick}
use gthreads.Trace.Ticks.{flush_open-keeps, trace_record-keeps}
use gthreads.Replay.Loaded.{bytes_of, IsGood, AllGood}

-- The arguments of a call of `gth_trace_record`.
pub record Event : Type 0 where
  pub type : EventType
  pub tid : ℕ
  pub data1 : ℕ
  pub data2 : ℕ

-- A record that shows an event.
pub record Shows (r : TraceRecord) (e : Event) : Type 0 where
  pub type : r.type ≡ event_code e.type
  pub tid : r.tid ≡ u32 e.tid
  pub raw : r.raw ≡ payload e.type e.data1 e.data2

abbrev pub AllShow : List TraceRecord → List Event → Type 0
AllShow [] [] = Unit
AllShow (r ∷ rs) (e ∷ es) = Shows r e × AllShow rs es
AllShow _ _ = ⊥

pub AllShow-snoc :
    (rs : List TraceRecord) (es : List Event) (r : TraceRecord) (e : Event)
    → AllShow rs es
    → Shows r e
    → AllShow (rs ++ (r ∷ [])) (es ++ (e ∷ []))
AllShow-snoc [] [] r e h k = (k, tt)
AllShow-snoc [] (y ∷ es) r e h k = absurd h
AllShow-snoc (x ∷ rs) [] r e h k = absurd h
AllShow-snoc (x ∷ rs) (y ∷ es) r e h k = (h.0, AllShow-snoc rs es r e h.1 k)

pub length-AllShow :
    (rs : List TraceRecord) (es : List Event) → AllShow rs es → length rs ≡ length es
length-AllShow [] [] h = refl
length-AllShow [] (e ∷ es) h = absurd h
length-AllShow (r ∷ rs) [] h = absurd h
length-AllShow (r ∷ rs) (e ∷ es) h = ap suc (length-AllShow rs es h.1)

pub get_or-AllShow :
    (rs : List TraceRecord) (es : List Event) (i : ℕ) (r : TraceRecord) (e : Event)
    → AllShow rs es
    → i < length es
    → Shows (get_or rs i r) (get_or es i e)
get_or-AllShow rs [] i r e h k = absurd (omega arith)
get_or-AllShow [] (y ∷ es) i r e h k = absurd h
get_or-AllShow (x ∷ rs) (y ∷ es) zero r e h k = h.0
get_or-AllShow (x ∷ rs) (y ∷ es) (suc i) r e h k = get_or-AllShow rs es i r e h.1 (omega arith)

pub AllGood-snoc :
    (rs : List TraceRecord) (r : TraceRecord) → AllGood rs → IsGood r → AllGood (rs ++ (r ∷ []))
AllGood-snoc [] r h k = (k, tt)
AllGood-snoc (x ∷ rs) r h k = (h.0, AllGood-snoc rs r h.1 k)

pub bytes_of_snoc :
    (rs : List TraceRecord) (r : TraceRecord) → bytes_of (rs ++ (r ∷ [])) ≡ bytes_of rs ++ encode r
unfolding encode
bytes_of_snoc [] r = refl
bytes_of_snoc (x ∷ rs) r =
    ap (λ l. encode x ++ l) (bytes_of_snoc rs r)
    ∙ sym (append_assoc (encode x) (bytes_of rs) (encode r))

-- The C library gives memory, opens and measures files, and writes and reads every byte.
pub record IsWilling (w : World) : Type 0 where
  pub malloc : (n : ℕ) → w.malloc n ≡ true
  pub fopen : (n : ℕ) → w.fopen n ≡ true
  pub fwrite : (n size : ℕ) → w.fwrite n size ≡ size
  pub ftell : (n : ℕ) → w.ftell n ≡ true
  pub fread : (n : ℕ) → w.fread n ≡ true

ticked-IsWilling : (w : World) → IsWilling w → IsWilling (tick w)
ticked-IsWilling w v = record {
  malloc = v.malloc;
  fopen = v.fopen;
  fwrite = v.fwrite;
  ftell = v.ftell;
  fread = v.fread;
}

pub flush_open-IsWilling :
    (t : TraceState) (file : Option File) (buf : Option TraceBuffer) (w : World)
    → IsWilling w
    → IsWilling (flush_open t file buf w).1
flush_open-IsWilling = flush_open-keeps IsWilling ticked-IsWilling

pub trace_record-IsWilling :
    (e : Event) (s : RuntimeState)
    → IsWilling s.world
    → IsWilling (trace_record e.type e.tid e.data1 e.data2 s).world
trace_record-IsWilling e s =
    trace_record-keeps IsWilling ticked-IsWilling e.type e.tid e.data1 e.data2 s
