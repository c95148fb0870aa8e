-- ===== src/Replay/Follow.antt =====
-- src/trace/replay.c: the choice of `gth_replay_next_thread` follows the recorded context switches.
use mathlib.Core.Option.{some-injective}
use gthreads.Base.{
  ℕ, ◌+◌, ◌<◌, ◌≤◌, ◌≡◌, ◌⊎◌, refl, sym, ap, ◌∙◌, subst, true, false, Option, none, some, arith,
  leb, inl, inr, u32, ◌≢◌, ◌||◌, ◌==◌, if-cases,
}
use gthreads.State.{ThreadState, TraceRecord, ReplayState, RuntimeState}
use gthreads.Runtime.{find_thread, thread_at, is_ready, is_running}
use gthreads.Runtime.Find.{find_thread-some}
use gthreads.Trace.Format.{decode}
use gthreads.Replay.Events.{record_bytes, peek_event, mark_diverged}
use gthreads.Replay.Drive.{
  runnable_slot, replay_find_thread, skip_to_switch, events_left, take_switch, next_at,
  next_thread_open, replay_next_thread,
}
use gthreads.Replay.Skip.{
  event_at, is_switch, Skipped, peek_event-end, peek_event-some, next_event-advanced,
  skip_to_switch-Skipped,
}

-- What is done at a context switch at `place`: its thread is chosen and the event consumed, or the
-- replay has diverged there.
abbrev pub Taken : ReplayState → ℕ → ReplayState → Option ℕ → Type 0
Taken r place r' none = (r'.diverged ≡ true) × (r'.current_idx ≡ place)
Taken r place r' (some slot) = (r'.diverged ≡ r.diverged) × (r'.current_idx ≡ place + 1)

-- A state in which the replay lets a thread run.
abbrev pub Runnable : ThreadState → Type 0
Runnable state = (state ≡ ThreadState.ready) ⊎ (state ≡ ThreadState.running)

-- The thread that an event names by the identifier `tid`, if it can run.
abbrev pub Names : RuntimeState → ℕ → Option ℕ → Type 0
Names s tid none =
    (slot : ℕ) → tid ≢ 0 → find_thread s tid ≡ some slot → ¬ (Runnable (thread_at s slot).state)
Names s tid (some slot) =
    (tid ≢ 0)
    × (find_thread s tid ≡ some slot)
    × ((thread_at s slot).tid ≡ tid)
    × Runnable (thread_at s slot).state

-- The choice by the next context switch of the trace, or NULL at its end.
pub record Follows (s : RuntimeState) (r r' : ReplayState) (choice : Option ℕ) : Type 0 where
  pub place : ℕ
  pub low : r.current_idx ≤ place
  pub between : (j : ℕ) → r.current_idx ≤ j → j < place → is_switch (event_at r j) ≡ false
  pub events : r'.events ≡ r.events
  pub outcome :
      ((r.event_count ≤ place) × (choice ≡ none) × (r'.diverged ≡ r.diverged))
      ⊎ ((place < r.event_count)
          × (is_switch (event_at r place) ≡ true)
          × Names s (u32 (event_at r place).raw) choice
          × Taken r place r' choice)

running_state : (x : ThreadState) → is_ready x || is_running x ≡ true → Runnable x
running_state ThreadState.ready e = inl refl
running_state ThreadState.running e = inr refl
running_state _ e = cc e

idle_state : (x : ThreadState) → is_ready x || is_running x ≡ false → ¬ (Runnable x)
idle_state ThreadState.ready e h = cc e
idle_state ThreadState.running e h = cc e
idle_state _ e (inl q) = cc q
idle_state _ e (inr q) = cc q

runnable_slot-Names :
    (s : RuntimeState) (tid : ℕ) (o : Option ℕ)
    → tid ≢ 0
    → find_thread s tid ≡ o
    → Names s tid (runnable_slot s o)
unfolding runnable_slot
runnable_slot-Names s tid none thread e = λ slot t f. cc (sym e ∙ f)
runnable_slot-Names s tid (some slot) thread e =
    let state = (thread_at s slot).state in
    if-cases (Names s tid) (is_ready state || is_running state)
      (λ h. (thread, e, (find_thread-some s tid slot e).same_tid, running_state state h))
      (λ h x t f.
        subst (λ y. ¬ (Runnable (thread_at s y).state)) (some-injective slot x (sym e ∙ f))
          (idle_state state h))

replay_find_thread-Names : (s : RuntimeState) (tid : ℕ) → Names s tid (replay_find_thread s tid)
unfolding replay_find_thread
replay_find_thread-Names s tid =
    if-cases (Names s tid) (tid == 0) (λ zero slot t f. absurd (t (ground (arith, zero))))
      (λ thread. runnable_slot-Names s tid (find_thread s tid) (ground (arith, thread)) refl)

take_switch-Taken :
    (r : ReplayState) (o : Option ℕ)
    → leb r.event_count r.current_idx ≡ false
    → ((take_switch r o).1 ≡ o)
      × ((take_switch r o).0.events ≡ r.events)
      × Taken r r.current_idx (take_switch r o).0 o
unfolding take_switch mark_diverged
take_switch-Taken r none h = (refl, refl, (refl, refl))
take_switch-Taken r (some slot) h = rw (next_event-advanced r h) (refl, refl, (refl, refl))

next_at-switch :
    (s : RuntimeState) (r : ReplayState) (rec : TraceRecord)
    → is_switch rec ≡ true
    → next_at s r (some rec) ≡ take_switch r (replay_find_thread s (u32 rec.raw))
unfolding next_at
next_at-switch s r rec h = rw h

next_at-end : (s : RuntimeState) (r : ReplayState) → next_at s r none ≡ (r, none)
unfolding next_at
next_at-end s r = refl

stopped-end :
    (s : RuntimeState) (r r' : ReplayState)
    → Skipped r r'
    → r.event_count ≤ r'.current_idx
    → Follows s r (next_at s r' (peek_event r')).0 (next_at s r' (peek_event r')).1
stopped-end s r r' k over =
    let e = ap (next_at s r') (peek_event-end r' (ground (arith, k.length))) ∙ next_at-end s r' in
    rw e (record {
      place = r'.current_idx;
      low = k.low;
      between = k.between;
      events = k.events;
      outcome = inl (over, refl, k.diverged);
    })

Taken-from :
    (r r' : ReplayState) (place : ℕ) (x : ReplayState) (o : Option ℕ)
    → r'.diverged ≡ r.diverged
    → Taken r' place x o
    → Taken r place x o
Taken-from r r' place x none e t = t
Taken-from r r' place x (some slot) e t = (t.0 ∙ e, t.1)

stopped-switch :
    (s : RuntimeState) (r r' : ReplayState)
    → Skipped r r'
    → r'.current_idx < r.event_count
    → is_switch (event_at r r'.current_idx) ≡ true
    → Follows s r (next_at s r' (peek_event r')).0 (next_at s r' (peek_event r')).1
stopped-switch s r r' k more hit =
    let room : leb r'.event_count r'.current_idx ≡ false = ground (arith, k.length) in
    let same : event_at r' r'.current_idx ≡ event_at r r'.current_idx =
      ap (λ bytes. decode (record_bytes bytes r'.current_idx)) k.events in
    let o = replay_find_thread s (u32 (event_at r r'.current_idx).raw) in
    let e : next_at s r' (peek_event r') ≡ take_switch r' o =
      ap (next_at s r') (peek_event-some r' room ∙ ap some same)
      ∙ next_at-switch s r' (event_at r r'.current_idx) hit in
    let t = take_switch-Taken r' o room in
    rw e (record {
      place = r'.current_idx;
      low = k.low;
      between = k.between;
      events = t.1 ∙ k.events;
      outcome = inr (
        more,
        hit,
        subst (Names s (u32 (event_at r r'.current_idx).raw)) (sym t.0)
            (replay_find_thread-Names s (u32 (event_at r r'.current_idx).raw)),
        subst (Taken r r'.current_idx (take_switch r' o).0) (sym t.0)
            (Taken-from r r' r'.current_idx (take_switch r' o).0 o k.diverged t.2),
      );
    })

-- `gth_replay_next_thread` skips the events up to the next context switch of the trace. At the end of
-- the trace it returns NULL. At a context switch it returns the ready or running thread that the
-- event names and consumes the event, or, if the thread it names is unknown, is neither ready nor running, or has the identifier 0, returns NULL and marks the replay as
-- diverged at this event. It changes nothing but the state of the replay.
pub replay_next_thread-Follows :
    (s : RuntimeState) (r : ReplayState)
    → let (r', choice) = next_thread_open s r in
      (replay_next_thread (some r) s ≡ (record s { replay = some r' }, choice))
      × Follows s r r' choice
unfolding replay_next_thread next_thread_open
replay_next_thread-Follows s r =
    let r' = skip_to_switch (events_left r) r in
    let k = skip_to_switch-Skipped (events_left r) r (omega arith) in
    (
      refl,
      elim k.stop [
        | inl over ↦ stopped-end s r r' k over
        | inr (more, hit) ↦ stopped-switch s r r' k more hit
      ],
    )
