-- ===== src/Replay/Skip.antt =====
-- src/trace/replay.c: the loop of `gth_replay_next_thread` over the events up to a context switch.
use gthreads.Base.{
  ℕ, zero, suc, ◌+◌, ◌<◌, ◌≤◌, ◌≡◌, ◌⊎◌, refl, sym, subst, Bool, true, false, Option, none, some,
  arith, if◌then◌else◌, ◌==◌, leb, Bool-cases, inl, inr, ℕ_discrete,
}
use gthreads.State.{TraceRecord, ReplayState}
use gthreads.Trace.Format.{EventType, event_code, decode}
use gthreads.Replay.Events.{record_bytes, peek_event, next_event}
use gthreads.Replay.Drive.{skip_to_switch, events_left}

-- The event at a place of the trace, and whether it is a context switch.
abbrev pub event_at : ReplayState → ℕ → TraceRecord
event_at r j = decode (record_bytes r.events j)

abbrev pub is_switch : TraceRecord → Bool
is_switch rec = rec.type == event_code EventType.context_switch

-- The cursor has moved to the next context switch, or to the end, over other events only.
pub record Skipped (r r' : ReplayState) : Type 0 where
  pub events : r'.events ≡ r.events
  pub length : r'.event_count ≡ r.event_count
  pub diverged : r'.diverged ≡ r.diverged
  pub low : r.current_idx ≤ r'.current_idx
  pub between : (j : ℕ) → r.current_idx ≤ j → j < r'.current_idx → is_switch (event_at r j) ≡ false
  pub stop :
      (r.event_count ≤ r'.current_idx)
      ⊎ ((r'.current_idx < r.event_count) × (is_switch (event_at r r'.current_idx) ≡ true))

pub peek_event-end :
    (r : ReplayState) → leb r.event_count r.current_idx ≡ true → peek_event r ≡ none
unfolding peek_event
peek_event-end r h = rw h

pub peek_event-some :
    (r : ReplayState)
    → leb r.event_count r.current_idx ≡ false
    → peek_event r ≡ some (event_at r r.current_idx)
unfolding peek_event
peek_event-some r h = rw h

-- The cursor behind the next event.
abbrev pub advanced : ReplayState → ReplayState
advanced r = record r {
  last_timestamp = (event_at r r.current_idx).timestamp;
  current_idx = r.current_idx + 1;
}

pub next_event-advanced :
    (r : ReplayState) → leb r.event_count r.current_idx ≡ false → (next_event r).0 ≡ advanced r
unfolding next_event
next_event-advanced r h = rw h

-- One round of the loop, by the event at the cursor.
abbrev skip_after : ℕ → ReplayState → Option TraceRecord → ReplayState
skip_after fuel r none = r
skip_after fuel r (some rec) = if is_switch rec then r else skip_to_switch fuel (next_event r).0

skip_to_switch-suc :
    (fuel : ℕ) (r : ReplayState) → skip_to_switch (suc fuel) r ≡ skip_after fuel r (peek_event r)
unfolding skip_to_switch
skip_to_switch-suc fuel r = refl

Skipped-advanced :
    (r r' : ReplayState)
    → r.current_idx < r.event_count
    → is_switch (event_at r r.current_idx) ≡ false
    → Skipped (advanced r) r'
    → Skipped r r'
Skipped-advanced r r' h other k = record {
  events = k.events;
  length = k.length;
  diverged = k.diverged;
  low = omega (arith, k.low);
  between = λ j p q. elim (ℕ_discrete r.current_idx j) [
    | yes e ↦ subst (λ x. is_switch (event_at r x) ≡ false) e other
    | no ne ↦ k.between j (omega arith) q
  ];
  stop = k.stop;
}

skip_after-Skipped :
    (fuel : ℕ) (r : ReplayState)
    → leb r.event_count r.current_idx ≡ false
    → Skipped (advanced r) (skip_to_switch fuel (advanced r))
    → Skipped r (skip_after fuel r (some (event_at r r.current_idx)))
skip_after-Skipped fuel r more later = elim (Bool-cases (is_switch (event_at r r.current_idx))) [
  | inl hit ↦ rw hit (record {
    events = refl;
    length = refl;
    diverged = refl;
    low = omega arith;
    between = λ j p q. absurd (omega arith);
    stop = inr (ground arith, hit);
  })
  | inr other ↦
      rw (other, next_event-advanced r more)
        (Skipped-advanced r (skip_to_switch fuel (advanced r)) (ground arith) other later)
]

Skipped-here : (r : ReplayState) → r.event_count ≤ r.current_idx → Skipped r r
Skipped-here r h = record {
  events = refl;
  length = refl;
  diverged = refl;
  low = omega arith;
  between = λ j p q. absurd (omega arith);
  stop = inl h;
}

pub skip_to_switch-Skipped :
    (fuel : ℕ) (r : ReplayState) → events_left r ≤ fuel → Skipped r (skip_to_switch fuel r)
unfolding skip_to_switch
skip_to_switch-Skipped zero r h = Skipped-here r (omega arith)
skip_to_switch-Skipped (suc fuel) r h =
    subst (Skipped r) (sym (skip_to_switch-suc fuel r))
      (elim (Bool-cases (leb r.event_count r.current_idx)) [
        | inl over ↦ rw (peek_event-end r over) (Skipped-here r (ground arith))
        | inr more ↦ rw (peek_event-some r more) (
            skip_after-Skipped fuel r more
              (skip_to_switch-Skipped fuel (advanced r) (ground arith)))
      ])
