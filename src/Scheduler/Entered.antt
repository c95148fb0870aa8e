-- ===== src/Scheduler/Entered.antt =====
-- src/sched/scheduler.c: the mode after `gth_scheduler_set_mode`, and the state that it needs.
use gthreads.Base.{
  ℕ, ◌≡◌, ◌≢◌, refl, sym, ◌∙◌, subst, true, Option, some, none, if-cases, ◌==◌, if◌then◌else◌,
}
use gthreads.State.{Status, ok, estate, Mode, TraceState, FuzzState, ReplayState, RuntimeState}
use gthreads.Trace.Session.{trace_init, init_trace, trace_cleanup, cleanup_open}
use gthreads.Replay.Events.{replay_cleanup}
use gthreads.Fuzz.{fuzz_init, init_fuzz, fuzz_cleanup}
use gthreads.Scheduler.Modes.{leave_mode, enter_mode, set_mode}

-- What a change of the mode leaves of a loaded replay: the end of the replay mode frees it.
abbrev pub replay_left : Mode → Option ReplayState → Option ReplayState
replay_left Mode.replaying replay = none
replay_left _ replay = replay

-- The state that a mode works on. The replay mode takes over the replay as it is, none included.
abbrev pub HasState : Mode → Option ReplayState → RuntimeState → Type 0
HasState Mode.recording replay s = s.trace ≢ none
HasState Mode.fuzzing replay s = s.fuzz ≢ none
HasState Mode.replaying replay s = s.replay ≡ replay
HasState Mode.normal replay s = Unit

-- The mode asked for with its state, or the normal mode and an error.
pub record Entered (mode : Mode) (replay : Option ReplayState) (r : RuntimeState × Status)
    : Type 0 where
  pub taken : r.1 ≡ ok → (r.0.mode ≡ mode) × HasState mode replay r.0
  pub fallen : r.1 ≢ ok → r.0.mode ≡ Mode.normal

abbrev after_trace : RuntimeState × Status → RuntimeState × Status
after_trace (s', status) = elim status [
  | ok ↦ (s', ok)
  | estate ↦ (s', ok)
  | failed ↦ (record s' { mode = Mode.normal }, failed)
]

init_trace-Entered :
    (t : Option TraceState) (s : RuntimeState)
    → s.trace ≡ t
    → s.mode ≡ Mode.recording
    → Entered Mode.recording s.replay (after_trace (init_trace t s))
unfolding init_trace
init_trace-Entered (some t) s e m = record {
  taken = λ q. (m, λ z. cc (sym e ∙ z));
  fallen = λ q. absurd (q refl);
}
init_trace-Entered none s e m =
    if-cases (λ (r : RuntimeState × Status). Entered Mode.recording s.replay (after_trace r))
      (s.world.malloc s.world.calls)
      (λ given. record { taken = λ q. (m, λ z. cc z); fallen = λ q. absurd (q refl) })
      (λ refused. record { taken = λ q. cc q; fallen = λ q. refl })

abbrev after_fuzz : RuntimeState × Status → RuntimeState × Status
after_fuzz (s', status) = elim status [
  | ok ↦ (s', ok)
  | failed ↦ (record s' { mode = Mode.normal }, failed)
]

init_fuzz-Entered :
    (f : Option FuzzState) (seed : ℕ) (s : RuntimeState)
    → s.mode ≡ Mode.fuzzing
    → Entered Mode.fuzzing s.replay (after_fuzz (init_fuzz f seed s))
unfolding init_fuzz
init_fuzz-Entered (some f) seed s m = record { taken = λ q. cc q; fallen = λ q. refl }
init_fuzz-Entered none seed s m =
    if-cases (λ (r : RuntimeState × Status). Entered Mode.fuzzing s.replay (after_fuzz r))
      (s.world.malloc s.world.calls)
      (λ given. record { taken = λ q. (m, λ z. cc z); fallen = λ q. absurd (q refl) })
      (λ refused. record { taken = λ q. cc q; fallen = λ q. refl })

initialized-cleanup_open :
    (t : Option TraceState) (s : RuntimeState) → (cleanup_open t s).initialized ≡ s.initialized
unfolding cleanup_open
initialized-cleanup_open none s = refl
initialized-cleanup_open (some t) s = refl

replay-cleanup_open :
    (t : Option TraceState) (s : RuntimeState) → (cleanup_open t s).replay ≡ s.replay
unfolding cleanup_open
replay-cleanup_open none s = refl
replay-cleanup_open (some t) s = refl

initialized-leave_mode :
    (mode : Mode) (s : RuntimeState) → (leave_mode mode s).initialized ≡ s.initialized
unfolding leave_mode trace_cleanup replay_cleanup fuzz_cleanup
initialized-leave_mode Mode.normal s = refl
initialized-leave_mode Mode.recording s = initialized-cleanup_open s.trace s
initialized-leave_mode Mode.replaying s = refl
initialized-leave_mode Mode.fuzzing s = refl

replay-leave_mode :
    (mode : Mode) (s : RuntimeState) → (leave_mode mode s).replay ≡ replay_left mode s.replay
unfolding leave_mode trace_cleanup replay_cleanup fuzz_cleanup
replay-leave_mode Mode.normal s = refl
replay-leave_mode Mode.recording s = replay-cleanup_open s.trace s
replay-leave_mode Mode.replaying s = refl
replay-leave_mode Mode.fuzzing s = refl

enter_mode-Entered :
    (mode : Mode) (s : RuntimeState)
    → s.initialized ≡ true
    → s.mode ≡ mode
    → Entered mode s.replay (enter_mode mode s)
unfolding enter_mode trace_init fuzz_init
enter_mode-Entered Mode.normal s on m = record {
  taken = λ q. (m, tt);
  fallen = λ q. absurd (q refl);
}
enter_mode-Entered Mode.replaying s on m = record {
  taken = λ q. (m, refl);
  fallen = λ q. absurd (q refl);
}
enter_mode-Entered Mode.recording s on m =
    subst
      (λ b.
        Entered Mode.recording s.replay
          (after_trace (if b then init_trace s.trace s else (s, estate))))
      (sym on) (init_trace-Entered s.trace s refl m)
enter_mode-Entered Mode.fuzzing s on m =
    let seed = if s.config.replay_seed == 0 then 123456789 else s.config.replay_seed in
    subst
      (λ b.
        Entered Mode.fuzzing s.replay
          (after_fuzz (if b then init_fuzz s.fuzz seed s else (s, estate))))
      (sym on) (init_fuzz-Entered s.fuzz seed s m)

-- On a running runtime `gth_scheduler_set_mode` either succeeds, and the runtime is in the mode
-- asked for, with a trace for the recording mode and a generator for the fuzzing mode, or it fails
-- and the runtime is in the normal mode. The replay mode asks for no loaded replay: it works with the
-- one that is there, or with none, and the change from the replay mode to itself frees it.
pub set_mode-Entered :
    (mode : Mode) (s : RuntimeState)
    → s.initialized ≡ true
    → Entered mode (replay_left s.mode s.replay) (set_mode mode s)
unfolding set_mode
set_mode-Entered mode s on =
    let left = record (leave_mode s.mode s) { mode = mode } in
    if-cases (Entered mode (replay_left s.mode s.replay)) s.initialized
      (λ h.
        subst (λ x. Entered mode x (enter_mode mode left)) (replay-leave_mode s.mode s)
          (enter_mode-Entered mode left (initialized-leave_mode s.mode s ∙ on) refl))
      (λ off. cc (sym on ∙ off))
