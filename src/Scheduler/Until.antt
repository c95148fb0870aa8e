-- ===== src/Scheduler/Until.antt =====
-- src/sched/scheduler.c: what `gth_scheduler_run_until` has reached when it returns.
use mathlib.Core.Option.{some-injective}
use gthreads.Base.{
  Option, ℕ, zero, suc, ◌≡◌, ◌≢◌, refl, sym, ◌∙◌, subst, true, some, none, if-cases, Option-cases,
  inl, inr, ◌&&◌, ◌==◌, ltb,
}
use gthreads.State.{ok, estate, ebusy, enotfound, RuntimeState, Flow, returned, lost}
use gthreads.Runtime.{thread_at, find_thread, is_terminal}
use gthreads.Scheduler.{run_next, until_terminal, until_found, run_until}
use gthreads.Scheduler.Next.{run_next-Restores, run_next-nothing, run_next-ne-ebusy}
use gthreads.Scheduler.Select.{nothing, pick_ready_thread_mode}

-- The last choice of a thread was NULL.
pub record Stuck (s' : RuntimeState) : Type 0 where
  pub rounds : ℕ
  pub before : RuntimeState
  pub choice : pick_ready_thread_mode rounds before ≡ (s', nothing)

-- What a return of the loop means.
pub record Reached (target : ℕ) (s : RuntimeState) (r : RuntimeState × Flow) : Type 0 where
  pub restored : r.1 ≢ lost → r.0.current_tid ≡ s.current_tid
  pub ended : r.1 ≡ returned ok → is_terminal (thread_at r.0 target).state ≡ true
  pub stuck : r.1 ≡ returned ebusy → Stuck r.0

-- One round of the loop, on the outcome of its call of `gth_scheduler_run_next`.
abbrev after_run : RuntimeState × Flow → RuntimeState × Flow → RuntimeState × Flow
after_run (s', flow) rest = elim flow [
  | returned status ↦ elim status [
    | ok ↦ rest
    | enotfound ↦ (s', returned ebusy)
    | failed ↦ (s', returned failed)
  ]
  | other ↦ (s', other)
]

after_run-Reached :
    (target : ℕ) (s s' : RuntimeState) (flow : Flow) (rest : RuntimeState × Flow)
    → (flow ≢ lost → s'.current_tid ≡ s.current_tid)
    → (flow ≡ returned enotfound → Stuck s')
    → flow ≢ returned ebusy
    → Reached target s' rest
    → Reached target s (after_run (s', flow) rest)
after_run-Reached target s s' (returned ok) rest e stuck other h = record {
  restored = λ came. h.restored came ∙ e (λ z. cc z);
  ended = h.ended;
  stuck = h.stuck;
}
after_run-Reached target s s' (returned enotfound) rest e stuck other h = record {
  restored = λ came. e (λ z. cc z);
  ended = λ q. cc;
  stuck = λ q. stuck refl;
}
after_run-Reached target s s' (returned ebusy) rest e stuck other h = absurd (other refl)
after_run-Reached target s s' (returned _) rest e stuck other h = record {
  restored = λ came. e (λ z. cc z);
  ended = λ q. cc;
  stuck = λ q. cc;
}
after_run-Reached target s s' _ rest e stuck other h = record {
  restored = e;
  ended = λ q. cc;
  stuck = λ q. cc;
}

until_terminal-Reached :
    (others : ℕ → RuntimeState → Option RuntimeState) (fuel target : ℕ) (s : RuntimeState)
    → Reached target s (until_terminal others fuel target s)
unfolding until_terminal
until_terminal-Reached others zero target s =
    if-cases (Reached target s) (is_terminal (thread_at s target).state)
      (λ done. record { restored = λ came. refl; ended = λ q. done; stuck = λ q. cc })
      (λ left. record { restored = λ came. refl; ended = λ q. cc; stuck = λ q. cc })
until_terminal-Reached others (suc fuel) target s =
    let r = run_next others fuel s in
    if-cases (Reached target s) (is_terminal (thread_at s target).state)
      (λ done. record { restored = λ came. refl; ended = λ q. done; stuck = λ q. cc })
      (λ left.
        after_run-Reached target s r.0 r.1 (until_terminal others fuel target r.0)
          (run_next-Restores others fuel s)
          (λ e. record { rounds = fuel; before = s; choice = run_next-nothing others fuel s e })
          (run_next-ne-ebusy others fuel s) (until_terminal-Reached others fuel target r.0))

-- The outcome of `gth_scheduler_run_until` for the identifier `tid`.
pub record RanUntil (tid : ℕ) (s : RuntimeState) (r : RuntimeState × Flow) : Type 0 where
  pub restored : r.1 ≢ lost → r.0.current_tid ≡ s.current_tid
  pub ended :
      r.1 ≡ returned ok
      → (target : ℕ) → find_thread s tid ≡ some target
      → is_terminal (thread_at r.0 target).state ≡ true
  pub exists : r.1 ≡ returned ok → find_thread s tid ≢ none
  pub stuck : r.1 ≡ returned ebusy → Stuck r.0

until_found-RanUntil :
    (others : ℕ → RuntimeState → Option RuntimeState) (fuel tid : ℕ) (s : RuntimeState)
    → RanUntil tid s (until_found others fuel (find_thread s tid) s)
unfolding until_found
until_found-RanUntil others fuel tid s = elim (Option-cases (find_thread s tid)) [
  | inl e ↦
      rw e (record { restored = λ came. refl; ended = λ q. cc; exists = λ q. cc; stuck = λ q. cc })
  | inr (target, e) ↦
      let h = until_terminal-Reached others fuel target s in
      subst (λ o. RanUntil tid s (until_found others fuel o s)) (sym e)
        (record {
          restored = h.restored;
          ended = λ q x f.
              subst
                (λ y.
                  is_terminal (thread_at (until_terminal others fuel target s).0 y).state ≡ true)
                (some-injective target x (sym e ∙ f)) (h.ended q);
          exists = λ q z. cc (sym e ∙ z);
          stuck = h.stuck;
        })
]

-- A `gth_scheduler_run_until`, for any answers of the other threads to its switches, among them that
-- control does not come back from one. It returns success only when the thread that it was called
-- for exists and has ended, and EBUSY only when the scheduler has found no thread to run. When it returns,
-- the context that called it is the current one again.
pub run_until-RanUntil :
    (others : ℕ → RuntimeState → Option RuntimeState) (fuel tid : ℕ) (s : RuntimeState)
    → RanUntil tid s (run_until others fuel tid s)
unfolding run_until
run_until-RanUntil others fuel tid s =
    let P = RanUntil tid s in
    let fails : P (s, returned estate) = record {
      restored = λ came. refl;
      ended = λ q. cc;
      exists = λ q. cc;
      stuck = λ q. cc;
    } in
    if-cases P s.initialized
      (λ on.
        if-cases P ((tid == s.current_tid) && (ltb 0 tid)) (λ h. fails)
          (λ h. until_found-RanUntil others fuel tid s))
      (λ off. fails)
