-- ===== src/Scheduler/Next.antt =====
-- src/sched/scheduler.c: what a call of `gth_scheduler_run_next` keeps, and what its status means.

use gthreads.Base.{ℕ, ◌≡◌, ◌≢◌, refl, ◌∙◌, Option, some, none, if-cases}
use gthreads.State.{
  Status, ok, ebusy, enotfound, Policy, Mode, FuzzState, ReplayState, RuntimeState, Flow, returned,
  lost,
}
use gthreads.Scheduler.{dispatch, switch_back, run_picked, run_next}
use gthreads.Scheduler.Select.{
  Pick, found, nothing, spinning, pick_ready_thread_mode, pick_in_mode, pick_ready_thread, pick_by,
  pick_rr, fuzz_pick, perturbed,
}
use gthreads.Fuzz.Pick.{fuzz_pick_open}

-- The context that has called the scheduler is the current one again.
abbrev pub Restores : RuntimeState → RuntimeState → Type 0
Restores s s' = s'.current_tid ≡ s.current_tid

switch_back-Restores :
    (s away : RuntimeState) (o : Option RuntimeState)
    → (switch_back s.current_tid away o).1 ≢ lost
    → Restores s (switch_back s.current_tid away o).0
unfolding switch_back
switch_back-Restores s away none came = absurd (came refl)
switch_back-Restores s away (some back) came = refl

switch_back-ne-failed :
    (previous_tid : ℕ) (away : RuntimeState) (o : Option RuntimeState) (status : Status)
    → status ≢ ok
    → (switch_back previous_tid away o).1 ≢ returned status
unfolding switch_back
switch_back-ne-failed previous_tid away none status bad e = cc e
switch_back-ne-failed previous_tid away (some s) status bad e = bad (cc e)

run_picked-Restores :
    (others : ℕ → RuntimeState → Option RuntimeState) (s : RuntimeState) (pick : Pick)
    → (run_picked others s pick).1 ≢ lost
    → Restores s (run_picked others s pick).0
unfolding run_picked
run_picked-Restores others s nothing came = refl
run_picked-Restores others s spinning came = refl
run_picked-Restores others s (found slot) came =
    switch_back-Restores s (dispatch slot s) (others slot (dispatch slot s)) came

pick_rr-Restores : (s : RuntimeState) (o : Option ℕ) → Restores s (pick_rr s o).0
unfolding pick_rr
pick_rr-Restores s none = refl
pick_rr-Restores s (some slot) = refl

pick_by-Restores : (policy : Policy) (s : RuntimeState) → Restores s (pick_by policy s).0
unfolding pick_by
pick_by-Restores Policy.rr s = pick_rr-Restores s _
pick_by-Restores _ s = refl

fuzz_pick-Restores :
    (fuel : ℕ) (fuzz : Option FuzzState) (s : RuntimeState) (slot : Option ℕ)
    → Restores s (fuzz_pick fuel fuzz s slot).0
unfolding fuzz_pick perturbed
fuzz_pick-Restores fuel fuzz s none = refl
fuzz_pick-Restores fuel none s (some slot) = refl
fuzz_pick-Restores fuel (some f) s (some slot) = go (fuzz_pick_open fuel s.threads f slot)
  where
    go : (o : Option (FuzzState × ℕ)) → Restores s (perturbed s o).0
    go none = refl
    go (some (fuzz, x)) = refl

pick_in_mode-Restores :
    (fuel : ℕ) (mode : Mode) (r : Option ReplayState) (s : RuntimeState)
    → Restores s (pick_in_mode fuel mode r s).0
unfolding pick_in_mode pick_ready_thread
pick_in_mode-Restores fuel Mode.replaying (some r) s = refl
pick_in_mode-Restores fuel Mode.replaying none s = pick_by-Restores s.config.policy s
pick_in_mode-Restores fuel Mode.fuzzing r s =
    let (s', slot) = pick_by s.config.policy s in
    fuzz_pick-Restores fuel s'.fuzz s' slot ∙ pick_by-Restores s.config.policy s
pick_in_mode-Restores fuel _ r s = pick_by-Restores s.config.policy s

pub run_next-Restores :
    (others : ℕ → RuntimeState → Option RuntimeState) (fuel : ℕ) (s : RuntimeState)
    → (run_next others fuel s).1 ≢ lost
    → Restores s (run_next others fuel s).0
unfolding run_next pick_ready_thread_mode
run_next-Restores others fuel s =
    let r = pick_in_mode fuel s.mode s.replay s in
    if-cases (λ (x : RuntimeState × Flow). x.1 ≢ lost → Restores s x.0) s.initialized
      (λ on came.
        run_picked-Restores others r.0 r.1 came ∙ pick_in_mode-Restores fuel s.mode s.replay s)
      (λ off came. refl)

-- A call of `gth_scheduler_run_next` that finds no thread: its choice is NULL.
pub run_next-nothing :
    (others : ℕ → RuntimeState → Option RuntimeState) (fuel : ℕ) (s : RuntimeState)
    → (run_next others fuel s).1 ≡ returned enotfound
    → pick_ready_thread_mode fuel s ≡ ((run_next others fuel s).0, nothing)
unfolding run_next run_picked
run_next-nothing others fuel s =
    let r = pick_ready_thread_mode fuel s in
    if-cases (λ (x : RuntimeState × Flow). x.1 ≡ returned enotfound → r ≡ (x.0, nothing))
      s.initialized (λ on. go r.0 r.1) (λ off e. cc)
  where
    go :
        (s' : RuntimeState) (pick : Pick)
        → (run_picked others s' pick).1 ≡ returned enotfound
        → ◌≡◌ {A = RuntimeState × Pick} (s', pick) ((run_picked others s' pick).0, nothing)
    go s' nothing e = refl
    go s' spinning e = cc
    go s' (found slot) e = absurd (switch_back-ne-failed _ _ _ enotfound (λ z. cc z) e)

-- A call of `gth_scheduler_run_next` never gives EBUSY.
pub run_next-ne-ebusy :
    (others : ℕ → RuntimeState → Option RuntimeState) (fuel : ℕ) (s : RuntimeState)
    → (run_next others fuel s).1 ≢ returned ebusy
unfolding run_next run_picked
run_next-ne-ebusy others fuel s =
    let r = pick_ready_thread_mode fuel s in
    if-cases (λ (x : RuntimeState × Flow). x.1 ≢ returned ebusy) s.initialized (λ on. go r.0 r.1)
      (λ off e. cc)
  where
    go : (s' : RuntimeState) (pick : Pick) → (run_picked others s' pick).1 ≢ returned ebusy
    go s' nothing e = cc
    go s' spinning e = cc
    go s' (found slot) e = switch_back-ne-failed _ _ _ ebusy (λ z. cc z) e
