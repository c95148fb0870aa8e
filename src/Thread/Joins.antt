-- ===== src/Thread/Joins.antt =====
-- src/thread/thread.c: `gth_thread_join` on every branch, its wait included.
use mathlib.Core.Option.{some-injective}
use gthreads.Base.{
  ℕ, ◌≡◌, ◌≢◌, refl, sym, ap, ◌∙◌, subst, true, false, Option, none, some, ◌==◌, get_or, not,
  get_or-set_self, get_or-set_ne, if-cases, Option-cases, inl, inr, ◌⊎◌, arith,
}
use gthreads.State.{
  Status, ok, einval, estate, enotfound, ebusy, RuntimeState, Flow, returned, lost,
}
use gthreads.Runtime.{zero_thread, thread_at, is_empty, is_terminal, find_thread}
use gthreads.Runtime.Find.{find_thread-some}
use gthreads.Scheduler.{run_until}
use gthreads.Scheduler.Until.{Stuck, RanUntil, run_until-RanUntil}
use gthreads.Thread.{join_in, join_release, thread_join}
use gthreads.Thread.Account.{release_slot, leave_state}
use gthreads.Thread.Join.{release_slot-fields}

-- The end of a join that has found the thread in the state `s`: its value, and an empty slot.
pub record Released (tid : ℕ) (s s' : RuntimeState) (out : Option ℕ) : Type 0 where
  pub slot : ℕ
  pub found : find_thread s tid ≡ some slot
  pub value : out ≡ some (thread_at s slot).retval
  pub emptied : is_empty (thread_at s' slot).state ≡ true
  pub others : (j : ℕ) → slot ≢ j → thread_at s' j ≡ thread_at s j
  pub current : s'.current_tid ≡ s.current_tid

-- The loop of `gth_scheduler_run_until`, as a join calls it.
abbrev Wait : Type 0
Wait = RuntimeState → RuntimeState × Flow

-- A join that succeeds. The thread is found as `target`. If it had ended, it is released from the
-- state of the call, and else from the state `final` in which `wait`, the call of
-- `gth_scheduler_run_until`, has succeeded.
pub record Succeeded (tid : ℕ) (wait : Wait) (s s' : RuntimeState) (out : Option ℕ) : Type 0 where
  pub final : RuntimeState
  pub released : Released tid final s' out
  pub target : ℕ
  pub known : find_thread s tid ≡ some target
  pub over : is_terminal (thread_at final target).state ≡ true
  pub at_once : is_terminal (thread_at s target).state ≡ true → final ≡ s
  pub waited : is_terminal (thread_at s target).state ≡ false → wait s ≡ (final, returned ok)
  pub restored : s'.current_tid ≡ s.current_tid

-- Why a join of another thread fails behind the wait: with what the wait gives, or because the
-- thread is not found any more.
abbrev pub Cause : ℕ → RuntimeState × Flow → RuntimeState → Flow → Type 0
Cause tid waited s' flow =
    ((waited ≡ (s', flow)) × (flow ≢ returned ok))
    ⊎ ((waited ≡ (s', returned ok)) × (find_thread s' tid ≡ none) × (flow ≡ returned enotfound))

pub record Failed (tid : ℕ) (wait : Wait) (s s' : RuntimeState) (flow : Flow) (out : Option ℕ)
    : Type 0 where
  pub empty_handed : out ≡ none
  pub restored : flow ≢ lost → s'.current_tid ≡ s.current_tid
  pub live :
      (target : ℕ)
      → s.initialized ≡ true
      → tid ≢ 0
      → tid ≢ s.current_tid
      → find_thread s tid ≡ some target
      → (is_terminal (thread_at s target).state ≡ false) × Cause tid (wait s) s' flow
  pub stuck : flow ≡ returned ebusy → Stuck s'

pub JoinOutcome : ℕ → Wait → RuntimeState → RuntimeState × Flow × Option ℕ → Type 0
JoinOutcome tid wait s (s', returned ok, out) = Succeeded tid wait s s' out
JoinOutcome tid wait s (s', flow, out) = Failed tid wait s s' flow out

current-release_slot :
    (s : RuntimeState) (slot : ℕ) → (release_slot slot s).current_tid ≡ s.current_tid
unfolding release_slot leave_state
current-release_slot s slot = ground arith

release_slot-Released :
    (s : RuntimeState) (tid slot : ℕ)
    → find_thread s tid ≡ some slot
    → Released tid s (release_slot slot s) (some (thread_at s slot).retval)
release_slot-Released s tid slot e =
    let f = find_thread-some s tid slot e in
    let r = release_slot-fields s slot in
    record {
      slot = slot;
      found = e;
      value = refl;
      emptied =
          ap (λ ts. is_empty (get_or ts slot zero_thread).state) r.0
          ∙ ap (λ t. is_empty t.state)
              (get_or-set_self s.threads slot zero_thread zero_thread f.inside);
      others = λ j ne.
          ap (λ ts. get_or ts j zero_thread) r.0
          ∙ get_or-set_ne s.threads slot j zero_thread zero_thread ne;
      current = current-release_slot s slot;
    }

Failed-JoinOutcome :
    (wait : Wait) (s t : RuntimeState) (tid : ℕ) (flow : Flow)
    → flow ≢ returned ok
    → Failed tid wait s t flow none
    → JoinOutcome tid wait s (t, flow, none)
unfolding JoinOutcome
Failed-JoinOutcome wait s t tid (returned ok) ne f = absurd (ne refl)
Failed-JoinOutcome wait s t tid (returned _) ne f = f
Failed-JoinOutcome wait s t tid _ ne f = f

refused-JoinOutcome :
    (wait : Wait) (s : RuntimeState) (tid : ℕ) (status : Status)
    → returned status ≢ returned ok
    → returned status ≢ returned ebusy
    → ((target : ℕ)
        → s.initialized ≡ true
        → tid ≢ 0
        → tid ≢ s.current_tid
        → find_thread s tid ≢ some target)
    → JoinOutcome tid wait s (s, returned status, none)
refused-JoinOutcome wait s tid status failed free unknown =
    Failed-JoinOutcome wait s s tid (returned status) failed (record {
      empty_handed = refl;
      restored = λ came. refl;
      live = λ target on thread other e. absurd (unknown target on thread other e);
      stuck = λ e. absurd (free e);
    })

-- What a live target is to a failed join of it.
still_live :
    (wait : Wait) (s t : RuntimeState) (tid target : ℕ) (flow : Flow)
    → find_thread s tid ≡ some target
    → is_terminal (thread_at s target).state ≡ false
    → Cause tid (wait s) t flow
    → (x : ℕ) → find_thread s tid ≡ some x
    → (is_terminal (thread_at s x).state ≡ false) × Cause tid (wait s) t flow
still_live wait s t tid target flow e busy c x f = (
  subst (λ y. is_terminal (thread_at s y).state ≡ false) (some-injective target x (sym e ∙ f)) busy,
  c,
)

-- The release at the end of the wait.
released-JoinOutcome :
    (wait : Wait) (s t : RuntimeState) (tid target : ℕ) (o : Option ℕ)
    → find_thread t tid ≡ o
    → find_thread s tid ≡ some target
    → is_terminal (thread_at s target).state ≡ false
    → wait s ≡ (t, returned ok)
    → RanUntil tid s (t, returned ok)
    → JoinOutcome tid wait s (join_release o t)
unfolding join_release JoinOutcome
released-JoinOutcome wait s t tid target none q e busy w r = record {
  empty_handed = refl;
  restored = λ came. r.restored (λ z. cc z);
  live = λ x on thread other f.
      still_live wait s t tid target (returned enotfound) e busy (inr (w, q, refl)) x f;
  stuck = λ z. cc z;
}
released-JoinOutcome wait s t tid target (some slot) q e busy w r = record {
  final = t;
  released = release_slot-Released t tid slot q;
  target = target;
  known = e;
  over = r.ended refl target e;
  at_once = λ z. let q = sym z ∙ busy in cc;
  waited = λ z. w;
  restored = current-release_slot t slot ∙ r.restored (λ z. cc z);
}

waited-Failed :
    (wait : Wait) (s t : RuntimeState) (tid target : ℕ) (flow : Flow)
    → find_thread s tid ≡ some target
    → is_terminal (thread_at s target).state ≡ false
    → wait s ≡ (t, flow)
    → flow ≢ returned ok
    → RanUntil tid s (t, flow)
    → Failed tid wait s t flow none
waited-Failed wait s t tid target flow e busy w bad r = record {
  empty_handed = refl;
  restored = r.restored;
  live = λ x on thread other f. still_live wait s t tid target flow e busy (inl (w, bad)) x f;
  stuck = r.stuck;
}

-- The end of the wait.
waited-JoinOutcome :
    (wait : Wait) (s t : RuntimeState) (tid target : ℕ) (flow : Flow)
    → find_thread s tid ≡ some target
    → is_terminal (thread_at s target).state ≡ false
    → wait s ≡ (t, flow)
    → RanUntil tid s (t, flow)
    → JoinOutcome tid wait s (elim flow [
      | returned status ↦ elim status [
        | ok ↦ join_release (find_thread t tid) t
        | failed ↦ (t, returned failed, none)
      ]
      | other ↦ (t, other, none)
    ])
unfolding JoinOutcome
waited-JoinOutcome wait s t tid target (returned ok) e busy w r =
    released-JoinOutcome wait s t tid target (find_thread t tid) refl e busy w r
waited-JoinOutcome wait s t tid target (returned _) e busy w r =
    waited-Failed wait s t tid target _ e busy w (λ z. cc z) r
waited-JoinOutcome wait s t tid target _ e busy w r =
    waited-Failed wait s t tid target _ e busy w (λ z. cc z) r

found-JoinOutcome :
    (others : ℕ → RuntimeState → Option RuntimeState) (fuel tid target : ℕ) (s : RuntimeState)
    → find_thread s tid ≡ some target
    → JoinOutcome tid (run_until others fuel tid) s (join_in others fuel tid (some target) s)
unfolding join_in join_release JoinOutcome
found-JoinOutcome others fuel tid target s e =
    let r = run_until others fuel tid s in
    if-cases (JoinOutcome tid (run_until others fuel tid) s)
      (is_terminal (thread_at s target).state)
      (λ over. record {
        final = s;
        released = release_slot-Released s tid target e;
        target = target;
        known = e;
        over = over;
        at_once = λ z. refl;
        waited = λ z. let q = sym over ∙ z in cc;
        restored = current-release_slot s target;
      })
      (λ busy.
        waited-JoinOutcome (run_until others fuel tid) s r.0 tid target r.1 e busy refl
          (run_until-RanUntil others fuel tid s))

-- A join with any arguments and any answer of the other threads. If it succeeds, the thread existed.
-- If it had ended, the join frees its slot in the state of the call; else `gth_scheduler_run_until`
-- has succeeded for it, its record there has ended, and the join frees the slot under its identifier
-- in the state that this call has left. The value handed out is that of the freed record, and no other slot changes. If the
-- join does not succeed, no value is handed out, and when it was of another thread that is known, this thread had not ended, and
-- the status is that of the failed wait, or ENOTFOUND when the thread is not found behind it; EBUSY
-- means that the scheduler has found no thread to run. If control comes back to the caller, it is
-- the current thread again.
pub thread_join_lem :
    (others : ℕ → RuntimeState → Option RuntimeState) (fuel tid : ℕ) (s : RuntimeState)
    → JoinOutcome tid (run_until others fuel tid) s (thread_join others fuel tid s)
unfolding thread_join join_in
thread_join_lem others fuel tid s =
    let wait = run_until others fuel tid in
    let P = JoinOutcome tid wait s in
    if-cases P (not s.initialized)
      (λ off.
        refused-JoinOutcome wait s tid estate (λ z. cc z) (λ z. cc z)
          (λ x on thread other e. ground (arith, off, on)))
      (λ on.
        if-cases P (tid == 0)
          (λ zero.
            refused-JoinOutcome wait s tid einval (λ z. cc z) (λ z. cc z)
              (λ x on thread other e. ground (arith, zero, thread)))
          (λ thread.
            if-cases P (tid == s.current_tid)
              (λ same.
                refused-JoinOutcome wait s tid estate (λ z. cc z) (λ z. cc z)
                  (λ x on thread other e. ground (arith, same, other)))
              (λ other. elim (Option-cases (find_thread s tid)) [
                | inl e ↦ rw e (
                    refused-JoinOutcome wait s tid enotfound (λ z. cc z) (λ z. cc z)
                      (λ x on thread other f. cc (sym e ∙ f)))
                | inr (target, e) ↦ rw e (found-JoinOutcome others fuel tid target s e)
              ])))
