-- ===== src/Thread/Cancel.antt =====
-- src/thread/thread.c: `gth_thread_cancel`, and what a canceled thread does when it yields.
use mathlib.Core.Path.{subst₂}
use gthreads.Base.{
  ℕ, ◌<◌, ◌≡◌, refl, sym, ap, ◌∙◌, true, false, arith, Option, none, some, inl, inr, Bool-cases,
  ◌==◌, set, set-set, get_or-set_self, length, subst,
}
use gthreads.State.{Status, ok, estate, ThreadState, Thread, RuntimeState}
use gthreads.Trace.{trace_record}
use gthreads.Runtime.{
  max_threads, zero_thread, thread_at, is_terminal, is_ready, is_blocked, find_thread,
}
use gthreads.Runtime.Count.{count}
use gthreads.Runtime.Find.{Found, find_thread-some}
use gthreads.Runtime.Table.{IsTable}
use gthreads.Runtime.WellFormed.{IsWellFormed, put-IsTable}
use gthreads.Thread.{cancel_in, thread_cancel}
use gthreads.Thread.Counted.{put-Moved, Moved}

-- The record of a canceled thread.
abbrev pub canceled_thread : Thread → Thread
canceled_thread t = record t { state = ThreadState.canceled; retval = 0 }

threads-cancel_in :
    (tid slot : ℕ) (s : RuntimeState) (x : ThreadState)
    → (thread_at s slot).state ≡ x
    → is_terminal x ≡ false
    → s.initialized ≡ true
    → slot < max_threads
    → slot < length s.threads
    → (thread_at s slot).slot_index ≡ slot
    → (cancel_in tid (some slot) s).0.threads
      ≡ set s.threads slot (canceled_thread (thread_at s slot))
unfolding cancel_in trace_record
threads-cancel_in tid slot s ThreadState.blocked e nt on h hl at = ground (
  arith,
  get_or-set_self s.threads slot (record (thread_at s slot) { state = ThreadState.ready })
      zero_thread hl,
  get_or-set_self s.threads slot (record (thread_at s slot) { state = ThreadState.canceled })
      zero_thread hl,
  set-set s.threads slot (record (thread_at s slot) { state = ThreadState.ready })
      (record (thread_at s slot) { state = ThreadState.canceled }),
  set-set s.threads slot (record (thread_at s slot) { state = ThreadState.canceled })
      (canceled_thread (thread_at s slot)),
)
threads-cancel_in tid slot s x e nt on h hl at = ground (
  arith,
  get_or-set_self s.threads slot (record (thread_at s slot) { state = ThreadState.canceled })
      zero_thread hl,
  set-set s.threads slot (record (thread_at s slot) { state = ThreadState.canceled })
      (canceled_thread (thread_at s slot)),
)

counters-cancel_in :
    (tid slot : ℕ) (s : RuntimeState) (x : ThreadState)
    → (thread_at s slot).state ≡ x
    → is_terminal x ≡ false
    → s.initialized ≡ true
    → slot < max_threads
    → slot < length s.threads
    → (thread_at s slot).slot_index ≡ slot
    → Moved s slot (canceled_thread (thread_at s slot))
    → ((cancel_in tid (some slot) s).0.runnable_threads
        ≡ count is_ready (set s.threads slot (canceled_thread (thread_at s slot))))
      × ((cancel_in tid (some slot) s).0.blocked_threads
          ≡ count is_blocked (set s.threads slot (canceled_thread (thread_at s slot))))
unfolding cancel_in trace_record
counters-cancel_in tid slot s ThreadState.blocked e nt on h hl at m = ground (
  arith,
  get_or-set_self s.threads slot (record (thread_at s slot) { state = ThreadState.ready })
      zero_thread hl,
)
counters-cancel_in tid slot s x e nt on h hl at m = ground arith

pub rest-cancel_in :
    (tid slot : ℕ) (s : RuntimeState)
    → ((cancel_in tid (some slot) s).0.next_tid ≡ s.next_tid)
      × ((cancel_in tid (some slot) s).0.initialized ≡ s.initialized)
      × ((cancel_in tid (some slot) s).0.current_tid ≡ s.current_tid)
unfolding cancel_in trace_record
rest-cancel_in tid slot s = ground arith

pub status-cancel_in :
    (tid slot : ℕ) (s : RuntimeState)
    → is_terminal (thread_at s slot).state ≡ false
    → (cancel_in tid (some slot) s).1 ≡ ok
unfolding cancel_in
status-cancel_in tid slot s nt = ground arith

-- A cancellation: of a thread that had not ended, whose slot holds it marked as canceled with no
-- return value. Nothing else in the table changes, and the runtime stays well formed.
pub record Canceled (s : RuntimeState) (tid : ℕ) (s' : RuntimeState) : Type 0 where
  pub well_formed : IsWellFormed s'
  pub slot : ℕ
  pub found : find_thread s tid ≡ some slot
  pub alive : is_terminal (thread_at s slot).state ≡ false
  pub marked : s'.threads ≡ set s.threads slot (canceled_thread (thread_at s slot))

abbrev pub CancelOutcome : RuntimeState → ℕ → RuntimeState × Status → Type 0
CancelOutcome s tid (s', ok) = Canceled s tid s'
CancelOutcome s tid (s', failed) = s' ≡ s

pub threads-cancel_in-found :
    (s : RuntimeState) (tid slot : ℕ)
    → IsWellFormed s
    → s.initialized ≡ true
    → find_thread s tid ≡ some slot
    → is_terminal (thread_at s slot).state ≡ false
    → (cancel_in tid (some slot) s).0.threads
      ≡ set s.threads slot (canceled_thread (thread_at s slot))
threads-cancel_in-found s tid slot v on e nt =
    let f = find_thread-some s tid slot e in
    threads-cancel_in tid slot s _ refl nt on (omega (arith, f.inside, v.counted.slots)) f.inside
      (v.table.indexed slot f.inside f.in_use)

pub cancel_in-Canceled :
    (s : RuntimeState) (tid slot : ℕ)
    → IsWellFormed s
    → s.initialized ≡ true
    → find_thread s tid ≡ some slot
    → is_terminal (thread_at s slot).state ≡ false
    → Canceled s tid (cancel_in tid (some slot) s).0
cancel_in-Canceled s tid slot v on e nt = record {
  well_formed = record {
    counted = record {
      slots = ap length threads ∙ moved.slots;
      ready = counters.0 ∙ ap (count is_ready) (sym threads);
      blocked = counters.1 ∙ ap (count is_blocked) (sym threads);
    };
    table =
        subst₂ IsTable (sym threads) (sym (rest-cancel_in tid slot s).0)
          (put-IsTable s slot _ v inside f.in_use refl refl);
  };
  slot = slot;
  found = e;
  alive = nt;
  marked = threads;
}
  where
    f : Found tid s.threads slot
    f = find_thread-some s tid slot e

    inside : slot < max_threads
    inside = omega (arith, f.inside, v.counted.slots)

    at : (thread_at s slot).slot_index ≡ slot
    at = v.table.indexed slot f.inside f.in_use

    moved : Moved s slot (canceled_thread (thread_at s slot))
    moved = put-Moved s slot _ v.counted inside

    threads :
        (cancel_in tid (some slot) s).0.threads
        ≡ set s.threads slot (canceled_thread (thread_at s slot))
    threads = threads-cancel_in-found s tid slot v on e nt

    counters :
        ((cancel_in tid (some slot) s).0.runnable_threads
          ≡ count is_ready (set s.threads slot (canceled_thread (thread_at s slot))))
        × ((cancel_in tid (some slot) s).0.blocked_threads
            ≡ count is_blocked (set s.threads slot (canceled_thread (thread_at s slot))))
    counters = counters-cancel_in tid slot s _ refl nt on inside f.inside at moved

cancel_terminal :
    (s : RuntimeState) (tid slot : ℕ)
    → is_terminal (thread_at s slot).state ≡ true
    → cancel_in tid (some slot) s ≡ (s, estate)
unfolding cancel_in
cancel_terminal s tid slot h = ground arith

cancel_in-CancelOutcome :
    (s : RuntimeState) (tid : ℕ) (o : Option ℕ)
    → IsWellFormed s
    → s.initialized ≡ true
    → find_thread s tid ≡ o
    → CancelOutcome s tid (cancel_in tid o s)
unfolding cancel_in
cancel_in-CancelOutcome s tid none v on e = refl
cancel_in-CancelOutcome s tid (some slot) v on e =
    elim (Bool-cases (is_terminal (thread_at s slot).state)) [
      | inl ended ↦ subst (CancelOutcome s tid) (sym (cancel_terminal s tid slot ended)) refl
      | inr alive ↦
          subst (λ x. CancelOutcome s tid ((cancel_in tid (some slot) s).0, x))
            (sym (status-cancel_in tid slot s alive)) (cancel_in-Canceled s tid slot v on e alive)
    ]

-- `gth_thread_cancel` on a well-formed runtime, on every branch: it fails and changes nothing, or it
-- marks one thread that had not ended, found by the identifier, as canceled without a return value,
-- leaves the rest of the table alone, and the counters stay right.
pub thread_cancel_lem :
    (s : RuntimeState) (tid : ℕ) → IsWellFormed s → CancelOutcome s tid (thread_cancel tid s)
unfolding thread_cancel
thread_cancel_lem s tid v = elim (Bool-cases s.initialized) [
  | inr off ↦ simp off refl
  | inl on ↦ elim (Bool-cases (tid == 0)) [
    | inl zero_tid ↦ simp (on, zero_tid) refl
    | inr some_tid ↦
        simp (on, some_tid) (cancel_in-CancelOutcome s tid (find_thread s tid) v on refl)
  ]
]
