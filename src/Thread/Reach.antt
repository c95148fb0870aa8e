-- ===== src/Thread/Reach.antt =====
-- src/thread/thread.c, src/sched/scheduler.c: the invariant holds in every state that calls of the
-- threads and switches of the scheduler can reach.

use mathlib.Core.Option.{some-injective}
use gthreads.Base.{
  ℕ, ◌+◌, ◌<◌, ◌≡◌, ◌≢◌, refl, sym, ◌∙◌, subst, true, false, arith, Bool, Option, some, none, inl,
  inr, ◌||◌, Option-cases, u64, if-cases, not, ◌==◌, get_or-set_ne,
}
use gthreads.State.{StackAllocation, Config, World, Status, ok, Thread, RuntimeState}
use gthreads.Trace.{trace_record}
use gthreads.Runtime.{
  max_threads, zero_thread, thread_at, is_empty, is_ready, is_terminal, find_thread, fresh_state,
}
use gthreads.Runtime.Find.{find_thread-some}
use gthreads.Runtime.WellFormed.{IsWellFormed, fresh_state-IsWellFormed}
use gthreads.Context.{stack_allocate, context_init_thread, trampoline_exit}
use gthreads.Scheduler.{dispatch}
use gthreads.Thread.{yield_in, block_in, unblock_slot, thread_cancel}
use gthreads.Thread.Create.{thread_create, create_in, create_on, new_thread}
use gthreads.Thread.Lifecycle.{CreateOutcome, thread_create_lem}
use gthreads.Runtime.{no_ctx, alloc_thread_slot}
use gthreads.Runtime.Find.{alloc_thread_slot-some}
use gthreads.Thread.Account.{release_slot}
use gthreads.Thread.Cancel.{thread_cancel_lem}
use gthreads.Thread.Counted.{IsActive}
use gthreads.Thread.Live.{
  IsLive, Current-kept, back, dispatch-IsLive, yield_in-IsLive, block_in-IsLive,
}
use gthreads.Thread.Keeps.{trampoline_exit-IsLive, unblock_slot-IsLive}
use gthreads.Thread.Released.{release_slot-IsLive, thread_cancel-current, cancel-IsLive}

-- What a creation leaves alone: the current identifier, and every record in use.
record Kept (s s' : RuntimeState) : Type 0 where
  current : s'.current_tid ≡ s.current_tid
  others : (j : ℕ) → is_empty (thread_at s j).state ≡ false → thread_at s' j ≡ thread_at s j

apart_free :
    (s : RuntimeState) (slot j : ℕ)
    → is_empty (thread_at s slot).state ≡ true
    → is_empty (thread_at s j).state ≡ false
    → slot ≢ j
apart_free s slot j free used e =
    let p = subst (λ x. is_empty (thread_at s x).state ≡ true) e free in cc

create_on-Kept :
    (slot : ℕ) (t : Thread) (stack : StackAllocation) (status : Status) (s : RuntimeState)
    → is_empty (thread_at s slot).state ≡ true
    → Kept s (create_on slot t stack status s).0
unfolding create_on trace_record
create_on-Kept slot t stack ok s free = record {
  current = refl;
  others = λ j used.
      get_or-set_ne s.threads slot j
        (record t { ctx = (context_init_thread no_ctx stack slot s.world).0; stack = stack })
        zero_thread (apart_free s slot j free used);
}
create_on-Kept slot t stack _ s free = record {
  current = refl;
  others = λ j used.
      get_or-set_ne s.threads slot j zero_thread zero_thread (apart_free s slot j free used);
}

thread_create-Kept :
    (s : RuntimeState) (has_out : Bool) (priority : Option ℕ) (fn arg : ℕ)
    → Kept s (thread_create has_out priority fn arg s).0
unfolding thread_create create_in
thread_create-Kept s has_out priority fn arg =
    let same : Kept s s = record { current = refl; others = λ j used. refl } in
    let P : RuntimeState × Status × Option ℕ → Type 0 = λ r. Kept s r.0 in
    if-cases P (not s.initialized) (λ off. same)
      (λ on.
        if-cases P (not has_out || (fn == 0)) (λ bad. same)
          (λ good. elim (Option-cases (alloc_thread_slot s)) [
            | inl e ↦ rw e same
            | inr (slot, e) ↦
                let (w, stack, status) = stack_allocate s.config.stack_size_bytes s.world in
                let numbered = record s { next_tid = u64 (s.next_tid + 1); world = w } in
                let k =
                  create_on-Kept slot (new_thread slot priority fn arg s) stack status numbered
                    (alloc_thread_slot-some s slot e).1 in
                rw e (record { current = k.current; others = k.others })
          ]))

Kept-IsLive : (s s' : RuntimeState) → IsLive s → IsWellFormed s' → Kept s s' → IsLive s'
Kept-IsLive s s' v w k = record {
  well_formed = w;
  current = elim v.current [
    | inl idle ↦ inl (k.current ∙ idle)
    | inr c ↦
        let f = find_thread-some s s.current_tid c.slot c.found in
        inr (Current-kept s s' v.well_formed w c k.current (k.others c.slot f.in_use))
  ];
}

create-IsLive :
    (s : RuntimeState) (fn arg : ℕ) (r : RuntimeState × Status × Option ℕ)
    → IsLive s
    → CreateOutcome s fn arg r
    → Kept s r.0
    → IsLive r.0
create-IsLive s fn arg (s', status, none) v d k = Kept-IsLive s s' v d.0 k
create-IsLive s fn arg (s', status, some tid) v d k = Kept-IsLive s s' v d.0.well_formed k

-- One call of the running thread, or one switch of the scheduler. A thread that yields, blocks or
-- ends gives control back to the scheduler's context, and only that context switches to a thread.
-- `release` is the end of a join, and `choose` what round robin records of its choice.
pub data Step : RuntimeState → RuntimeState → Type 0 where
  create :
      (s : RuntimeState) (has_out : Bool) (priority : Option ℕ) (fn arg : ℕ)
      → s.next_tid + 1 < 18446744073709551616
      → Step s (thread_create has_out priority fn arg s).0
  cancel : (s : RuntimeState) (tid : ℕ) → Step s (thread_cancel tid s).0
  unblock : (s : RuntimeState) (slot : ℕ) → Step s (unblock_slot slot s).0
  release :
      (s : RuntimeState) (tid slot : ℕ)
      → find_thread s tid ≡ some slot
      → tid ≢ s.current_tid
      → is_terminal (thread_at s slot).state ≡ true
      → Step s (release_slot slot s)
  choose : (s : RuntimeState) (slot : ℕ) → Step s (record s { last_rr_slot = slot })
  switch :
      (s : RuntimeState) (slot : ℕ)
      → s.current_tid ≡ 0
      → slot < max_threads
      → is_ready (thread_at s slot).state ≡ true
      → Step s (dispatch slot s)
  yield :
      (s : RuntimeState) (slot : ℕ)
      → find_thread s s.current_tid ≡ some slot
      → Step s (back (yield_in (some slot) s).0)
  block :
      (s : RuntimeState) (slot : ℕ)
      → find_thread s s.current_tid ≡ some slot
      → Step s (back (block_in (some slot) s).0)
  finish :
      (s : RuntimeState) (slot result : ℕ)
      → find_thread s s.current_tid ≡ some slot
      → Step s (trampoline_exit slot result s)

-- The states that a runtime gets into after `gth_runtime_init`.
pub data Reachable : RuntimeState → Type 0 where
  boot : (config : Config) (w : World) → Reachable (fresh_state config w)
  next : (s t : RuntimeState) → Reachable s → Step s t → Reachable t

-- The thread found by the current identifier is the current one.
pub current_of :
    (s : RuntimeState) (slot : ℕ)
    → IsLive s
    → find_thread s s.current_tid ≡ some slot
    → IsActive s slot
current_of s slot v e = elim v.current [
  | inl idle ↦
      let f = find_thread-some s s.current_tid slot e in
      absurd (omega (arith, f.same_tid, (v.well_formed.table.fresh slot f.inside f.in_use).0))
  | inr c ↦ subst (IsActive s) (some-injective c.slot slot (sym c.found ∙ e)) c.active
]

choose-IsLive : (s : RuntimeState) (slot : ℕ) → IsLive s → IsLive (record s { last_rr_slot = slot })
unfolding find_thread
choose-IsLive s slot v = record {
  well_formed = record {
    counted =
        let c = v.well_formed.counted in
        record { slots = c.slots; ready = c.ready; blocked = c.blocked };
    table = v.well_formed.table;
  };
  current = elim v.current [
    | inl idle ↦ inl idle
    | inr c ↦
        let found : find_thread (record s { last_rr_slot = slot }) s.current_tid ≡ some c.slot =
          c.found in
        inr (record {
          slot = c.slot;
          found = found;
          active = record { not_ready = c.active.not_ready; not_blocked = c.active.not_blocked };
        })
  ];
}

pub Step-IsLive : {s t : RuntimeState} → Step s t → IsLive s → IsLive t
Step-IsLive (create s has_out priority fn arg room) v =
    create-IsLive s fn arg (thread_create has_out priority fn arg s) v
      (thread_create_lem s has_out priority fn arg v.well_formed room)
      (thread_create-Kept s has_out priority fn arg)
Step-IsLive (cancel s tid) v =
    cancel-IsLive s tid (thread_cancel tid s) v (thread_cancel_lem s tid v.well_formed)
      (thread_cancel-current s tid)
Step-IsLive (unblock s slot) v = unblock_slot-IsLive s slot v
Step-IsLive (release s tid slot e ne ended) v = release_slot-IsLive s tid slot v e ne
Step-IsLive (choose s slot) v = choose-IsLive s slot v
Step-IsLive (switch s slot idle h r) v = dispatch-IsLive s slot v.well_formed h r
Step-IsLive (yield s slot e) v =
    yield_in-IsLive s v.well_formed
      (record { slot = slot; found = e; active = current_of s slot v e })
Step-IsLive (block s slot e) v =
    block_in-IsLive s v.well_formed
      (record { slot = slot; found = e; active = current_of s slot v e })
Step-IsLive (finish s slot result e) v =
    trampoline_exit-IsLive s result v.well_formed
      (record { slot = slot; found = e; active = current_of s slot v e })

-- In every state that calls of the threads and switches of the scheduler reach from the start, as
-- long as the identifiers do not run out, the counters are the numbers of ready and blocked threads
-- in the table, the identifiers in use are distinct, each record knows its slot, and the current
-- thread, if there is one, is in the table and neither ready nor blocked.
pub Reachable-IsLive : {s : RuntimeState} → Reachable s → IsLive s
Reachable-IsLive (boot config w) = record {
  well_formed = fresh_state-IsWellFormed config w;
  current = inl refl;
}
Reachable-IsLive (next s t r step) = Step-IsLive step (Reachable-IsLive r)
