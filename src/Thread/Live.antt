-- ===== src/Thread/Live.antt =====
-- src/thread/thread.c, src/sched/scheduler.c: the invariant of the runtime between two calls.
use gthreads.Base.{
  ℕ, ◌<◌, ◌≡◌, refl, sym, ap, ◌∙◌, subst, true, false, arith, some, inl, inr, ◌⊎◌, get_or, set,
  get_or-set_self,
}
use mathlib.Core.Path.{subst₂}
use gthreads.State.{Thread, ThreadState, RuntimeState}
use gthreads.Trace.{trace_record}
use gthreads.Runtime.{
  max_threads, zero_thread, thread_at, is_empty, is_ready, is_blocked, find_thread,
}
use gthreads.Runtime.Count.{IsCounted}
use gthreads.Runtime.Find.{find_thread-some}
use gthreads.Runtime.Table.{IsTable, find_thread-in_use}
use gthreads.Runtime.WellFormed.{IsWellFormed, put-IsTable}
use gthreads.Context.{trampoline_exit, finish_thread}
use gthreads.Scheduler.{dispatch}
use gthreads.Thread.{yield_in, block_in}
use gthreads.Thread.Counted.{IsActive, dispatch-IsCounted, yield_in-IsCounted, block_in-IsCounted}

-- The current thread, which is neither ready nor blocked.
pub record Current (s : RuntimeState) : Type 0 where
  pub slot : ℕ
  pub found : find_thread s s.current_tid ≡ some slot
  pub active : IsActive s slot

-- The table is well formed, and either the scheduler's context runs or a thread does.
pub record IsLive (s : RuntimeState) : Type 0 where
  pub well_formed : IsWellFormed s
  pub current : (s.current_tid ≡ 0) ⊎ Current s

-- The thread in a slot in use is the current one if the current identifier is its own.
pub Current-at :
    (s : RuntimeState) (slot : ℕ)
    → IsWellFormed s
    → slot < max_threads
    → is_empty (thread_at s slot).state ≡ false
    → (thread_at s slot).tid ≡ s.current_tid
    → IsActive s slot
    → Current s
Current-at s slot v h used e a = record {
  slot = slot;
  found =
      subst (λ x. find_thread s x ≡ some slot) e
        (find_thread-in_use s slot v.table (omega (arith, v.counted.slots)) used);
  active = a;
}

-- A step that leaves the record of the current thread and its identifier alone keeps it current.
pub Current-kept :
    (s s' : RuntimeState)
    → IsWellFormed s
    → IsWellFormed s'
    → (c : Current s) → s'.current_tid ≡ s.current_tid
    → thread_at s' c.slot ≡ thread_at s c.slot
    → Current s'
Current-kept s s' v v' c e at =
    let f = find_thread-some s s.current_tid c.slot c.found in
    Current-at s' c.slot v' (omega (arith, f.inside, v.counted.slots))
      (ap (λ t. is_empty t.state) at ∙ f.in_use) (ap (λ t. t.tid) at ∙ f.same_tid ∙ sym e)
      (record {
        not_ready = ap (λ t. is_ready t.state) at ∙ c.active.not_ready;
        not_blocked = ap (λ t. is_blocked t.state) at ∙ c.active.not_blocked;
      })

-- A write to a slot in use that keeps the identifier and the slot of its record, on counters that
-- stay right.
pub put-IsWellFormed :
    (s s' : RuntimeState) (slot : ℕ) (t : Thread)
    → IsWellFormed s
    → slot < max_threads
    → is_empty (thread_at s slot).state ≡ false
    → t.tid ≡ (thread_at s slot).tid
    → t.slot_index ≡ (thread_at s slot).slot_index
    → (s'.threads ≡ set s.threads slot t) × (s'.next_tid ≡ s.next_tid)
    → IsCounted s'
    → IsWellFormed s'
put-IsWellFormed s s' slot t v h used e f w c = record {
  counted = c;
  table = subst₂ IsTable (sym w.0) (sym w.1) (put-IsTable s slot t v h used e f);
}

-- The record of a thread with another state.
abbrev pub turned : RuntimeState → ℕ → ThreadState → Thread
turned s slot x = record (thread_at s slot) { state = x }

pub dispatch-table :
    (s : RuntimeState) (slot : ℕ)
    → ((dispatch slot s).threads ≡ set s.threads slot (turned s slot ThreadState.running))
      × ((dispatch slot s).next_tid ≡ s.next_tid)
unfolding dispatch trace_record
dispatch-table s slot = ground arith

dispatch-current :
    (s : RuntimeState) (slot : ℕ) → (dispatch slot s).current_tid ≡ (thread_at s slot).tid
unfolding dispatch
dispatch-current s slot = refl

used_when_ready : (x : ThreadState) → is_ready x ≡ true → is_empty x ≡ false
used_when_ready x r = ground arith

pub used_when_blocked : (x : ThreadState) → is_blocked x ≡ true → is_empty x ≡ false
used_when_blocked x r = ground arith

pub dispatch-IsLive :
    (s : RuntimeState) (slot : ℕ)
    → IsWellFormed s
    → slot < max_threads
    → is_ready (thread_at s slot).state ≡ true
    → IsLive (dispatch slot s)
dispatch-IsLive s slot v h r =
    let w = dispatch-table s slot in
    let used = used_when_ready (thread_at s slot).state r in
    let v' =
      put-IsWellFormed s (dispatch slot s) slot (turned s slot ThreadState.running) v h used refl
        refl w (dispatch-IsCounted s slot v.counted h r) in
    let at =
      ap (λ ts. get_or ts slot zero_thread) w.0
      ∙ get_or-set_self s.threads slot (turned s slot ThreadState.running) zero_thread
          (omega (arith, v.counted.slots)) in
    record {
      well_formed = v';
      current = inr (
          Current-at (dispatch slot s) slot v' h (ap (λ t. is_empty t.state) at)
            (ap (λ t. t.tid) at ∙ sym (dispatch-current s slot))
            (record {
              not_ready = ap (λ t. is_ready t.state) at;
              not_blocked = ap (λ t. is_blocked t.state) at;
            }));
    }

-- The scheduler's context runs again, after a switch from a thread.
abbrev pub back : RuntimeState → RuntimeState
back s = record s { current_tid = 0 }

pub back-IsLive : (s : RuntimeState) → IsWellFormed s → IsLive (back s)
back-IsLive s v = record {
  well_formed = record {
    counted = record {
      slots = v.counted.slots;
      ready = v.counted.ready;
      blocked = v.counted.blocked;
    };
    table = v.table;
  };
  current = inl refl;
}

pub yield_in-table :
    (s : RuntimeState) (slot : ℕ)
    → ((yield_in (some slot) s).0.threads ≡ set s.threads slot (turned s slot ThreadState.ready))
      × ((yield_in (some slot) s).0.next_tid ≡ s.next_tid)
unfolding yield_in trace_record
yield_in-table s slot = ground arith

pub block_in-table :
    (s : RuntimeState) (slot : ℕ)
    → ((block_in (some slot) s).0.threads ≡ set s.threads slot (turned s slot ThreadState.blocked))
      × ((block_in (some slot) s).0.next_tid ≡ s.next_tid)
unfolding block_in trace_record
block_in-table s slot = ground arith

pub yield_in-IsLive :
    (s : RuntimeState)
    → IsWellFormed s
    → (c : Current s) → IsLive (back (yield_in (some c.slot) s).0)
yield_in-IsLive s v c =
    let f = find_thread-some s s.current_tid c.slot c.found in
    let h : c.slot < max_threads = omega (arith, f.inside, v.counted.slots) in
    back-IsLive (yield_in (some c.slot) s).0 (
      put-IsWellFormed s (yield_in (some c.slot) s).0 c.slot (turned s c.slot ThreadState.ready) v h
        f.in_use refl refl (yield_in-table s c.slot)
        (yield_in-IsCounted s c.slot v.counted h c.active))

pub block_in-IsLive :
    (s : RuntimeState)
    → IsWellFormed s
    → (c : Current s) → IsLive (back (block_in (some c.slot) s).0)
block_in-IsLive s v c =
    let f = find_thread-some s s.current_tid c.slot c.found in
    let h : c.slot < max_threads = omega (arith, f.inside, v.counted.slots) in
    back-IsLive (block_in (some c.slot) s).0 (
      put-IsWellFormed s (block_in (some c.slot) s).0 c.slot (turned s c.slot ThreadState.blocked) v
        h f.in_use refl refl (block_in-table s c.slot)
        (block_in-IsCounted s c.slot v.counted h c.active))

-- The end of the current thread.
pub trampoline_exit-table :
    (s : RuntimeState) (slot result : ℕ)
    → ((trampoline_exit slot result s).threads
        ≡ set s.threads slot (finish_thread (thread_at s slot) result))
      × ((trampoline_exit slot result s).next_tid ≡ s.next_tid)
      × ((trampoline_exit slot result s).runnable_threads ≡ s.runnable_threads)
      × ((trampoline_exit slot result s).blocked_threads ≡ s.blocked_threads)
      × ((trampoline_exit slot result s).current_tid ≡ 0)
unfolding trampoline_exit trace_record
trampoline_exit-table s slot result = ground arith

pub finish_thread_lem :
    (t : Thread) (result : ℕ)
    → ((finish_thread t result).tid ≡ t.tid)
      × ((finish_thread t result).slot_index ≡ t.slot_index)
      × (is_ready (finish_thread t result).state ≡ false)
      × (is_blocked (finish_thread t result).state ≡ false)
unfolding finish_thread
finish_thread_lem t result = ground arith
