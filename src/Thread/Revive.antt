-- ===== src/Thread/Revive.antt =====
-- src/thread/thread.c: a canceled thread that yields.
use gthreads.Base.{
  Option, ℕ, ◌<◌, ◌≡◌, ◌≢◌, refl, sym, ap, ◌∙◌, true, false, arith, some, ◌==◌, get_or, set,
  get_or-set_self, length-set, length, subst,
}
use gthreads.State.{ok, ThreadState, RuntimeState, suspended}
use gthreads.Trace.{trace_record}
use gthreads.Runtime.{zero_thread, thread_at, is_empty, is_terminal, find_thread}
use gthreads.Runtime.Find.{Found, find_thread-some}
use gthreads.Runtime.Table.{find_thread-in_use}
use gthreads.Runtime.WellFormed.{IsWellFormed}
use gthreads.Thread.{cancel_in, thread_cancel, yield_in, thread_yield}
use gthreads.Thread.Cancel.{
  canceled_thread, Canceled, cancel_in-Canceled, rest-cancel_in, status-cancel_in,
  threads-cancel_in-found,
}

yield-suspends :
    (others : ℕ → RuntimeState → Option RuntimeState) (fuel : ℕ) (s : RuntimeState) (slot : ℕ)
    → s.initialized ≡ true
    → (s.current_tid == 0) ≡ false
    → find_thread s s.current_tid ≡ some slot
    → thread_yield others fuel s ≡ yield_in (some slot) s
unfolding thread_yield
yield-suspends others fuel s slot on ne e = simp (on, ne, e) refl

yield_in-ready :
    (s : RuntimeState) (slot : ℕ)
    → slot < length s.threads
    → (thread_at (yield_in (some slot) s).0 slot).state ≡ ThreadState.ready
unfolding yield_in trace_record
yield_in-ready s slot h =
    ap (λ t. t.state)
      (get_or-set_self s.threads slot (record (thread_at s slot) { state = ThreadState.ready })
        zero_thread h)

yield_in-suspended : (s : RuntimeState) (slot : ℕ) → (yield_in (some slot) s).1 ≡ suspended slot
unfolding yield_in
yield_in-suspended s slot = refl

thread_cancel_self :
    (s : RuntimeState) (slot : ℕ)
    → s.initialized ≡ true
    → (s.current_tid == 0) ≡ false
    → find_thread s s.current_tid ≡ some slot
    → thread_cancel s.current_tid s ≡ cancel_in s.current_tid (some slot) s
unfolding thread_cancel
thread_cancel_self s slot on ne e = simp (on, ne, e) refl

-- A running thread that cancels itself and then yields is not canceled: the cancellation marks its
-- record, and the yield, which reports success, puts it back among the ready threads.
pub yield-revives :
    (others : ℕ → RuntimeState → Option RuntimeState) (fuel : ℕ) (s : RuntimeState) (slot : ℕ)
    → IsWellFormed s
    → s.initialized ≡ true
    → s.current_tid ≢ 0
    → find_thread s s.current_tid ≡ some slot
    → is_terminal (thread_at s slot).state ≡ false
    → let (s', status) = thread_cancel s.current_tid s in
      (status ≡ ok)
      × ((thread_at s' slot).state ≡ ThreadState.canceled)
      × ((thread_yield others fuel s').1 ≡ suspended slot)
      × ((thread_at (thread_yield others fuel s').0 slot).state ≡ ThreadState.ready)
yield-revives others fuel s slot v on ne e alive =
    rw (thread_cancel_self s slot on (ground arith) e) (
      status-cancel_in s.current_tid slot s alive,
      ap (λ t. t.state) at,
      ap (λ x. x.1) later ∙ yield_in-suspended s' slot,
      ap (λ x. (thread_at x.0 slot).state) later ∙ yield_in-ready s' slot fits,
    )
  where
    s' : RuntimeState
    s' = (cancel_in s.current_tid (some slot) s).0

    c : Canceled s s.current_tid s'
    c = cancel_in-Canceled s s.current_tid slot v on e alive

    f : Found s.current_tid s.threads slot
    f = find_thread-some s s.current_tid slot e

    marked : s'.threads ≡ set s.threads slot (canceled_thread (thread_at s slot))
    marked = threads-cancel_in-found s s.current_tid slot v on e alive

    at : thread_at s' slot ≡ canceled_thread (thread_at s slot)
    at =
        ap (λ ts. get_or ts slot zero_thread) marked
        ∙ get_or-set_self s.threads slot (canceled_thread (thread_at s slot)) zero_thread f.inside

    fits : slot < length s'.threads
    fits = omega (
      arith,
      f.inside,
      ap length marked,
      length-set s.threads slot (canceled_thread (thread_at s slot)),
    )

    rest :
        (s'.next_tid ≡ s.next_tid)
        × (s'.initialized ≡ s.initialized)
        × (s'.current_tid ≡ s.current_tid)
    rest = rest-cancel_in s.current_tid slot s

    found : find_thread s' s'.current_tid ≡ some slot
    found =
        subst (λ x. find_thread s' x ≡ some slot) (ap (λ t. t.tid) at ∙ f.same_tid ∙ sym rest.2)
          (find_thread-in_use s' slot c.well_formed.table fits (ap (λ t. is_empty t.state) at))

    later : thread_yield others fuel s' ≡ yield_in (some slot) s'
    later = yield-suspends others fuel s' slot (rest.1 ∙ on) (ground (arith, rest.2)) found
