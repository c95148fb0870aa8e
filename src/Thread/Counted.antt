-- ===== src/Thread/Counted.antt =====
-- src/thread/thread.c, src/sched/scheduler.c: every change of a thread's state keeps the counters of
-- ready and blocked threads in step with the table.
use gthreads.Base.{ℕ, ◌+◌, ◌<◌, ◌≡◌, true, false, arith, dec_lt, some, length, set, length-set}
use gthreads.State.{Status, ok, ThreadState, Thread, StackAllocation, RuntimeState}
use gthreads.Runtime.{max_threads, zero_thread, no_ctx, thread_at, is_ready, is_blocked, is_empty}
use gthreads.Runtime.Count.{IsCounted, count, count-set, count-le-length, one_if}
use gthreads.Trace.{trace_record}
use gthreads.Scheduler.{dispatch}
use gthreads.Thread.{yield_in, block_in, unblock_slot}
use gthreads.Thread.Account.{set_thread_state, release_slot}
use gthreads.Thread.Create.{create_on}
use gthreads.Context.{context_init_thread}

-- What a write of one slot does to the two counts.
pub record Moved (s : RuntimeState) (slot : ℕ) (t : Thread) : Type 0 where
  pub slots : length (set s.threads slot t) ≡ max_threads
  pub ready :
      count is_ready (set s.threads slot t) + one_if (is_ready (thread_at s slot).state)
      ≡ s.runnable_threads + one_if (is_ready t.state)
  pub blocked :
      count is_blocked (set s.threads slot t) + one_if (is_blocked (thread_at s slot).state)
      ≡ s.blocked_threads + one_if (is_blocked t.state)
  pub few_ready : s.runnable_threads < 129
  pub few_blocked : s.blocked_threads < 129

pub put-Moved :
    (s : RuntimeState) (slot : ℕ) (t : Thread) → IsCounted s → slot < max_threads → Moved s slot t
put-Moved s slot t c h = record {
  slots = omega (arith, length-set s.threads slot t, c.slots);
  ready = omega (arith, c.ready, count-set is_ready s.threads slot t (omega (arith, c.slots)));
  blocked =
      omega (arith, c.blocked, count-set is_blocked s.threads slot t (omega (arith, c.slots)));
  few_ready = omega (arith, c.ready, c.slots, count-le-length is_ready s.threads);
  few_blocked = omega (arith, c.blocked, c.slots, count-le-length is_blocked s.threads);
}

pub dispatch-IsCounted :
    (s : RuntimeState) (slot : ℕ)
    → IsCounted s
    → slot < max_threads
    → is_ready (thread_at s slot).state ≡ true
    → IsCounted (dispatch slot s)
unfolding dispatch trace_record
dispatch-IsCounted s slot c h e =
    ground (arith, put-Moved s slot (record (thread_at s slot) { state = ThreadState.running }) c h)

-- The thread that calls is neither ready nor blocked.
pub record IsActive (s : RuntimeState) (slot : ℕ) : Type 0 where
  pub not_ready : is_ready (thread_at s slot).state ≡ false
  pub not_blocked : is_blocked (thread_at s slot).state ≡ false

pub yield_in-IsCounted :
    (s : RuntimeState) (slot : ℕ)
    → IsCounted s
    → slot < max_threads
    → IsActive s slot
    → IsCounted (yield_in (some slot) s).0
unfolding yield_in trace_record
yield_in-IsCounted s slot c h a =
    ground (arith, put-Moved s slot (record (thread_at s slot) { state = ThreadState.ready }) c h)

pub block_in-IsCounted :
    (s : RuntimeState) (slot : ℕ)
    → IsCounted s
    → slot < max_threads
    → IsActive s slot
    → IsCounted (block_in (some slot) s).0
unfolding block_in trace_record
block_in-IsCounted s slot c h a =
    ground (arith, put-Moved s slot (record (thread_at s slot) { state = ThreadState.blocked }) c h)

pub unblock_slot-IsCounted :
    (s : RuntimeState) (slot : ℕ) → IsCounted s → IsCounted (unblock_slot slot s).0
unfolding unblock_slot trace_record
unblock_slot-IsCounted s slot c = elim (dec_lt slot max_threads) [
  | yes h ↦
      ground (arith, put-Moved s slot (record (thread_at s slot) { state = ThreadState.ready }) c h)
  | no h ↦ ground arith
]

pub set_thread_state-IsCounted :
    (s : RuntimeState) (slot : ℕ) (new_state : ThreadState)
    → IsCounted s
    → slot < max_threads
    → IsCounted (set_thread_state slot new_state s)
unfolding set_thread_state trace_record
set_thread_state-IsCounted s slot x c h =
    ground (arith, put-Moved s slot (record (thread_at s slot) { state = x }) c h)

-- A released slot is empty, and its counter falls with it.
pub release_slot-IsCounted :
    (s : RuntimeState) (slot : ℕ)
    → IsCounted s
    → slot < max_threads
    → IsCounted (release_slot slot s)
unfolding release_slot
release_slot-IsCounted s slot c h = ground (arith, put-Moved s slot zero_thread c h)

pub create_on-IsCounted :
    (slot : ℕ) (t : Thread) (stack : StackAllocation) (status : Status) (s : RuntimeState)
    → IsCounted s
    → slot < max_threads
    → is_empty (thread_at s slot).state ≡ true
    → t.state ≡ ThreadState.ready
    → IsCounted (create_on slot t stack status s).0
unfolding create_on trace_record
create_on-IsCounted slot t stack ok s c h e r = ground (
  arith,
  put-Moved s slot
      (record t { ctx = (context_init_thread no_ctx stack slot s.world).0; stack = stack }) c h,
)
create_on-IsCounted slot t stack _ s c h e r = ground (arith, put-Moved s slot zero_thread c h)
