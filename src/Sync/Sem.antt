-- ===== src/Sync/Sem.antt =====
-- src/sync/sem.c.
pub mod Units
pub mod Takes
use gthreads.Base.{ℕ, ◌+◌, ◌-◌, not, ◌==◌, leb, if◌then◌else◌, u8, u64}
use gthreads.State.{Status, ok, einval, estate, ebusy, ThreadState, Flow, returned, suspended}
use gthreads.Trace.{trace_sem_wait, trace_sem_post, trace_sem_wake}
use gthreads.Runtime.{max_threads, thread_at, put_thread}
use gthreads.Thread.{thread_self, current_slot_index, unblock_slot}
use gthreads.WaitQueue.{fixed_slots, zeroed, init, is_empty, is_full, enqueue, dequeue}
use gthreads.Sync.Objects.{Sys, put_sem, zero_sem}

-- `UINT32_MAX`.
abbrev pub uint32_max : ℕ
uint32_max = 4294967295

-- `gth_sem_init`.
unfoldable pub sem_init : ℕ → ℕ → Sys → Sys × Status
unfolding init
sem_init p initial_count s = if p == 0 then (s, einval) else (
  put_sem s p (record { initialized = 1; count = initial_count; wq = init zeroed fixed_slots }),
  ok,
)

-- The wait of `gth_sem_wait` at count 0.
unfoldable pub sem_block : ℕ → ℕ → Sys → Sys
unfolding enqueue thread_self
sem_block p slot s =
    let queued = put_sem s p (record (s.sems p) { wq = enqueue (s.sems p).wq (u8 slot) }) in
    let blocked =
      record (put_thread s.rt slot (record (thread_at s.rt slot) { state = ThreadState.blocked })) {
        blocked_threads = u64 (s.rt.blocked_threads + 1);
      } in
    record queued { rt = trace_sem_wait (thread_self s.rt) p 0 blocked }

-- `gth_sem_wait`; a suspended call returns `ok` when it is resumed.
unfoldable pub sem_wait : ℕ → Sys → Sys × Flow
unfolding sem_block thread_self current_slot_index is_full
sem_wait p s =
    let impl = s.sems p in
    let my_slot = current_slot_index s.rt in
    let taken = put_sem s p (record impl { count = impl.count - 1 }) in
    if p == 0
    then (s, returned einval)
    else if impl.initialized == 0
    then (s, returned estate)
    else if not (impl.count == 0)
    then (
      record taken { rt = trace_sem_wait (thread_self s.rt) p (impl.count - 1 + 1) s.rt },
      returned ok,
    )
    else if leb max_threads my_slot
    then (s, returned estate)
    else if is_full impl.wq
    then (s, returned ebusy)
    else (sem_block p my_slot s, suspended my_slot)

-- `gth_sem_post` on a queue that is not empty: the longest waiter gets the unit.
unfoldable pub sem_hand_over : ℕ → Sys → Sys
unfolding dequeue thread_self unblock_slot
sem_hand_over p s =
    let (wq, waiter_slot) = dequeue (s.sems p).wq in
    let popped = put_sem s p (record (s.sems p) { wq = wq }) in
    let woken = (unblock_slot waiter_slot (trace_sem_wake (thread_self s.rt) p s.rt)).0 in
    if waiter_slot == 0xFF then popped else record popped { rt = woken }

abbrev pub sem_traced : ℕ → Sys → Sys
unfolding thread_self
sem_traced p s = record s { rt = trace_sem_post (thread_self s.rt) p (s.sems p).count s.rt }

-- `gth_sem_post`.
unfoldable pub sem_post : ℕ → Sys → Sys × Status
unfolding sem_hand_over sem_traced is_empty
sem_post p s =
    let impl = s.sems p in
    let raised = put_sem s p (record impl { count = impl.count + 1 }) in
    if p == 0
    then (s, einval)
    else if impl.initialized == 0
    then (s, estate)
    else if not (is_empty impl.wq)
    then (sem_traced p (sem_hand_over p s), ok)
    else if impl.count == uint32_max
    then (s, einval)
    else (sem_traced p raised, ok)

-- `gth_sem_destroy`.
unfoldable pub sem_destroy : ℕ → Sys → Sys × Status
unfolding is_empty
sem_destroy p s =
    if p == 0
    then (s, einval)
    else if (s.sems p).initialized == 0
    then (s, estate)
    else if not (is_empty (s.sems p).wq)
    then (s, ebusy)
    else (put_sem s p zero_sem, ok)
