-- ===== src/Sync/Cond.antt =====
-- src/sync/cond.c.
pub mod Broadcast
pub mod Undo
pub mod Signal
use gthreads.Base.{ℕ, zero, suc, ◌+◌, ◌-◌, not, ◌==◌, leb, if◌then◌else◌, u8, u32, u64}
use gthreads.State.{Status, ok, einval, estate, ebusy, ThreadState, Flow, returned, suspended}
use gthreads.Trace.{trace_cond_wait, trace_cond_signal, trace_cond_broadcast}
use gthreads.Runtime.{max_threads, thread_at, put_thread}
use gthreads.Thread.{thread_self, current_slot_index, unblock_slot}
use gthreads.WaitQueue.{fixed_slots, zeroed, init, is_empty, is_full, enqueue, dequeue, remove}
use gthreads.Sync.Objects.{Sys, put_cond, zero_cond}
use gthreads.Sync.Mutex.{mutex_unlock}

-- `gth_cond_init`.
unfoldable pub cond_init : ℕ → Sys → Sys × Status
unfolding init
cond_init c s =
    if c == 0
    then (s, einval)
    else (put_cond s c (record zero_cond { initialized = 1; wq = init zeroed fixed_slots }), ok)

-- The current thread marked blocked and put into the queue, before the mutex is released.
unfoldable pub cond_enter : ℕ → ℕ → Sys → Sys
unfolding enqueue thread_self
cond_enter c slot s =
    let current = thread_at s.rt slot in
    let queued = put_cond s c (record (s.conds c) { wq = enqueue (s.conds c).wq (u8 slot) }) in
    let blocked = record (put_thread s.rt slot (record current { state = ThreadState.blocked })) {
      blocked_threads = u64 (s.rt.blocked_threads + 1);
    } in
    record queued { rt = trace_cond_wait (thread_self s.rt) c blocked }

-- What `gth_cond_wait` undoes when the mutex cannot be released.
unfoldable pub cond_undo : ℕ → ℕ → Sys → Sys
unfolding remove
cond_undo c slot s =
    let running =
      record (put_thread s.rt slot (record (thread_at s.rt slot) { state = ThreadState.running })) {
        blocked_threads = s.rt.blocked_threads - 1;
      } in
    record (put_cond s c (record (s.conds c) { wq = (remove (s.conds c).wq (u8 slot)).0 })) {
      rt = running;
    }

unfoldable pub cond_release : ℕ → ℕ → ℕ → Sys → Sys × Flow
unfolding cond_undo mutex_unlock
cond_release c m slot s =
    let (s', status) = mutex_unlock m s in
    elim status [ ok ↦ (s', suspended slot) | failed ↦ (cond_undo c slot s', returned failed) ]

-- `gth_cond_wait`. A suspended call goes on with `mutex_lock m`, whose outcome is its own.
unfoldable pub cond_wait : ℕ → ℕ → Sys → Sys × Flow
unfolding cond_enter cond_release current_slot_index is_full
cond_wait c m s =
    let my_slot = current_slot_index s.rt in
    if c == 0
    then (s, returned einval)
    else if m == 0
    then (s, returned einval)
    else if (s.conds c).initialized == 0
    then (s, returned estate)
    else if leb max_threads my_slot
    then (s, returned estate)
    else if is_full (s.conds c).wq
    then (s, returned ebusy)
    else cond_release c m my_slot (cond_enter c my_slot s)

-- The body of `gth_cond_signal` on a queue that is not empty.
unfoldable pub signal_one : ℕ → Sys → Sys
unfolding dequeue thread_self unblock_slot
signal_one c s =
    let (wq, waiter_slot) = dequeue (s.conds c).wq in
    let popped = put_cond s c (record (s.conds c) { wq = wq }) in
    let target_tid = (thread_at s.rt waiter_slot).tid in
    let traced = trace_cond_signal (thread_self s.rt) c target_tid s.rt in
    if waiter_slot == 0xFF
    then popped
    else record popped { rt = (unblock_slot waiter_slot traced).0 }

-- `gth_cond_signal`.
unfoldable pub cond_signal : ℕ → Sys → Sys × Status
unfolding signal_one is_empty
cond_signal c s =
    if c == 0
    then (s, einval)
    else if (s.conds c).initialized == 0
    then (s, estate)
    else if is_empty (s.conds c).wq
    then (s, ok)
    else (signal_one c s, ok)

-- One round of the loop of `gth_cond_broadcast`, with the count of the threads that it has woken.
unfoldable pub broadcast_one : ℕ → Sys → ℕ → Sys × ℕ
unfolding dequeue unblock_slot
broadcast_one c s wake_count =
    let (wq, waiter_slot) = dequeue (s.conds c).wq in
    let popped = put_cond s c (record (s.conds c) { wq = wq }) in
    if waiter_slot == 0xFF
    then (popped, wake_count)
    else (record popped { rt = (unblock_slot waiter_slot s.rt).0 }, u32 (wake_count + 1))

-- The loop, with at most `fuel` rounds; each takes one entry out of the queue.
unfoldable pub broadcast_loop : ℕ → ℕ → Sys → ℕ → Sys × ℕ
unfolding broadcast_one is_empty
broadcast_loop zero c s wake_count = (s, wake_count)
broadcast_loop (suc fuel) c s wake_count =
    let (s', woken) = broadcast_one c s wake_count in
    let rest = broadcast_loop fuel c s' woken in
    if is_empty (s.conds c).wq then (s, wake_count) else rest

-- `gth_cond_broadcast`; the queue's count bounds the rounds.
unfoldable pub cond_broadcast : ℕ → Sys → Sys × Status
unfolding broadcast_loop thread_self
cond_broadcast c s =
    let (s', wake_count) = broadcast_loop (s.conds c).wq.count c s 0 in
    if c == 0
    then (s, einval)
    else if (s.conds c).initialized == 0
    then (s, estate)
    else (record s' { rt = trace_cond_broadcast (thread_self s'.rt) c wake_count s'.rt }, ok)

-- `gth_cond_destroy`.
unfoldable pub cond_destroy : ℕ → Sys → Sys × Status
unfolding is_empty
cond_destroy c s =
    if c == 0
    then (s, einval)
    else if (s.conds c).initialized == 0
    then (s, estate)
    else if not (is_empty (s.conds c).wq)
    then (s, ebusy)
    else (put_cond s c zero_cond, ok)
