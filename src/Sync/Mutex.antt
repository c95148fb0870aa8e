-- ===== src/Sync/Mutex.antt =====
-- src/sync/mutex.c.
pub mod Unlock
pub mod Release
pub mod Lock
pub mod Ends
pub mod Waits
use gthreads.Base.{ℕ, zero, suc, not, ◌&&◌, ◌==◌, leb, if◌then◌else◌, u8}
use gthreads.State.{Status, ok, einval, estate, ebusy, Flow, returned, out_of_fuel}
use gthreads.Trace.{trace_mutex_lock, trace_mutex_unlock, trace_mutex_wait, trace_mutex_wake}
use gthreads.Runtime.{max_threads}
use gthreads.Thread.{thread_self, current_slot_index, thread_block, unblock_slot}
use gthreads.WaitQueue.{fixed_slots, zeroed, init, is_empty, is_full, enqueue, dequeue}
use gthreads.Sync.Objects.{Sys, put_mutex, zero_mutex}

-- `gth_mutex_init`.
unfoldable pub mutex_init : ℕ → Sys → Sys × Status
unfolding init
mutex_init m s =
    if m == 0
    then (s, einval)
    else (put_mutex s m (record zero_mutex { initialized = 1; wq = init zeroed fixed_slots }), ok)

-- The mutex taken by the calling thread, at the end of `gth_mutex_lock`.
unfoldable pub acquire : ℕ → Sys → Sys × Flow
unfolding thread_self
acquire m s =
    let self = thread_self s.rt in
    let held = put_mutex s m (record (s.mutexes m) { locked = 1; owner = self }) in
    (record held { rt = trace_mutex_lock self m s.rt }, returned ok)

-- The slot appended to the mutex's queue.
unfoldable pub enqueued : ℕ → ℕ → Sys → Sys
unfolding enqueue
enqueued m slot s = put_mutex s m (record (s.mutexes m) { wq = enqueue (s.mutexes m).wq (u8 slot) })

-- What comes after a wait that has returned; a suspended one goes on later.
abbrev pub when_returned : Flow → Sys → Sys × Flow → Sys × Flow
when_returned (returned status) blocked rest = rest
when_returned other blocked rest = (blocked, other)

-- The `while` of `gth_mutex_lock`, entered when a wait has ended. Each round that goes on without
-- being suspended adds an entry to the queue, so that `capacity + 1` rounds are enough.
unfoldable pub lock_loop : ℕ → ℕ → ℕ → Sys → Sys × Flow
unfolding acquire is_full enqueued thread_block
lock_loop zero m slot s = if (s.mutexes m).locked == 0 then acquire m s else (s, out_of_fuel)
lock_loop (suc fuel) m slot s =
    let queued = enqueued m slot s in
    let (rt, flow) = thread_block queued.rt in
    let blocked = record queued { rt = rt } in
    let rest = lock_loop fuel m slot blocked in
    if (s.mutexes m).locked == 0
    then acquire m s
    else if is_full (s.mutexes m).wq
    then (s, returned ebusy)
    else when_returned flow blocked rest

-- Enough rounds for any queue.
abbrev pub lock_fuel : ℕ
lock_fuel = suc fixed_slots

-- The first wait of `gth_mutex_lock`.
unfoldable pub lock_wait : ℕ → ℕ → Sys → Sys × Flow
unfolding lock_loop enqueued thread_block thread_self
lock_wait m slot s =
    let queued = enqueued m slot s in
    let (rt, flow) = thread_block (trace_mutex_wait (thread_self s.rt) m queued.rt) in
    let blocked = record queued { rt = rt } in
    when_returned flow blocked (lock_loop lock_fuel m slot blocked)

-- `gth_mutex_lock`. A suspended call goes on with `lock_loop`, on the slot that it has read.
unfoldable pub mutex_lock : ℕ → Sys → Sys × Flow
unfolding lock_wait acquire thread_self current_slot_index is_full
mutex_lock m s =
    let impl = s.mutexes m in
    let my_slot = current_slot_index s.rt in
    if m == 0
    then (s, returned einval)
    else if impl.initialized == 0
    then (s, returned estate)
    else if impl.locked == 0
    then acquire m s
    else if impl.owner == thread_self s.rt
    then (s, returned ebusy)
    else if leb max_threads my_slot
    then (s, returned estate)
    else if is_full impl.wq
    then (s, returned ebusy)
    else lock_wait m my_slot s

-- `gth_mutex_trylock`.
unfoldable pub mutex_trylock : ℕ → Sys → Sys × Status
unfolding thread_self
mutex_trylock m s =
    let impl = s.mutexes m in
    if m == 0
    then (s, einval)
    else if impl.initialized == 0
    then (s, estate)
    else if not (impl.locked == 0)
    then (s, ebusy)
    else (put_mutex s m (record impl { locked = 1; owner = thread_self s.rt }), ok)

-- The wake-up of `gth_mutex_unlock`: the longest waiter becomes ready.
unfoldable pub wake_one : ℕ → Sys → Sys
unfolding is_empty dequeue thread_self unblock_slot
wake_one m s =
    let impl = s.mutexes m in
    let (wq, waiter_slot) = dequeue impl.wq in
    let popped = put_mutex s m (record impl { wq = wq }) in
    let woken = (unblock_slot waiter_slot (trace_mutex_wake (thread_self s.rt) m s.rt)).0 in
    if is_empty impl.wq
    then s
    else if waiter_slot == 0xFF
    then popped
    else record popped { rt = woken }

-- `gth_mutex_unlock`.
unfoldable pub mutex_unlock : ℕ → Sys → Sys × Status
unfolding wake_one thread_self
mutex_unlock m s =
    let impl = s.mutexes m in
    let free = wake_one m (put_mutex s m (record impl { locked = 0; owner = 0 })) in
    if m == 0
    then (s, einval)
    else if impl.initialized == 0
    then (s, estate)
    else if impl.locked == 0
    then (s, estate)
    else if not (impl.owner == 0) && not (impl.owner == thread_self s.rt)
    then (s, estate)
    else (record free { rt = trace_mutex_unlock (thread_self free.rt) m free.rt }, ok)

-- `gth_mutex_destroy`.
unfoldable pub mutex_destroy : ℕ → Sys → Sys × Status
unfolding is_empty
mutex_destroy m s =
    let impl = s.mutexes m in
    if m == 0
    then (s, einval)
    else if impl.initialized == 0
    then (s, estate)
    else if not (impl.locked == 0)
    then (s, ebusy)
    else if not (is_empty impl.wq)
    then (s, ebusy)
    else (put_mutex s m zero_mutex, ok)
