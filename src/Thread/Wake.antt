-- ===== src/Thread/Wake.antt =====
-- src/thread/thread.c: the table after `gth_thread_unblock_slot`, as the synchronisation calls use it.
use gthreads.Base.{ℕ, ◌<◌, ◌≡◌, true, arith, List, set, if◌then◌else◌}
use gthreads.State.{Thread, ThreadState, RuntimeState}
use gthreads.Trace.{trace_record}
use gthreads.Trace.Format.{EventType}
use gthreads.Runtime.{max_threads, thread_at, is_blocked}
use gthreads.Thread.{unblock_slot}

-- The thread in slot `x` is ready if it was blocked; no other thread changes.
abbrev pub woken : ℕ → RuntimeState → List Thread
woken x s =
    if is_blocked (thread_at s x).state
    then set s.threads x (record (thread_at s x) { state = ThreadState.ready })
    else s.threads

-- The wake-up follows the record of an event.
pub unblock_slot-woken :
    (x : ℕ) (type : EventType) (tid data1 data2 : ℕ) (s : RuntimeState)
    → s.initialized ≡ true
    → x < max_threads
    → (unblock_slot x (trace_record type tid data1 data2 s)).0.threads ≡ woken x s
unfolding unblock_slot trace_record
unblock_slot-woken x type tid data1 data2 s on inside = ground arith
