-- ===== src/Sync/Mutex/Ends.antt =====
-- src/sync/mutex.c: the loop of `gth_mutex_lock` ends.
use gthreads.Base.{
  ℕ, refl, u8, ap, subst, sym, zero, suc, ◌+◌, ◌<◌, ◌≡◌, true, false, Bool, arith, ◌==◌, leb,
  if-cases,
}
use gthreads.State.{RuntimeState, Flow, returned, suspended}
use gthreads.Trace.{trace_mutex_wait}
use gthreads.Runtime.{max_threads}
use gthreads.Thread.{thread_self, thread_block, block_in, current_slot_index}
use gthreads.WaitQueue.Ring.{IsValid}
use gthreads.WaitQueue.Fifo.{enqueue-IsValid}
use gthreads.WaitQueue.{WaitQueue, enqueue, is_full}
use gthreads.Sync.Objects.{Sys, put_self}
use gthreads.Sync.Mutex.{
  when_returned, acquire, enqueued, lock_loop, lock_fuel, lock_wait, mutex_lock,
}
use gthreads.Sync.Mutex.Lock.{waiting, lock_loop-suc}

-- The calls that come to an end, by a return or a suspension.
abbrev pub ends : Flow → Bool
ends (returned status) = true
ends (suspended slot) = true
ends _ = false

abbrev Ends : Sys × Flow → Type 0
Ends r = ends r.1 ≡ true

thread_block-Ends : (s : RuntimeState) → ends (thread_block s).1 ≡ true
unfolding thread_block block_in
thread_block-Ends s = ground arith

when_returned-Ends :
    (flow : Flow) (blocked : Sys) (rest : Sys × Flow)
    → ends flow ≡ true
    → Ends rest
    → Ends (when_returned flow blocked rest)
when_returned-Ends (returned status) blocked rest h k = k
when_returned-Ends (suspended x) blocked rest h k = refl
when_returned-Ends _ blocked rest h k = cc h

count-enqueue :
    (wq : WaitQueue) (x : ℕ)
    → IsValid wq
    → wq.count < wq.capacity
    → (enqueue wq x).count ≡ wq.count + 1
unfolding enqueue
count-enqueue wq x v h = ground (arith, v.small)

capacity-enqueue : (wq : WaitQueue) (x : ℕ) → (enqueue wq x).capacity ≡ wq.capacity
unfolding enqueue
capacity-enqueue wq x = ground arith

queue-waiting :
    (m slot : ℕ) (s : Sys) (rt : RuntimeState)
    → ((record (enqueued m slot s) { rt = rt }).mutexes m).wq ≡ enqueue (s.mutexes m).wq (u8 slot)
unfolding enqueued
queue-waiting m slot s rt = ap (λ i. i.wq) (put_self s.mutexes m _)

acquire-Ends : (m : ℕ) (s : Sys) → Ends (acquire m s)
unfolding acquire
acquire-Ends m s = refl

-- What the loop needs: a place of the queue is left for each round but the last.
abbrev Fuelled : ℕ → WaitQueue → Type 0
Fuelled fuel wq = IsValid wq × (wq.capacity < fuel + wq.count)

enqueue-Fuelled :
    (fuel : ℕ) (wq : WaitQueue) (x : ℕ)
    → Fuelled (suc fuel) wq
    → is_full wq ≡ false
    → Fuelled fuel (enqueue wq x)
unfolding is_full
enqueue-Fuelled fuel wq x v room = (
  enqueue-IsValid wq x v.0,
  omega (arith, capacity-enqueue wq x, count-enqueue wq x v.0 (ground arith)),
)

-- The loop ends: each round fills one more place of the queue, and it gives up when none is left.
lock_loop-Ends :
    (fuel m slot : ℕ) (s : Sys) → Fuelled fuel (s.mutexes m).wq → Ends (lock_loop fuel m slot s)
lock_loop-Ends zero m slot s v = absurd (omega (arith, v.0.count_in))
lock_loop-Ends (suc fuel) m slot s v = subst Ends (sym (lock_loop-suc fuel m slot s)) (
    if-cases Ends ((s.mutexes m).locked == 0) (λ free. acquire-Ends m s)
      (λ held.
        if-cases Ends (is_full (s.mutexes m).wq) (λ full. refl)
          (λ room.
            when_returned-Ends _ (waiting m slot s) _ (thread_block-Ends (enqueued m slot s).rt) (
              lock_loop-Ends fuel m slot (waiting m slot s) (
                subst (Fuelled fuel) (sym (queue-waiting m slot s (waiting m slot s).rt))
                  (enqueue-Fuelled fuel (s.mutexes m).wq (u8 slot) v room))))))

lock_wait-Ends : (m slot : ℕ) (s : Sys) → IsValid (s.mutexes m).wq → Ends (lock_wait m slot s)
unfolding lock_wait
lock_wait-Ends m slot s v =
    let rt = (thread_block (trace_mutex_wait (thread_self s.rt) m s.rt)).0 in
    let blocked = record (enqueued m slot s) { rt = rt } in
    let w = enqueue-IsValid (s.mutexes m).wq (u8 slot) v in
    let fuelled : Fuelled lock_fuel (enqueue (s.mutexes m).wq (u8 slot)) =
      (w, omega (arith, w.small)) in
    when_returned-Ends (thread_block (trace_mutex_wait (thread_self s.rt) m s.rt)).1 blocked
      (lock_loop lock_fuel m slot blocked)
      (thread_block-Ends (trace_mutex_wait (thread_self s.rt) m s.rt))
      (lock_loop-Ends lock_fuel m slot blocked
        (subst (Fuelled lock_fuel) (sym (queue-waiting m slot s rt)) fuelled))

-- A call of `gth_mutex_lock` on a mutex whose queue is valid comes to an end, by a return or by a
-- suspension in a wait: the loop bound chosen here, 53 rounds, is never reached.
pub mutex_lock-Ends : (m : ℕ) (s : Sys) → IsValid (s.mutexes m).wq → ends (mutex_lock m s).1 ≡ true
unfolding mutex_lock
mutex_lock-Ends m s v =
    if-cases Ends (m == 0) (λ h. refl)
      (λ h.
        if-cases Ends ((s.mutexes m).initialized == 0) (λ h. refl)
          (λ h.
            if-cases Ends ((s.mutexes m).locked == 0) (λ free. acquire-Ends m s)
              (λ h.
                if-cases Ends ((s.mutexes m).owner == thread_self s.rt) (λ h. refl)
                  (λ h.
                    if-cases Ends (leb max_threads (current_slot_index s.rt)) (λ h. refl)
                      (λ h.
                        if-cases Ends (is_full (s.mutexes m).wq) (λ h. refl)
                          (λ h. lock_wait-Ends m (current_slot_index s.rt) s v))))))
