-- ===== src/Sync/Mutex/Lock.antt =====
-- src/sync/mutex.c: what a call of `gth_mutex_lock` that succeeds has found and done.
use gthreads.Base.{
  ℕ, ap, subst, sym, ◌∙◌, zero, suc, ◌≡◌, refl, arith, ◌==◌, ==_iff, leb, if-cases, if◌then◌else◌,
}
use gthreads.State.{RuntimeState, ok, ebusy, Flow, returned, suspended}
use gthreads.Trace.{trace_record, trace_mutex_wait}
use gthreads.Runtime.{max_threads}
use gthreads.Thread.{thread_self, thread_block, block_in, current_slot_index}
use gthreads.WaitQueue.{is_full}
use gthreads.Sync.Objects.{Sys, put_self}
use gthreads.Sync.Mutex.{
  when_returned, acquire, enqueued, lock_loop, lock_fuel, lock_wait, mutex_lock,
}

-- The caller has taken a mutex that was free.
pub record Acquired (m : ℕ) (s s' : Sys) : Type 0 where
  pub was_free : (s.mutexes m).locked ≡ 0
  pub locked : (s'.mutexes m).locked ≡ 1
  pub owner : (s'.mutexes m).owner ≡ thread_self s.rt

acquire-Acquired : (m : ℕ) (s : Sys) → (s.mutexes m).locked ≡ 0 → Acquired m s (acquire m s).0
unfolding acquire
acquire-Acquired m s e = ground arith

thread_self-block : (s : RuntimeState) → thread_self (thread_block s).0 ≡ thread_self s
unfolding thread_self thread_block block_in trace_record
thread_self-block s = ground arith

when_returned-Acquired :
    (m : ℕ) (s blocked : Sys) (flow : Flow) (rest : Sys × Flow)
    → (rest.1 ≡ returned ok → Acquired m s rest.0)
    → (when_returned flow blocked rest).1 ≡ returned ok
    → Acquired m s (when_returned flow blocked rest).0
when_returned-Acquired m s blocked (returned status) rest h e = h e
when_returned-Acquired m s blocked (suspended x) rest h e = cc
when_returned-Acquired m s blocked _ rest h e = cc

-- The state in which the wait of one round leaves the caller.
abbrev pub waiting : ℕ → ℕ → Sys → Sys
waiting m slot s =
    let queued = enqueued m slot s in record queued { rt = (thread_block queued.rt).0 }

waiting-Acquired :
    (m slot : ℕ) (s s' : Sys) (rt : RuntimeState)
    → thread_self rt ≡ thread_self s.rt
    → Acquired m (record (enqueued m slot s) { rt = rt }) s'
    → Acquired m s s'
unfolding enqueued
waiting-Acquired m slot s s' rt e a = record {
  was_free = ap (λ i. i.locked) (sym (put_self s.mutexes m _)) ∙ a.was_free;
  locked = a.locked;
  owner = a.owner ∙ e;
}

-- One round, with the tests in front.
pub lock_loop-suc :
    (fuel m slot : ℕ) (s : Sys)
    → lock_loop (suc fuel) m slot s ≡ (
        if (s.mutexes m).locked == 0
        then acquire m s
        else if is_full (s.mutexes m).wq
        then (s, returned ebusy)
        else when_returned
            (thread_block (enqueued m slot s).rt).1
            (waiting m slot s)
            (lock_loop fuel m slot (waiting m slot s)))
unfolding lock_loop
lock_loop-suc fuel m slot s = refl

-- Success means that the caller has taken a free mutex.
abbrev pub IfOk : ℕ → Sys → Sys × Flow → Type 0
IfOk m s r = r.1 ≡ returned ok → Acquired m s r.0

-- The same for the loop.
pub lock_loop-Acquired : (fuel m slot : ℕ) (s : Sys) → IfOk m s (lock_loop fuel m slot s)
unfolding lock_loop
lock_loop-Acquired zero m slot s =
    if-cases (IfOk m s) ((s.mutexes m).locked == 0)
      (λ free e. acquire-Acquired m s ((==_iff _ 0).0 free)) (λ held e. cc)
lock_loop-Acquired (suc fuel) m slot s = subst (IfOk m s) (sym (lock_loop-suc fuel m slot s)) (
    if-cases (IfOk m s) ((s.mutexes m).locked == 0)
      (λ free e. acquire-Acquired m s ((==_iff _ 0).0 free))
      (λ held.
        if-cases (IfOk m s) (is_full (s.mutexes m).wq) (λ full e. cc)
          (λ room.
            when_returned-Acquired m s (waiting m slot s) (thread_block (enqueued m slot s).rt).1
              (lock_loop fuel m slot (waiting m slot s))
              (λ q.
                waiting-Acquired m slot s _ _ (thread_self-block s.rt)
                  (lock_loop-Acquired fuel m slot (waiting m slot s) q)))))

thread_self-wait :
    (m : ℕ) (s : RuntimeState)
    → thread_self (thread_block (trace_mutex_wait (thread_self s) m s)).0 ≡ thread_self s
unfolding thread_self thread_block block_in trace_record
thread_self-wait m s = ground arith

lock_wait-Acquired : (m slot : ℕ) (s : Sys) → IfOk m s (lock_wait m slot s)
unfolding lock_wait
lock_wait-Acquired m slot s =
    let rt = (thread_block (trace_mutex_wait (thread_self s.rt) m s.rt)).0 in
    let blocked = record (enqueued m slot s) { rt = rt } in
    when_returned-Acquired m s blocked _ (lock_loop lock_fuel m slot blocked) (λ q.
      waiting-Acquired m slot s _ rt (thread_self-wait m s.rt)
        (lock_loop-Acquired lock_fuel m slot blocked q))

mutex_lock-IfOk : (m : ℕ) (s : Sys) → IfOk m s (mutex_lock m s)
unfolding mutex_lock
mutex_lock-IfOk m s =
    if-cases (IfOk m s) (m == 0) (λ h e. cc)
      (λ h.
        if-cases (IfOk m s) ((s.mutexes m).initialized == 0) (λ h e. cc)
          (λ h.
            if-cases (IfOk m s) ((s.mutexes m).locked == 0)
              (λ free e. acquire-Acquired m s ((==_iff _ 0).0 free))
              (λ h.
                if-cases (IfOk m s) ((s.mutexes m).owner == thread_self s.rt) (λ h e. cc)
                  (λ h.
                    if-cases (IfOk m s) (leb max_threads (current_slot_index s.rt)) (λ h e. cc)
                      (λ h.
                        if-cases (IfOk m s) (is_full (s.mutexes m).wq) (λ h e. cc)
                          (λ h. lock_wait-Acquired m (current_slot_index s.rt) s))))))

-- A `gth_mutex_lock` that returns success, without a wait, has found the mutex free and has taken
-- it for the caller.
pub mutex_lock-Acquired :
    (m : ℕ) (s : Sys) → (mutex_lock m s).1 ≡ returned ok → Acquired m s (mutex_lock m s).0
mutex_lock-Acquired m s e = mutex_lock-IfOk m s e

-- Once its wait has ended, the rest of a call that returns success without a further wait has found
-- the mutex free and has taken it for the caller.
pub lock_loop-Acquires :
    (fuel m slot : ℕ) (s : Sys)
    → (lock_loop fuel m slot s).1 ≡ returned ok
    → Acquired m s (lock_loop fuel m slot s).0
lock_loop-Acquires fuel m slot s e = lock_loop-Acquired fuel m slot s e
