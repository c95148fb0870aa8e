-- ===== src/Sync/System/Mutexes.antt =====
-- src/sync/mutex.c: the calls that take a mutex keep the invariant.
use gthreads.Base.{
  ℕ, zero, suc, ◌<◌, ◌≡◌, ◌≢◌, refl, sym, ap, ◌∙◌, subst, arith, ◌==◌, leb, if-cases, not,
}
use gthreads.State.{RuntimeState, Flow, Status}
use gthreads.Trace.{trace_mutex_wait}
use gthreads.Runtime.{max_threads}
use gthreads.Thread.{thread_self, current_slot_index, thread_block}
use gthreads.Thread.Live.{IsLive, back}
use gthreads.WaitQueue.{is_full}
use gthreads.Sync.Objects.{Mutex, Sys, put_mutex, put_self}
use gthreads.Sync.Mutex.{
  mutex_init, acquire, enqueued, when_returned, lock_loop, lock_fuel, lock_wait, mutex_lock,
  mutex_trylock,
}
use gthreads.Sync.Mutex.Lock.{lock_loop-suc, waiting}
use gthreads.Sync.System.{settle}
use gthreads.Sync.System.Waiting.{init-IsWaiting, enqueue-IsWaiting}
use gthreads.Sync.System.Rest.{Blocking, refused, leaves, thread_block-Blocking, traced-IsLive}
use gthreads.Sync.System.Safe.{IsMutex, IsSafe, put_mutex-IsSafe, with_rt-IsSafe, traced-IsSafe}

-- The invariant after a call.
abbrev Settled : Sys × Flow → Type 0
Settled r = IsSafe (settle r)

pub mutex_init-IsSafe : (m : ℕ) (s : Sys) → IsSafe s → IsSafe (mutex_init m s).0
unfolding mutex_init
mutex_init-IsSafe m s v =
    if-cases (λ (r : Sys × Status). IsSafe r.0) (m == 0) (λ h. v)
      (λ h. put_mutex-IsSafe s m _ v (record {
        flag = omega arith;
        free = λ e. refl;
        idle = λ e. refl;
        waits = λ e. init-IsWaiting;
      }))

-- A lock taken on an initialised mutex.
taken-IsMutex :
    (i : Mutex) (owner : ℕ)
    → i.initialized ≢ 0
    → IsMutex i
    → IsMutex (record i { locked = 1; owner = owner })
taken-IsMutex i owner on v = record {
  flag = omega arith;
  free = λ e. absurd (omega arith);
  idle = λ e. absurd (on e);
  waits = v.waits;
}

acquire-Settled :
    (m : ℕ) (s : Sys) → IsSafe s → (s.mutexes m).initialized ≢ 0 → Settled (acquire m s)
unfolding acquire
acquire-Settled m s v on =
    traced-IsSafe (put_mutex s m (record (s.mutexes m) { locked = 1; owner = thread_self s.rt })) _
      _ _ _
      (put_mutex-IsSafe s m _ v (taken-IsMutex (s.mutexes m) (thread_self s.rt) on (v.mutexes m)))

enqueued-IsSafe :
    (m slot : ℕ) (s : Sys)
    → IsSafe s
    → (s.mutexes m).initialized ≢ 0
    → slot < max_threads
    → IsSafe (enqueued m slot s)
unfolding enqueued
enqueued-IsSafe m slot s v on h =
    let i = v.mutexes m in
    put_mutex-IsSafe s m _ v (record {
      flag = i.flag;
      free = i.free;
      idle = i.idle;
      waits = λ e. enqueue-IsWaiting (s.mutexes m).wq slot (i.waits e) h;
    })

-- A wait that is refused goes on at once, one that is suspended leaves the scheduler running.
when_returned-Settled :
    (queued : Sys) (r : RuntimeState × Flow) (rest : Sys × Flow)
    → IsSafe queued
    → Blocking queued.rt r
    → (r.0 ≡ queued.rt → Settled rest)
    → Settled (when_returned r.1 (record queued { rt = r.0 }) rest)
when_returned-Settled queued (rt, flow) rest v (refused e) k =
    subst (λ f. Settled (when_returned f (record queued { rt = rt }) rest)) (sym (ap (λ x. x.1) e))
      (k (ap (λ x. x.0) e))
when_returned-Settled queued (rt, flow) rest v (leaves slot e l) k =
    subst (λ f. Settled (when_returned f (record queued { rt = rt }) rest)) (sym e)
      (with_rt-IsSafe queued (back rt) v l)

initialized-enqueued :
    (m slot : ℕ) (s : Sys) → ((enqueued m slot s).mutexes m).initialized ≡ (s.mutexes m).initialized
unfolding enqueued
initialized-enqueued m slot s = ap (λ i. i.initialized) (put_self s.mutexes m _)

pub lock_loop-Settled :
    (fuel m slot : ℕ) (s : Sys)
    → IsSafe s
    → (s.mutexes m).initialized ≢ 0
    → slot < max_threads
    → Settled (lock_loop fuel m slot s)
unfolding lock_loop
lock_loop-Settled zero m slot s v on h =
    if-cases Settled ((s.mutexes m).locked == 0) (λ free. acquire-Settled m s v on) (λ held. v)
lock_loop-Settled (suc fuel) m slot s v on h =
    let queued = enqueued m slot s in
    let q = enqueued-IsSafe m slot s v on h in
    subst Settled (sym (lock_loop-suc fuel m slot s)) (
      if-cases Settled ((s.mutexes m).locked == 0) (λ free. acquire-Settled m s v on)
        (λ held.
          if-cases Settled (is_full (s.mutexes m).wq) (λ full. v)
            (λ room.
              when_returned-Settled queued (thread_block queued.rt)
                (lock_loop fuel m slot (waiting m slot s)) q
                (thread_block-Blocking queued.rt q.live)
                (λ e.
                  lock_loop-Settled fuel m slot (waiting m slot s)
                    (with_rt-IsSafe queued (thread_block queued.rt).0 q
                      (subst IsLive (sym e) q.live))
                    (λ z. on (sym (initialized-enqueued m slot s) ∙ z)) h))))

lock_wait-Settled :
    (m slot : ℕ) (s : Sys)
    → IsSafe s
    → (s.mutexes m).initialized ≢ 0
    → slot < max_threads
    → Settled (lock_wait m slot s)
unfolding lock_wait
lock_wait-Settled m slot s v on h =
    let q = enqueued-IsSafe m slot s v on h in
    let traced = trace_mutex_wait (thread_self s.rt) m s.rt in
    let queued = record (enqueued m slot s) { rt = traced } in
    let t = with_rt-IsSafe (enqueued m slot s) traced q (traced-IsLive _ _ _ _ s.rt v.live) in
    let rt = (thread_block traced).0 in
    when_returned-Settled queued (thread_block traced)
      (lock_loop lock_fuel m slot (record queued { rt = rt })) t
      (thread_block-Blocking traced t.live)
      (λ e.
        lock_loop-Settled lock_fuel m slot (record queued { rt = rt })
          (with_rt-IsSafe queued rt t (subst IsLive (sym e) t.live))
          (λ z. on (sym (initialized-enqueued m slot s) ∙ z)) h)

pub mutex_lock-Settled : (m : ℕ) (s : Sys) → IsSafe s → IsSafe (settle (mutex_lock m s))
unfolding mutex_lock
mutex_lock-Settled m s v =
    let i = s.mutexes m in
    if-cases Settled (m == 0) (λ h. v)
      (λ h.
        if-cases Settled (i.initialized == 0) (λ h. v)
          (λ on.
            let on' : i.initialized ≢ 0 = ground (arith, on) in
            if-cases Settled (i.locked == 0) (λ free. acquire-Settled m s v on')
              (λ h.
                if-cases Settled (i.owner == thread_self s.rt) (λ h. v)
                  (λ h.
                    if-cases Settled (leb max_threads (current_slot_index s.rt)) (λ h. v)
                      (λ inside.
                        if-cases Settled (is_full i.wq) (λ h. v)
                          (λ room.
                            lock_wait-Settled m (current_slot_index s.rt) s v on'
                              (ground (arith, inside))))))))

pub mutex_trylock-IsSafe : (m : ℕ) (s : Sys) → IsSafe s → IsSafe (mutex_trylock m s).0
unfolding mutex_trylock
mutex_trylock-IsSafe m s v =
    let P : Sys × Status → Type 0 = λ r. IsSafe r.0 in
    let i = s.mutexes m in
    if-cases P (m == 0) (λ h. v)
      (λ h.
        if-cases P (i.initialized == 0) (λ h. v)
          (λ on.
            if-cases P (not (i.locked == 0)) (λ h. v)
              (λ h.
                put_mutex-IsSafe s m _ v
                  (taken-IsMutex i (thread_self s.rt) (ground (arith, on)) (v.mutexes m)))))
