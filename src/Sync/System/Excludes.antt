-- ===== src/Sync/System/Excludes.antt =====
-- src/sync/mutex.c: a mutex that is held stays with its owner until the owner releases it.
use gthreads.Base.{
  ℕ, zero, suc, ◌≡◌, ◌≢◌, refl, sym, ◌∙◌, subst, true, arith, ◌==◌, ==_iff, leb, Bool-cases,
  if-cases, inl, inr, not,
}
use gthreads.State.{Flow, Status, returned, suspended}
use gthreads.Trace.{trace_mutex_wait}
use gthreads.Runtime.{max_threads}
use gthreads.Thread.{thread_self, current_slot_index, thread_block}
use gthreads.WaitQueue.{dequeue, is_empty, is_full}
use gthreads.Sync.Objects.{Mutex, Sys, put_mutex}
use gthreads.Sync.Mutex.{
  mutex_init, acquire, enqueued, when_returned, lock_loop, lock_fuel, lock_wait, mutex_lock,
  mutex_trylock, wake_one, mutex_destroy,
}
use gthreads.Sync.Mutex.Lock.{lock_loop-suc, waiting}
use gthreads.Sync.System.{settle}

-- A held mutex has the same flag and owner.
abbrev pub Stays : Sys → Sys → Type 0
Stays s t =
    (m : ℕ)
    → (s.mutexes m).locked ≢ 0
    → ((t.mutexes m).locked ≡ (s.mutexes m).locked) × ((t.mutexes m).owner ≡ (s.mutexes m).owner)

pub Stays-refl : (s : Sys) → Stays s s
Stays-refl s m h = (refl, refl)

Stays-trans : (s t u : Sys) → Stays s t → Stays t u → Stays s u
Stays-trans s t u p q m h =
    let (f, o) = p m h in let (f', o') = q m (λ e. h (sym f ∙ e)) in (f' ∙ f, o' ∙ o)

put_mutex-Stays :
    (s : Sys) (m : ℕ) (impl : Mutex)
    → ((s.mutexes m).locked ≢ 0
        → (impl.locked ≡ (s.mutexes m).locked) × (impl.owner ≡ (s.mutexes m).owner))
    → Stays s (put_mutex s m impl)
put_mutex-Stays s m impl k x h = elim (Bool-cases (x == m)) [
  | inr miss ↦ rw miss (refl, refl)
  | inl hit ↦
      let e = (==_iff x m).0 hit in
      rw hit (
        subst
          (λ y.
            (s.mutexes y).locked ≢ 0
            → (impl.locked ≡ (s.mutexes y).locked) × (impl.owner ≡ (s.mutexes y).owner))
          (sym e) k h)
]

acquire-Stays : (m : ℕ) (s : Sys) → (s.mutexes m).locked ≡ 0 → Stays s (acquire m s).0
unfolding acquire
acquire-Stays m s free =
    put_mutex-Stays s m (record (s.mutexes m) { locked = 1; owner = thread_self s.rt })
      (λ h. absurd (h free))

enqueued-Stays : (m slot : ℕ) (s : Sys) → Stays s (enqueued m slot s)
unfolding enqueued
enqueued-Stays m slot s = put_mutex-Stays s m _ (λ h. (refl, refl))

-- A wait that goes on, and one that does not.
when_returned-Stays :
    (s blocked : Sys) (flow : Flow) (rest : Sys × Flow)
    → Stays s blocked
    → Stays blocked (settle rest)
    → Stays s (settle (when_returned flow blocked rest))
when_returned-Stays s blocked (returned status) rest p q = Stays-trans s blocked (settle rest) p q
when_returned-Stays s blocked (suspended x) rest p q = p
when_returned-Stays s blocked _ rest p q = p

-- What a settled call has done to the mutexes.
abbrev StaysIn : Sys → Sys × Flow → Type 0
StaysIn s r = Stays s (settle r)

acquire-StaysIn : (m : ℕ) (s : Sys) → ((s.mutexes m).locked == 0) ≡ true → StaysIn s (acquire m s)
unfolding acquire
acquire-StaysIn m s free = acquire-Stays m s ((==_iff _ 0).0 free)

pub lock_loop-Stays : (fuel m slot : ℕ) (s : Sys) → Stays s (settle (lock_loop fuel m slot s))
unfolding lock_loop
lock_loop-Stays zero m slot s =
    if-cases (StaysIn s) ((s.mutexes m).locked == 0) (λ free. acquire-StaysIn m s free)
      (λ held. Stays-refl s)
lock_loop-Stays (suc fuel) m slot s = subst (StaysIn s) (sym (lock_loop-suc fuel m slot s)) (
    if-cases (StaysIn s) ((s.mutexes m).locked == 0) (λ free. acquire-StaysIn m s free)
      (λ held.
        if-cases (StaysIn s) (is_full (s.mutexes m).wq) (λ full. Stays-refl s)
          (λ room.
            when_returned-Stays s (waiting m slot s) (thread_block (enqueued m slot s).rt).1
              (lock_loop fuel m slot (waiting m slot s)) (enqueued-Stays m slot s)
              (lock_loop-Stays fuel m slot (waiting m slot s)))))

lock_wait-Stays : (m slot : ℕ) (s : Sys) → StaysIn s (lock_wait m slot s)
unfolding lock_wait
lock_wait-Stays m slot s =
    let r = thread_block (trace_mutex_wait (thread_self s.rt) m s.rt) in
    let blocked = record (enqueued m slot s) { rt = r.0 } in
    when_returned-Stays s blocked r.1 (lock_loop lock_fuel m slot blocked) (enqueued-Stays m slot s)
      (lock_loop-Stays lock_fuel m slot blocked)

pub mutex_lock-Stays : (m : ℕ) (s : Sys) → Stays s (settle (mutex_lock m s))
unfolding mutex_lock
mutex_lock-Stays m s =
    let i = s.mutexes m in
    let P = StaysIn s in
    if-cases P (m == 0) (λ h. Stays-refl s)
      (λ h.
        if-cases P (i.initialized == 0) (λ h. Stays-refl s)
          (λ h.
            if-cases P (i.locked == 0) (λ free. acquire-StaysIn m s free)
              (λ h.
                if-cases P (i.owner == thread_self s.rt) (λ h. Stays-refl s)
                  (λ h.
                    if-cases P (leb max_threads (current_slot_index s.rt)) (λ h. Stays-refl s)
                      (λ h.
                        if-cases P (is_full i.wq) (λ h. Stays-refl s)
                          (λ h. lock_wait-Stays m (current_slot_index s.rt) s))))))

-- A call that writes at most one mutex, and that one only where it is free.
pub mutex_trylock-Stays : (m : ℕ) (s : Sys) → Stays s (mutex_trylock m s).0
unfolding mutex_trylock
mutex_trylock-Stays m s =
    let P : Sys × Status → Type 0 = λ r. Stays s r.0 in
    let i = s.mutexes m in
    if-cases P (m == 0) (λ h. Stays-refl s)
      (λ h.
        if-cases P (i.initialized == 0) (λ h. Stays-refl s)
          (λ h.
            if-cases P (not (i.locked == 0)) (λ h. Stays-refl s)
              (λ free.
                put_mutex-Stays s m (record i { locked = 1; owner = thread_self s.rt })
                  (λ h. absurd (h (ground (arith, free)))))))

pub mutex_init-Stays : (m : ℕ) (s : Sys) → (s.mutexes m).locked ≡ 0 → Stays s (mutex_init m s).0
unfolding mutex_init
mutex_init-Stays m s free =
    if-cases (λ (r : Sys × Status). Stays s r.0) (m == 0) (λ h. Stays-refl s)
      (λ h. put_mutex-Stays s m _ (λ h. absurd (h free)))

pub mutex_destroy-Stays : (m : ℕ) (s : Sys) → Stays s (mutex_destroy m s).0
unfolding mutex_destroy
mutex_destroy-Stays m s =
    let P : Sys × Status → Type 0 = λ r. Stays s r.0 in
    let i = s.mutexes m in
    if-cases P (m == 0) (λ h. Stays-refl s)
      (λ h.
        if-cases P (i.initialized == 0) (λ h. Stays-refl s)
          (λ h.
            if-cases P (not (i.locked == 0)) (λ h. Stays-refl s)
              (λ free.
                if-cases P (not (is_empty i.wq)) (λ h. Stays-refl s)
                  (λ h. put_mutex-Stays s m _ (λ h. absurd (h (ground (arith, free))))))))

pub wake_one-Stays : (m : ℕ) (s : Sys) → Stays s (wake_one m s)
unfolding wake_one
wake_one-Stays m s =
    let i = s.mutexes m in
    let popped = put_mutex-Stays s m (record i { wq = (dequeue i.wq).0 }) (λ h. (refl, refl)) in
    if-cases (Stays s) (is_empty i.wq) (λ h. Stays-refl s)
      (λ h. if-cases (Stays s) ((dequeue i.wq).1 == 0xFF) (λ h. popped) (λ h. popped))

pub locked-wake_one : (m : ℕ) (s : Sys) → ((wake_one m s).mutexes m).locked ≡ (s.mutexes m).locked
unfolding wake_one
locked-wake_one m s = ground arith
