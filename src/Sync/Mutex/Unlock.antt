-- ===== src/Sync/Mutex/Unlock.antt =====
-- src/sync/mutex.c: who may release a mutex, and who is woken.
use gthreads.Base.{ℕ, sym, subst, ◌<◌, ◌≡◌, ◌≢◌, refl, ap, ◌∙◌, List, ◌∷◌, true, arith, ◌⊎◌}
use gthreads.State.{Thread, ok, RuntimeState}
use gthreads.Trace.{trace_record, trace_mutex_wake, trace_mutex_unlock}
use gthreads.Runtime.{max_threads}
use gthreads.Thread.Wake.{woken, unblock_slot-woken}
use gthreads.Trace.Format.{EventType}
use gthreads.Thread.{thread_self, unblock_slot}
use gthreads.WaitQueue.{dequeue, is_empty}
use gthreads.WaitQueue.Ring.{IsValid, contents}
use gthreads.WaitQueue.Head.{Head, dequeue-Head}
use gthreads.Sync.Objects.{Mutex, Sys, put_self, put_mutex}
use gthreads.Sync.Mutex.{mutex_unlock, wake_one}

-- The mutex is free, its longest waiter is out of its queue, and `threads` is the table.
pub record Released (m : ℕ) (rest : List ℕ) (threads : List Thread) (s' : Sys) : Type 0 where
  pub locked : (s'.mutexes m).locked ≡ 0
  pub owner : (s'.mutexes m).owner ≡ 0
  pub valid : IsValid (s'.mutexes m).wq
  pub queue : contents (s'.mutexes m).wq ≡ rest
  pub table : s'.rt.threads ≡ threads

-- A call of `gth_mutex_unlock` by the owner, or of anyone when the main context is the owner, when the thread in slot `x` has waited longest.
pub record Hands (m x : ℕ) (rest : List ℕ) (s : Sys) : Type 0 where
  pub address : m ≢ 0
  pub initialized : (s.mutexes m).initialized ≢ 0
  pub locked : (s.mutexes m).locked ≢ 0
  pub owner : ((s.mutexes m).owner ≡ 0) ⊎ ((s.mutexes m).owner ≡ thread_self s.rt)
  pub valid : IsValid (s.mutexes m).wq
  pub queue : contents (s.mutexes m).wq ≡ x ∷ rest
  pub running : s.rt.initialized ≡ true
  pub inside : x < max_threads

-- The mutex without its longest waiter.
abbrev popped : ℕ → Sys → Sys
popped m s = put_mutex s m (record (s.mutexes m) { wq = (dequeue (s.mutexes m).wq).0 })

wake_one-some :
    (m x : ℕ) (rest : List ℕ) (s : Sys)
    → Head (s.mutexes m).wq x rest
    → x < max_threads
    → wake_one m s
      ≡ record (popped m s) { rt = (unblock_slot x (trace_mutex_wake (thread_self s.rt) m s.rt)).0 }
unfolding wake_one is_empty dequeue
wake_one-some m x rest s h inside = ground arith

-- The mutex as the owner's unlock leaves it before it looks for a waiter.
abbrev pub freed : ℕ → Sys → Sys
freed m s = put_mutex s m (record (s.mutexes m) { locked = 0; owner = 0 })

pub mutex_unlock-owner :
    (m : ℕ) (s : Sys)
    → m ≢ 0
    → (s.mutexes m).initialized ≢ 0
    → (s.mutexes m).locked ≢ 0
    → ((s.mutexes m).owner ≡ 0) ⊎ ((s.mutexes m).owner ≡ thread_self s.rt)
    → let free = wake_one m (freed m s) in
      mutex_unlock m s
      ≡ (record free { rt = trace_mutex_unlock (thread_self free.rt) m free.rt }, ok)
unfolding mutex_unlock
mutex_unlock-owner m s a i l o = ground arith

pub freed-at :
    (m : ℕ) (s : Sys) → (freed m s).mutexes m ≡ record (s.mutexes m) { locked = 0; owner = 0 }
freed-at m s = put_self s.mutexes m _

freed-Head :
    (m x : ℕ) (rest : List ℕ) (s : Sys) → Hands m x rest s → Head ((freed m s).mutexes m).wq x rest
freed-Head m x rest s h =
    subst (λ i. Head i.wq x rest) (sym (freed-at m s))
      (dequeue-Head (s.mutexes m).wq x rest h.valid h.queue)

pub traced-threads :
    (self m : ℕ) (s : RuntimeState) → (trace_mutex_unlock self m s).threads ≡ s.threads
unfolding trace_record
traced-threads self m s = refl

popped-at :
    (m : ℕ) (s : Sys)
    → (popped m (freed m s)).mutexes m
      ≡ record (s.mutexes m) { locked = 0; owner = 0; wq = (dequeue (s.mutexes m).wq).0 }
popped-at m s =
    put_self (freed m s).mutexes m _
    ∙ ap {A = Mutex} {B = Mutex} (λ i. record i { wq = (dequeue i.wq).0 }) (freed-at m s)

popped-Released :
    (m x : ℕ) (rest : List ℕ) (s : Sys)
    → Hands m x rest s
    → let rt = (unblock_slot x (trace_mutex_wake (thread_self s.rt) m s.rt)).0 in
      Released m rest
        (woken x s.rt)
        (record (popped m (freed m s)) { rt = trace_mutex_unlock (thread_self rt) m rt })
popped-Released m x rest s h =
    let first = dequeue-Head (s.mutexes m).wq x rest h.valid h.queue in
    record {
      locked = ap (λ i. i.locked) (popped-at m s);
      owner = ap (λ i. i.owner) (popped-at m s);
      valid = subst (λ i. IsValid i.wq) (sym (popped-at m s)) first.valid;
      queue = ap (λ i. contents i.wq) (popped-at m s) ∙ first.queue;
      table =
          traced-threads _ m _
          ∙ unblock_slot-woken x EventType.mutex_wake (thread_self s.rt) m 0 s.rt h.running
              h.inside;
    }

-- An unlock by the owner, or of a mutex that has none, reports success, frees the mutex and takes the longest waiter out of the queue.
-- If that thread is blocked it is made ready and no other thread changes; if it is not blocked,
-- because it has been canceled while it waited, no thread is woken, whoever else is waiting.
pub mutex_unlock-wakes :
    (m x : ℕ) (rest : List ℕ) (s : Sys)
    → Hands m x rest s
    → let (s', status) = mutex_unlock m s in (status ≡ ok) × Released m rest (woken x s.rt) s'
mutex_unlock-wakes m x rest s h =
    rw
      (
        mutex_unlock-owner m s h.address h.initialized h.locked h.owner,
        wake_one-some m x rest (freed m s) (freed-Head m x rest s h) h.inside,
      )
      (refl, popped-Released m x rest s h)
