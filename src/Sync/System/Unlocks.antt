-- ===== src/Sync/System/Unlocks.antt =====
-- src/sync/mutex.c: `gth_mutex_unlock` and `gth_mutex_destroy` keep the invariant.
use gthreads.Base.{ℕ, ◌≢◌, refl, ap, arith, ◌==◌, if-cases, not, ◌&&◌}
use gthreads.State.{RuntimeState, Status}
use gthreads.Trace.{trace_record}
use gthreads.Trace.Format.{EventType}
use gthreads.Thread.{thread_self, unblock_slot}
use gthreads.Thread.Live.{IsLive}
use gthreads.Thread.Keeps.{unblock_slot-IsLive}
use gthreads.WaitQueue.{dequeue, is_empty}
use gthreads.Sync.Objects.{Sys, put_mutex, put_self, zero_mutex}
use gthreads.Sync.Mutex.{wake_one, mutex_unlock, mutex_destroy}
use gthreads.Sync.System.Waiting.{dequeue-IsWaiting}
use gthreads.Sync.System.Rest.{traced-IsLive}
use gthreads.Sync.System.Safe.{IsSound, IsSafe, put_mutex-IsSafe, with_rt-IsSafe}

-- The wake-up and the release keep what holds of the runtime when records and wake-ups keep it.
module _ (P : RuntimeState → Type 0)
    (traced : (type : EventType) (tid data1 data2 : ℕ) (rt : RuntimeState)
      → P rt
      → P (trace_record type tid data1 data2 rt))
    (unblocked : (slot : ℕ) (rt : RuntimeState) → P rt → P (unblock_slot slot rt).0) where
  wake_one-IsSound :
      (m : ℕ) (s : Sys) → IsSound P s → (s.mutexes m).initialized ≢ 0 → IsSound P (wake_one m s)
  unfolding wake_one
  wake_one-IsSound m s v on =
      let i = s.mutexes m in
      let k = v.mutexes m in
      let wq = (dequeue i.wq).0 in
      let popped = put_mutex s m (record i { wq = wq }) in
      let p =
        put_mutex-IsSafe s m (record i { wq = wq }) v
          (record {
            flag = k.flag;
            free = k.free;
            idle = k.idle;
            waits = λ e. dequeue-IsWaiting i.wq (k.waits e);
          }) in
      if-cases (IsSound P) (is_empty i.wq) (λ h. v)
        (λ h.
          if-cases (IsSound P) ((dequeue i.wq).1 == 0xFF) (λ h. p)
            (λ h.
              with_rt-IsSafe popped _ p
                (unblocked (dequeue i.wq).1 _ (traced _ _ _ _ s.rt v.live))))

  freed-IsSound :
      (m : ℕ) (s : Sys)
      → IsSound P s
      → IsSound P (put_mutex s m (record (s.mutexes m) { locked = 0; owner = 0 }))
  freed-IsSound m s v = put_mutex-IsSafe s m _ v (record {
    flag = omega arith;
    free = λ e. refl;
    idle = λ e. refl;
    waits = (v.mutexes m).waits;
  })

  pub mutex_unlock-IsSound : (m : ℕ) (s : Sys) → IsSound P s → IsSound P (mutex_unlock m s).0
  unfolding mutex_unlock
  mutex_unlock-IsSound m s v =
      let Q : Sys × Status → Type 0 = λ r. IsSound P r.0 in
      let i = s.mutexes m in
      let released = record i { locked = 0; owner = 0 } in
      let freed = put_mutex s m released in
      if-cases Q (m == 0) (λ h. v)
        (λ h.
          if-cases Q (i.initialized == 0) (λ h. v)
            (λ on.
              if-cases Q (i.locked == 0) (λ h. v)
                (λ h.
                  if-cases Q (not (i.owner == 0) && not (i.owner == thread_self s.rt)) (λ h. v)
                    (λ h.
                      let w = wake_one-IsSound m freed (freed-IsSound m s v) (λ e.
                        let p = ap (λ x. x.initialized) (put_self s.mutexes m released) in
                        ground (arith, on, p, e)) in
                      with_rt-IsSafe (wake_one m freed) _ w (traced _ _ _ _ _ w.live)))))

pub mutex_unlock-IsSafe : (m : ℕ) (s : Sys) → IsSafe s → IsSafe (mutex_unlock m s).0
mutex_unlock-IsSafe =
    mutex_unlock-IsSound IsLive traced-IsLive (λ slot rt v. unblock_slot-IsLive rt slot v)

pub mutex_destroy-IsSafe : (m : ℕ) (s : Sys) → IsSafe s → IsSafe (mutex_destroy m s).0
unfolding mutex_destroy
mutex_destroy-IsSafe m s v =
    let P : Sys × Status → Type 0 = λ r. IsSafe r.0 in
    let i = s.mutexes m in
    if-cases P (m == 0) (λ h. v)
      (λ h.
        if-cases P (i.initialized == 0) (λ h. v)
          (λ h.
            if-cases P (not (i.locked == 0)) (λ h. v)
              (λ h.
                if-cases P (not (is_empty i.wq)) (λ h. v)
                  (λ h. put_mutex-IsSafe s m zero_mutex v (record {
                    flag = omega arith;
                    free = λ e. refl;
                    idle = λ e. refl;
                    waits = λ on. absurd (on refl);
                  })))))
