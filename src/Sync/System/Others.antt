-- ===== src/Sync/System/Others.antt =====
-- src/sync/cond.c, src/sync/sem.c: every call on a condition or a semaphore keeps the invariant.
use gthreads.Base.{
  ℕ, zero, suc, ◌+◌, ◌-◌, ◌<◌, ◌≡◌, refl, arith, ◌==◌, leb, if-cases, not, u8, some,
}
use gthreads.State.{Flow, Status, suspended}
use gthreads.Trace.{trace_record}
use gthreads.Runtime.{max_threads, find_thread}
use gthreads.Thread.{current_slot_index, block_in}
use gthreads.Thread.Live.{back}
use gthreads.Thread.Keeps.{unblock_slot-IsLive}
use gthreads.WaitQueue.{dequeue, is_empty, is_full, enqueue}
use gthreads.Sync.Objects.{Sys, put_cond, put_sem, zero_sem, zero_cond}
use gthreads.Sync.Sem.{
  sem_init, sem_wait, sem_block, sem_post, sem_hand_over, sem_destroy, uint32_max,
}
use gthreads.Sync.Cond.{
  cond_init, cond_signal, signal_one, broadcast_one, broadcast_loop, cond_broadcast, cond_destroy,
}
use gthreads.Sync.System.{settle}
use gthreads.Sync.System.Waiting.{init-IsWaiting, enqueue-IsWaiting, dequeue-IsWaiting}
use gthreads.Sync.System.Rest.{find_thread-current, blocked-IsLive, traced-IsLive}
use gthreads.Sync.System.Safe.{
  IsSafe, put_sem-IsSafe, put_cond-IsSafe, with_rt-IsSafe, traced-IsSafe,
}

abbrev Settled : Sys × Flow → Type 0
Settled r = IsSafe (settle r)

abbrev Kept : Sys × Status → Type 0
Kept r = IsSafe r.0

pub sem_init-IsSafe :
    (p initial_count : ℕ) (s : Sys) → IsSafe s → IsSafe (sem_init p initial_count s).0
unfolding sem_init
sem_init-IsSafe p n s v =
    if-cases Kept (p == 0) (λ h. v) (λ h. put_sem-IsSafe s p _ v (λ e. init-IsWaiting))

-- The rest of a wait at count 0: the queue has the caller, and the scheduler's context runs.
sem_block-Settled :
    (p slot : ℕ) (s : Sys)
    → IsSafe s
    → slot < max_threads
    → find_thread s.rt s.rt.current_tid ≡ some slot
    → Settled (sem_block p slot s, suspended slot)
unfolding sem_block block_in trace_record
sem_block-Settled p slot s v h e =
    let i = s.sems p in
    let q =
      put_sem-IsSafe s p (record i { wq = enqueue i.wq (u8 slot) }) v
        (λ on. enqueue-IsWaiting i.wq slot (v.sems p on) h) in
    with_rt-IsSafe (put_sem s p (record i { wq = enqueue i.wq (u8 slot) }))
      (back (sem_block p slot s).rt) q
      (blocked-IsLive s.rt (sem_block p slot s).rt slot v.live e
        (record { threads = refl; next_tid = refl; ready = refl; blocked = refl }))

pub sem_wait-Settled : (p : ℕ) (s : Sys) → IsSafe s → IsSafe (settle (sem_wait p s))
unfolding sem_wait
sem_wait-Settled p s v =
    let i = s.sems p in
    if-cases Settled (p == 0) (λ h. v)
      (λ h.
        if-cases Settled (i.initialized == 0) (λ h. v)
          (λ h.
            if-cases Settled (not (i.count == 0))
              (λ h.
                traced-IsSafe (put_sem s p (record i { count = i.count - 1 })) _ _ _ _
                  (put_sem-IsSafe s p _ v (v.sems p)))
              (λ h.
                if-cases Settled (leb max_threads (current_slot_index s.rt)) (λ h. v)
                  (λ inside.
                    if-cases Settled (is_full i.wq) (λ h. v)
                      (λ room.
                        let k : current_slot_index s.rt < max_threads = ground (arith, inside) in
                        sem_block-Settled p (current_slot_index s.rt) s v k
                          (find_thread-current s.rt v.live k))))))

sem_hand_over-IsSafe : (p : ℕ) (s : Sys) → IsSafe s → IsSafe (sem_hand_over p s)
unfolding sem_hand_over
sem_hand_over-IsSafe p s v =
    let i = s.sems p in
    let popped = put_sem s p (record i { wq = (dequeue i.wq).0 }) in
    let q =
      put_sem-IsSafe s p (record i { wq = (dequeue i.wq).0 }) v
        (λ on. dequeue-IsWaiting i.wq (v.sems p on)) in
    if-cases IsSafe ((dequeue i.wq).1 == 0xFF) (λ h. q)
      (λ h.
        with_rt-IsSafe popped _ q
          (unblock_slot-IsLive _ (dequeue i.wq).1 (traced-IsLive _ _ _ _ s.rt v.live)))

pub sem_post-IsSafe : (p : ℕ) (s : Sys) → IsSafe s → IsSafe (sem_post p s).0
unfolding sem_post
sem_post-IsSafe p s v =
    let i = s.sems p in
    if-cases Kept (p == 0) (λ h. v)
      (λ h.
        if-cases Kept (i.initialized == 0) (λ h. v)
          (λ h.
            if-cases Kept (not (is_empty i.wq))
              (λ h. traced-IsSafe (sem_hand_over p s) _ _ _ _ (sem_hand_over-IsSafe p s v))
              (λ h.
                if-cases Kept (i.count == uint32_max) (λ h. v)
                  (λ h.
                    traced-IsSafe (put_sem s p (record i { count = i.count + 1 })) _ _ _ _
                      (put_sem-IsSafe s p _ v (v.sems p))))))

pub sem_destroy-IsSafe : (p : ℕ) (s : Sys) → IsSafe s → IsSafe (sem_destroy p s).0
unfolding sem_destroy
sem_destroy-IsSafe p s v =
    let i = s.sems p in
    if-cases Kept (p == 0) (λ h. v)
      (λ h.
        if-cases Kept (i.initialized == 0) (λ h. v)
          (λ h.
            if-cases Kept (not (is_empty i.wq)) (λ h. v)
              (λ h. put_sem-IsSafe s p zero_sem v (λ on. absurd (on refl)))))

pub cond_init-IsSafe : (c : ℕ) (s : Sys) → IsSafe s → IsSafe (cond_init c s).0
unfolding cond_init
cond_init-IsSafe c s v =
    if-cases Kept (c == 0) (λ h. v) (λ h. put_cond-IsSafe s c _ v (λ e. init-IsWaiting))

pub cond_destroy-IsSafe : (c : ℕ) (s : Sys) → IsSafe s → IsSafe (cond_destroy c s).0
unfolding cond_destroy
cond_destroy-IsSafe c s v =
    let i = s.conds c in
    if-cases Kept (c == 0) (λ h. v)
      (λ h.
        if-cases Kept (i.initialized == 0) (λ h. v)
          (λ h.
            if-cases Kept (not (is_empty i.wq)) (λ h. v)
              (λ h. put_cond-IsSafe s c zero_cond v (λ on. absurd (on refl)))))

popped-IsSafe :
    (c : ℕ) (s : Sys)
    → IsSafe s
    → IsSafe (put_cond s c (record (s.conds c) { wq = (dequeue (s.conds c).wq).0 }))
popped-IsSafe c s v =
    put_cond-IsSafe s c _ v (λ on. dequeue-IsWaiting (s.conds c).wq (v.conds c on))

signal_one-IsSafe : (c : ℕ) (s : Sys) → IsSafe s → IsSafe (signal_one c s)
unfolding signal_one
signal_one-IsSafe c s v =
    let i = s.conds c in
    let popped = put_cond s c (record i { wq = (dequeue i.wq).0 }) in
    if-cases IsSafe ((dequeue i.wq).1 == 0xFF) (λ h. popped-IsSafe c s v)
      (λ h.
        with_rt-IsSafe popped _ (popped-IsSafe c s v)
          (unblock_slot-IsLive _ (dequeue i.wq).1 (traced-IsLive _ _ _ _ s.rt v.live)))

pub cond_signal-IsSafe : (c : ℕ) (s : Sys) → IsSafe s → IsSafe (cond_signal c s).0
unfolding cond_signal
cond_signal-IsSafe c s v =
    let i = s.conds c in
    if-cases Kept (c == 0) (λ h. v)
      (λ h.
        if-cases Kept (i.initialized == 0) (λ h. v)
          (λ h. if-cases Kept (is_empty i.wq) (λ h. v) (λ h. signal_one-IsSafe c s v)))

broadcast_one-IsSafe : (c : ℕ) (s : Sys) (n : ℕ) → IsSafe s → IsSafe (broadcast_one c s n).0
unfolding broadcast_one
broadcast_one-IsSafe c s n v =
    let i = s.conds c in
    let popped = put_cond s c (record i { wq = (dequeue i.wq).0 }) in
    if-cases (λ (r : Sys × ℕ). IsSafe r.0) ((dequeue i.wq).1 == 0xFF) (λ h. popped-IsSafe c s v)
      (λ h.
        with_rt-IsSafe popped _ (popped-IsSafe c s v)
          (unblock_slot-IsLive s.rt (dequeue i.wq).1 v.live))

broadcast_loop-IsSafe :
    (fuel c : ℕ) (s : Sys) (n : ℕ) → IsSafe s → IsSafe (broadcast_loop fuel c s n).0
unfolding broadcast_loop
broadcast_loop-IsSafe zero c s n v = v
broadcast_loop-IsSafe (suc fuel) c s n v =
    if-cases (λ (r : Sys × ℕ). IsSafe r.0) (is_empty (s.conds c).wq) (λ h. v)
      (λ h.
        broadcast_loop-IsSafe fuel c (broadcast_one c s n).0 (broadcast_one c s n).1
          (broadcast_one-IsSafe c s n v))

pub cond_broadcast-IsSafe : (c : ℕ) (s : Sys) → IsSafe s → IsSafe (cond_broadcast c s).0
unfolding cond_broadcast
cond_broadcast-IsSafe c s v =
    let i = s.conds c in
    if-cases Kept (c == 0) (λ h. v)
      (λ h.
        if-cases Kept (i.initialized == 0) (λ h. v)
          (λ h.
            traced-IsSafe (broadcast_loop i.wq.count c s 0).0 _ _ _ _
              (broadcast_loop-IsSafe i.wq.count c s 0 v)))
