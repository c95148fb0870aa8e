-- ===== src/Sync/Mutex/Waits.antt =====
-- src/sync/mutex.c: `gth_mutex_lock` on a mutex that another thread holds.
use gthreads.Base.{
  ℕ, ◌<◌, ◌≡◌, ◌≢◌, refl, sym, ap, ◌∙◌, subst, [], ◌∷◌, ◌++◌, true, arith, ◌==◌, leb, set, some,
  not, if-cases, u8, ◌⊎◌, inl, inr,
}
use gthreads.State.{ThreadState, RuntimeState, Flow, ebusy, returned, suspended}
use gthreads.Trace.{trace_record, trace_mutex_wait}
use gthreads.Runtime.{max_threads, thread_at, find_thread}
use gthreads.Thread.{thread_self, current_slot_index, thread_block, block_in}
use gthreads.WaitQueue.{enqueue, is_full}
use gthreads.WaitQueue.Ring.{IsValid, contents}
use gthreads.WaitQueue.Fifo.{contents-enqueue}
use gthreads.Sync.Objects.{Sys, put_self}
use gthreads.Sync.Mutex.{mutex_lock, lock_wait, lock_loop, lock_fuel, enqueued, when_returned}

-- A thread of the table calls on a mutex that another one holds.
pub record Contends (m slot : ℕ) (s : Sys) : Type 0 where
  pub address : m ≢ 0
  pub initialized : (s.mutexes m).initialized ≢ 0
  pub held : (s.mutexes m).locked ≢ 0
  pub not_mine : (s.mutexes m).owner ≢ thread_self s.rt
  pub valid : IsValid (s.mutexes m).wq
  pub running : s.rt.initialized ≡ true
  pub thread : s.rt.current_tid ≢ 0
  pub found : find_thread s.rt s.rt.current_tid ≡ some slot
  pub caller : current_slot_index s.rt ≡ slot
  pub inside : slot < max_threads

-- The caller is blocked and stands last in the queue, and the mutex stays with its owner.
pub record Queued (m slot : ℕ) (s : Sys) (r : Sys × Flow) : Type 0 where
  pub flow : r.1 ≡ suspended slot
  pub queue : contents (r.0.mutexes m).wq ≡ contents (s.mutexes m).wq ++ (slot ∷ [])
  pub held : (r.0.mutexes m).locked ≡ (s.mutexes m).locked
  pub owner : (r.0.mutexes m).owner ≡ (s.mutexes m).owner
  pub table :
      r.0.rt.threads
      ≡ set s.rt.threads slot (record (thread_at s.rt slot) { state = ThreadState.blocked })

-- With a full queue the call fails; else the caller waits.
abbrev pub Contended : ℕ → ℕ → Sys → Sys × Flow → Type 0
Contended m slot s r =
    (((s.mutexes m).wq.count ≡ (s.mutexes m).wq.capacity) × (r ≡ (s, returned ebusy)))
    ⊎ (((s.mutexes m).wq.count < (s.mutexes m).wq.capacity) × Queued m slot s r)

thread_block-some :
    (s : RuntimeState) (slot : ℕ)
    → s.initialized ≡ true
    → s.current_tid ≢ 0
    → find_thread s s.current_tid ≡ some slot
    → thread_block s ≡ block_in (some slot) s
unfolding thread_block
thread_block-some s slot on busy e =
    let P : RuntimeState × Flow → Type 0 = λ r. r ≡ block_in (some slot) s in
    if-cases P (not s.initialized) (λ off. absurd (ground (arith, off, on)))
      (λ h.
        if-cases P (s.current_tid == 0) (λ idle. absurd (busy (ground (arith, idle))))
          (λ h. ap (λ o. block_in o s) e))

lock_wait-Queued :
    (m slot : ℕ) (s : Sys)
    → Contends m slot s
    → (s.mutexes m).wq.count < (s.mutexes m).wq.capacity
    → Queued m slot s (lock_wait m slot s)
unfolding lock_wait block_in trace_record enqueued find_thread
lock_wait-Queued m slot s c room =
    let traced = trace_mutex_wait (thread_self s.rt) m s.rt in
    let b = thread_block-some traced slot c.running c.thread c.found in
    let i = s.mutexes m in
    let at = put_self s.mutexes m (record i { wq = enqueue i.wq (u8 slot) }) in
    let same : u8 slot ≡ slot = omega (arith, c.inside) in
    let rest =
      lock_loop lock_fuel m slot (record (enqueued m slot s) { rt = (thread_block traced).0 }) in
    subst
      (λ (r : RuntimeState × Flow).
        Queued m slot s (when_returned r.1 (record (enqueued m slot s) { rt = r.0 }) rest))
      (sym b)
      (record {
        flow = refl;
        queue =
            ap (λ x. contents x.wq) at
            ∙ contents-enqueue i.wq (u8 slot) c.valid room
            ∙ ap (λ x. contents i.wq ++ (x ∷ [])) same;
        held = ap (λ x. x.locked) at;
        owner = ap (λ x. x.owner) at;
        table = refl;
      })

-- A thread that calls `gth_mutex_lock` on a mutex that another thread holds fails with EBUSY and
-- changes nothing if the mutex's queue is full. Otherwise it is suspended: it is blocked, stands last
-- in the queue, and the mutex stays with its owner.
pub mutex_lock-Queued :
    (m slot : ℕ) (s : Sys) → Contends m slot s → Contended m slot s (mutex_lock m s)
unfolding mutex_lock is_full
mutex_lock-Queued m slot s c =
    let i = s.mutexes m in
    let P = Contended m slot s in
    if-cases P (m == 0) (λ h. absurd (c.address (ground (arith, h))))
      (λ h.
        if-cases P (i.initialized == 0) (λ h. absurd (c.initialized (ground (arith, h))))
          (λ h.
            if-cases P (i.locked == 0) (λ h. absurd (c.held (ground (arith, h))))
              (λ h.
                if-cases P (i.owner == thread_self s.rt)
                  (λ h. absurd (c.not_mine (ground (arith, h))))
                  (λ h.
                    if-cases P (leb max_threads (current_slot_index s.rt))
                      (λ h. absurd (ground (arith, h, c.inside, c.caller)))
                      (λ h.
                        if-cases P (leb i.wq.capacity i.wq.count)
                          (λ h. inl (ground (arith, h, c.valid.count_in), refl))
                          (λ h.
                            let room : i.wq.count < i.wq.capacity = ground (arith, h) in
                            subst (λ x. P (lock_wait m x s)) (sym c.caller)
                              (inr (room, lock_wait-Queued m slot s c room))))))))
