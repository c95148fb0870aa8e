-- ===== src/Sync/Sem/Takes.antt =====
-- src/sync/sem.c: `gth_sem_wait`, which takes a unit or waits for one.
use gthreads.Base.{
  ℕ, ◌-◌, ◌<◌, ◌≡◌, ◌≢◌, refl, sym, ap, ◌∙◌, subst, [], ◌∷◌, ◌++◌, arith, ◌==◌, leb, not, set,
  if◌then◌else◌, if-cases, if-both, u8,
}
use gthreads.State.{ThreadState, ok, estate, ebusy, Flow, returned, suspended}
use gthreads.Trace.{trace_record}
use gthreads.Runtime.{max_threads, thread_at}
use gthreads.Thread.{current_slot_index}
use gthreads.WaitQueue.{enqueue, is_full}
use gthreads.WaitQueue.Ring.{IsValid, contents}
use gthreads.WaitQueue.Fifo.{enqueue-IsValid, contents-enqueue}
use gthreads.Sync.Objects.{Sys, put_self, put_sem}
use gthreads.Sync.Sem.{sem_wait, sem_block}
use gthreads.Sync.Sem.Units.{Units}

-- What `gth_sem_wait` does by the count, the caller and the room in the queue.
abbrev pub Waited : ℕ → Sys → Sys × Flow → Type 0
Waited p s =
    let i = s.sems p in
    let slot = current_slot_index s.rt in
    if not (i.count == 0)
    then (λ r. Units p (i.count - 1) (contents i.wq) s.rt.threads r.0 × (r.1 ≡ returned ok))
    else if leb max_threads slot
    then (λ r. (r.0 ≡ s) × (r.1 ≡ returned estate))
    else if leb i.wq.capacity i.wq.count
    then (λ r. (r.0 ≡ s) × (r.1 ≡ returned ebusy))
    else (λ r.
        Units p 0 (contents i.wq ++ (slot ∷ []))
          (set s.rt.threads slot (record (thread_at s.rt slot) { state = ThreadState.blocked })) r.0
        × (r.1 ≡ suspended slot))

taken-Units :
    (p : ℕ) (s t : Sys)
    → IsValid (s.sems p).wq
    → t.sems ≡ (put_sem s p (record (s.sems p) { count = (s.sems p).count - 1 })).sems
    → t.rt.threads ≡ s.rt.threads
    → Units p ((s.sems p).count - 1) (contents (s.sems p).wq) s.rt.threads t
taken-Units p s t v e w =
    let at =
      ap (λ f. f p) e ∙ put_self s.sems p (record (s.sems p) { count = (s.sems p).count - 1 }) in
    record {
      count = ap (λ i. i.count) at;
      valid = subst (λ i. IsValid i.wq) (sym at) v;
      queue = ap (λ i. contents i.wq) at;
      table = w;
    }

block-Units :
    (p slot : ℕ) (s : Sys)
    → (s.sems p).count ≡ 0
    → IsValid (s.sems p).wq
    → (s.sems p).wq.count < (s.sems p).wq.capacity
    → slot < max_threads
    → Units p 0
        (contents (s.sems p).wq ++ (slot ∷ []))
        (set s.rt.threads slot (record (thread_at s.rt slot) { state = ThreadState.blocked }))
        (sem_block p slot s)
unfolding sem_block trace_record
block-Units p slot s zero_count v room h =
    let i = s.sems p in
    let at = put_self s.sems p (record i { wq = enqueue i.wq (u8 slot) }) in
    let same : u8 slot ≡ slot = omega arith in
    record {
      count = ap (λ x. x.count) at ∙ zero_count;
      valid = subst (λ x. IsValid x.wq) (sym at) (enqueue-IsValid i.wq (u8 slot) v);
      queue =
          ap (λ x. contents x.wq) at
          ∙ contents-enqueue i.wq (u8 slot) v room
          ∙ ap (λ x. contents i.wq ++ (x ∷ [])) same;
      table = refl;
    }

-- `gth_sem_wait` on an initialised semaphore with a valid queue. With a unit it takes it. Without
-- one it fails and changes nothing when no thread calls or the queue is full; otherwise the caller is blocked,
-- stands last in the queue, and the count stays 0.
pub sem_wait_lem :
    (p : ℕ) (s : Sys)
    → p ≢ 0
    → (s.sems p).initialized ≢ 0
    → IsValid (s.sems p).wq
    → Waited p s (sem_wait p s)
unfolding sem_wait trace_record is_full
sem_wait_lem p s a on v =
    let i = s.sems p in
    let slot = current_slot_index s.rt in
    let P = Waited p s in
    if-cases P (p == 0) (λ h. absurd (a (ground (arith, h))))
      (λ h.
        if-cases P (i.initialized == 0) (λ h. absurd (on (ground (arith, h))))
          (λ h.
            if-both (not (i.count == 0)) _ _ (λ some_units. (taken-Units p s _ v refl refl, refl))
              (λ no_units.
                if-both (leb max_threads slot) _ _ (λ outside. (refl, refl))
                  (λ inside.
                    if-both (leb i.wq.capacity i.wq.count) _ _ (λ full. (refl, refl))
                      (λ room. (
                        block-Units p slot s (ground (arith, no_units)) v (ground (arith, room))
                            (ground (arith, inside)),
                        refl,
                      ))))))
