-- ===== src/Sync/Sem/Units.antt =====
-- src/sync/sem.c: where the units of a semaphore go.
use gthreads.Base.{
  ℕ, ◌+◌, ◌<◌, ◌≡◌, ◌≢◌, refl, sym, ap, ◌∙◌, subst, List, [], ◌∷◌, true, false, arith, ◌==◌, length,
  Bool-cases, inl, inr, if◌then◌else◌,
}
use gthreads.State.{Thread, Status, ok, einval}
use gthreads.Trace.{trace_record, trace_sem_wake}
use gthreads.Runtime.{max_threads}
use gthreads.Thread.Wake.{woken, unblock_slot-woken}
use gthreads.Trace.Format.{EventType}
use gthreads.Thread.{thread_self, unblock_slot}
use gthreads.WaitQueue.{dequeue, is_empty}
use gthreads.WaitQueue.Ring.{IsValid, contents, entry, length-collect}
use gthreads.WaitQueue.Remove.{has}
use gthreads.WaitQueue.Head.{Head, dequeue-Head}
use gthreads.Sync.Objects.{Sys, put_self, put_sem}
use gthreads.Sync.Sem.{uint32_max, sem_post, sem_hand_over, sem_traced}

-- The semaphore at `p` and the table.
pub record Units (p units : ℕ) (waiters : List ℕ) (threads : List Thread) (s : Sys) : Type 0 where
  pub count : (s.sems p).count ≡ units
  pub valid : IsValid (s.sems p).wq
  pub queue : contents (s.sems p).wq ≡ waiters
  pub table : s.rt.threads ≡ threads

-- What `gth_sem_post` does by the waiters that it finds.
abbrev pub Posted : ℕ → Sys → List ℕ → Sys × Status → Type 0
Posted p s [] (s', status) =
    if (s.sems p).count == uint32_max
    then (s' ≡ s) × (status ≡ einval)
    else Units p ((s.sems p).count + 1) [] s.rt.threads s' × (status ≡ ok)
Posted p s (x ∷ rest) (s', status) = Units p (s.sems p).count rest (woken x s.rt) s' × (status ≡ ok)

abbrev sem_popped : ℕ → Sys → Sys
sem_popped p s = put_sem s p (record (s.sems p) { wq = (dequeue (s.sems p).wq).0 })

sem_hand_over-some :
    (p x : ℕ) (rest : List ℕ) (s : Sys)
    → Head (s.sems p).wq x rest
    → x < max_threads
    → sem_hand_over p s ≡ record (sem_popped p s) {
      rt = (unblock_slot x (trace_sem_wake (thread_self s.rt) p s.rt)).0;
    }
unfolding sem_hand_over dequeue
sem_hand_over-some p x rest s h inside = ground arith

sem_post-waiters :
    (p : ℕ) (s : Sys)
    → p ≢ 0
    → (s.sems p).initialized ≢ 0
    → is_empty (s.sems p).wq ≡ false
    → sem_post p s ≡ (sem_traced p (sem_hand_over p s), ok)
unfolding sem_post
sem_post-waiters p s a i h = ground arith

sem_post-none :
    (p : ℕ) (s : Sys)
    → p ≢ 0
    → (s.sems p).initialized ≢ 0
    → is_empty (s.sems p).wq ≡ true
    → sem_post p s ≡ (
        if (s.sems p).count == uint32_max
        then (s, einval)
        else (sem_traced p (put_sem s p (record (s.sems p) { count = (s.sems p).count + 1 })), ok))
unfolding sem_post
sem_post-none p s a i h = ground arith

traced-Units :
    (p units : ℕ) (l : List ℕ) (ts : List Thread) (s : Sys)
    → Units p units l ts s
    → Units p units l ts (sem_traced p s)
unfolding sem_traced trace_record
traced-Units p units l ts s u = record {
  count = u.count;
  valid = u.valid;
  queue = u.queue;
  table = u.table;
}

raised-Units :
    (p : ℕ) (s : Sys)
    → IsValid (s.sems p).wq
    → contents (s.sems p).wq ≡ []
    → Units p
        ((s.sems p).count + 1)
        []
        s.rt.threads
        (put_sem s p (record (s.sems p) { count = (s.sems p).count + 1 }))
raised-Units p s v e = record {
  count = ap (λ i. i.count) (put_self s.sems p _);
  valid = subst (λ i. IsValid i.wq) (sym (put_self s.sems p _)) v;
  queue = ap (λ i. contents i.wq) (put_self s.sems p _) ∙ e;
  table = refl;
}

handed-Units :
    (p x : ℕ) (rest : List ℕ) (s : Sys)
    → Head (s.sems p).wq x rest
    → s.rt.initialized ≡ true
    → x < max_threads
    → Units p (s.sems p).count rest (woken x s.rt) (sem_hand_over p s)
handed-Units p x rest s h on inside = rw (sem_hand_over-some p x rest s h inside) (record {
  count = ap (λ i. i.count) (put_self s.sems p _);
  valid = subst (λ i. IsValid i.wq) (sym (put_self s.sems p _)) h.valid;
  queue = ap (λ i. contents i.wq) (put_self s.sems p _) ∙ h.queue;
  table = unblock_slot-woken x EventType.sem_wake (thread_self s.rt) p 0 s.rt on inside;
})

-- `gth_sem_post` on an initialised semaphore with a valid queue. With no waiter it adds one unit, or
-- fails without a change at `UINT32_MAX`. Otherwise the count stays as it is, the longest waiter
-- leaves the queue and, if it is blocked, becomes ready.
pub sem_post_lem :
    (p : ℕ) (l : List ℕ) (s : Sys)
    → p ≢ 0
    → (s.sems p).initialized ≢ 0
    → IsValid (s.sems p).wq
    → contents (s.sems p).wq ≡ l
    → s.rt.initialized ≡ true
    → ((x : ℕ) → has x l ≡ true → x < max_threads)
    → Posted p s l (sem_post p s)
unfolding is_empty has
sem_post_lem p [] s a i v e on inside =
    let idle : ((s.sems p).wq.count == 0) ≡ true =
      ground (arith, length-collect (entry (s.sems p).wq) 0 (s.sems p).wq.count, ap length e) in
    rw (sem_post-none p s a i idle) (elim (Bool-cases ((s.sems p).count == uint32_max)) [
      | inl full ↦ rw full (refl, refl)
      | inr room ↦
          let raised = put_sem s p (record (s.sems p) { count = (s.sems p).count + 1 }) in
          rw room (
            traced-Units p ((s.sems p).count + 1) [] s.rt.threads raised (raised-Units p s v e),
            refl,
          )
    ])
sem_post_lem p (x ∷ rest) s a i v e on inside =
    let h = dequeue-Head (s.sems p).wq x rest v e in
    rw (sem_post-waiters p s a i h.waits) (
      traced-Units p (s.sems p).count rest (woken x s.rt) (sem_hand_over p s)
          (handed-Units p x rest s h on (inside x (ground arith))),
      refl,
    )
