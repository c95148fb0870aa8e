-- ===== src/Sync/Cond/Signal.antt =====
-- src/sync/cond.c: the thread that `gth_cond_signal` wakes.
use gthreads.Base.{
  ℕ, ◌<◌, ◌≡◌, ◌≢◌, refl, sym, ap, ◌∙◌, subst, List, [], ◌∷◌, true, arith, ◌==◌, length, if-cases,
}
use gthreads.State.{Thread, Status, ok}
use gthreads.Trace.{trace_cond_signal}
use gthreads.Trace.Format.{EventType}
use gthreads.Runtime.{max_threads, thread_at}
use gthreads.Thread.{thread_self, unblock_slot}
use gthreads.Thread.Wake.{woken, unblock_slot-woken}
use gthreads.WaitQueue.{dequeue, is_empty}
use gthreads.WaitQueue.Ring.{IsValid, contents, entry, length-collect}
use gthreads.WaitQueue.Remove.{has}
use gthreads.WaitQueue.Head.{Head, dequeue-Head}
use gthreads.Sync.Objects.{Sys, put_self, put_cond}
use gthreads.Sync.Cond.{cond_signal, signal_one}

-- The condition at `c` and the table.
pub record Condition (c : ℕ) (waiters : List ℕ) (threads : List Thread) (s : Sys) : Type 0 where
  pub valid : IsValid (s.conds c).wq
  pub queue : contents (s.conds c).wq ≡ waiters
  pub table : s.rt.threads ≡ threads

-- What `gth_cond_signal` does by the waiters that it finds.
abbrev pub Signalled : ℕ → Sys → List ℕ → Sys × Status → Type 0
Signalled c s [] (s', status) = (s' ≡ s) × (status ≡ ok)
Signalled c s (x ∷ rest) (s', status) = Condition c rest (woken x s.rt) s' × (status ≡ ok)

signal_one-some :
    (c x : ℕ) (rest : List ℕ) (s : Sys)
    → Head (s.conds c).wq x rest
    → x < max_threads
    → let popped = put_cond s c (record (s.conds c) { wq = (dequeue (s.conds c).wq).0 }) in
      signal_one c s ≡ record popped {
        rt =
            (unblock_slot x (trace_cond_signal (thread_self s.rt) c (thread_at s.rt x).tid s.rt)).0;
      }
unfolding signal_one dequeue
signal_one-some c x rest s h inside = ground arith

signal_one-Condition :
    (c x : ℕ) (rest : List ℕ) (s : Sys)
    → Head (s.conds c).wq x rest
    → s.rt.initialized ≡ true
    → x < max_threads
    → Condition c rest (woken x s.rt) (signal_one c s)
signal_one-Condition c x rest s h on inside = rw (signal_one-some c x rest s h inside) (record {
  valid = subst (λ i. IsValid i.wq) (sym (put_self s.conds c _)) h.valid;
  queue = ap (λ i. contents i.wq) (put_self s.conds c _) ∙ h.queue;
  table =
      unblock_slot-woken x EventType.cond_signal (thread_self s.rt) c (thread_at s.rt x).tid s.rt on
        inside;
})

-- `gth_cond_signal` on an initialised condition with a valid queue succeeds. With no waiter it
-- changes nothing. Otherwise the longest waiter leaves the queue and, if it is blocked, becomes
-- ready, and no other thread changes.
pub cond_signal_lem :
    (c : ℕ) (l : List ℕ) (s : Sys)
    → c ≢ 0
    → (s.conds c).initialized ≢ 0
    → IsValid (s.conds c).wq
    → contents (s.conds c).wq ≡ l
    → s.rt.initialized ≡ true
    → ((x : ℕ) → has x l ≡ true → x < max_threads)
    → Signalled c s l (cond_signal c s)
unfolding cond_signal is_empty has
cond_signal_lem c [] s a i v e on inside =
    let idle : (s.conds c).wq.count ≡ 0 =
      ground (arith, length-collect (entry (s.conds c).wq) 0 (s.conds c).wq.count, ap length e) in
    let P = Signalled c s [] in
    if-cases P (c == 0) (λ h. absurd (a (ground (arith, h))))
      (λ h.
        if-cases P ((s.conds c).initialized == 0) (λ h. absurd (i (ground (arith, h))))
          (λ h.
            if-cases P ((s.conds c).wq.count == 0) (λ h. (refl, refl))
              (λ h. absurd (ground (arith, h, idle)))))
cond_signal_lem c (x ∷ rest) s a i v e on inside =
    let h = dequeue-Head (s.conds c).wq x rest v e in
    let P = Signalled c s (x ∷ rest) in
    if-cases P (c == 0) (λ h. absurd (a (ground (arith, h))))
      (λ k.
        if-cases P ((s.conds c).initialized == 0) (λ h. absurd (i (ground (arith, h))))
          (λ k.
            if-cases P (is_empty (s.conds c).wq) (λ k. cc (sym k ∙ h.waits))
              (λ k. (signal_one-Condition c x rest s h on (inside x (ground arith)), refl))))
