-- ===== src/Sync/Cond/Broadcast.antt =====
-- src/sync/cond.c: `gth_cond_broadcast` empties the queue and wakes every blocked waiter.
use gthreads.Base.{
  ℕ, zero, suc, ◌+◌, ◌<◌, ◌≡◌, ◌≢◌, refl, sym, ap, ◌∙◌, subst, List, [], ◌∷◌, true, false, arith,
  ◌==◌, ==_iff, Bool-cases, inl, inr, length, if◌then◌else◌, length-set, ◌||◌, u32,
}
use gthreads.State.{Thread, ok, ThreadState, RuntimeState}
use gthreads.Trace.{trace_record}
use gthreads.Runtime.{max_threads, thread_at, is_ready, is_blocked}
use gthreads.Runtime.Table.{get_or-set}
use gthreads.Thread.{unblock_slot}
use gthreads.WaitQueue.{dequeue, is_empty}
use gthreads.WaitQueue.Ring.{IsValid, contents, entry, length-collect}
use gthreads.WaitQueue.Remove.{has}
use gthreads.WaitQueue.Head.{Head, dequeue-Head}
use gthreads.Sync.Objects.{Sys, put_self, put_cond}
use gthreads.Sync.Cond.{broadcast_one, broadcast_loop, cond_broadcast}

abbrev made_ready : RuntimeState → ℕ → Thread
made_ready s x = record (thread_at s x) { state = ThreadState.ready }

-- A thread stays ready, and a blocked one becomes ready or stays blocked, when a slot is unblocked.
unblock_slot-ready :
    (x y : ℕ) (s : RuntimeState)
    → x < length s.threads
    → is_ready (thread_at s y).state ≡ true
    → is_ready (thread_at (unblock_slot x s).0 y).state ≡ true
unfolding unblock_slot trace_record
unblock_slot-ready x y s h r = ground (arith, get_or-set s.threads x y (made_ready s x))

-- A thread that waits, or waits no more.
abbrev pub Alive : RuntimeState → ℕ → Type 0
Alive s y = is_blocked (thread_at s y).state || is_ready (thread_at s y).state ≡ true

unblock_slot-Alive :
    (x y : ℕ) (s : RuntimeState) → x < length s.threads → Alive s y → Alive (unblock_slot x s).0 y
unfolding unblock_slot trace_record
unblock_slot-Alive x y s h r = ground (arith, get_or-set s.threads x y (made_ready s x))

unblock_slot_self :
    (x : ℕ) (s : RuntimeState)
    → s.initialized ≡ true
    → x < max_threads
    → x < length s.threads
    → Alive s x
    → is_ready (thread_at (unblock_slot x s).0 x).state ≡ true
unfolding unblock_slot trace_record
unblock_slot_self x s on inside h r = ground (arith, get_or-set s.threads x x (made_ready s x))

unblock_slot-fields :
    (x : ℕ) (s : RuntimeState)
    → (length (unblock_slot x s).0.threads ≡ length s.threads)
      × ((unblock_slot x s).0.initialized ≡ s.initialized)
unfolding unblock_slot trace_record
unblock_slot-fields x s = ground (arith, length-set s.threads x (made_ready s x))

-- One round.
abbrev rung : ℕ → ℕ → Sys → Sys
rung c x s = record (put_cond s c (record (s.conds c) { wq = (dequeue (s.conds c).wq).0 })) {
  rt = (unblock_slot x s.rt).0;
}

broadcast_one-rung :
    (c x : ℕ) (rest : List ℕ) (s : Sys) (n : ℕ)
    → Head (s.conds c).wq x rest
    → x < max_threads
    → broadcast_one c s n ≡ (rung c x s, u32 (n + 1))
unfolding broadcast_one dequeue
broadcast_one-rung c x rest s n h inside = ground arith

-- A slot that the list holds.
abbrev pub Holds : List ℕ → ℕ → Type 0
Holds l y = has y l ≡ true

-- What the broadcast needs of the condition and of the runtime.
pub record Waiting (c : ℕ) (l : List ℕ) (s : Sys) : Type 0 where
  pub valid : IsValid (s.conds c).wq
  pub queue : contents (s.conds c).wq ≡ l
  pub inside : (y : ℕ) → Holds l y → y < max_threads
  pub running : s.rt.initialized ≡ true
  pub slots : length s.rt.threads ≡ max_threads

rung-Waiting :
    (c x : ℕ) (rest : List ℕ) (s : Sys) → Waiting c (x ∷ rest) s → Waiting c rest (rung c x s)
unfolding has
rung-Waiting c x rest s w =
    let h = dequeue-Head (s.conds c).wq x rest w.valid w.queue in
    record {
      valid = subst (λ i. IsValid i.wq) (sym (put_self s.conds c _)) h.valid;
      queue = ap (λ i. contents i.wq) (put_self s.conds c _) ∙ h.queue;
      inside = λ y m. w.inside y (ground arith);
      running = (unblock_slot-fields x s.rt).1 ∙ w.running;
      slots = (unblock_slot-fields x s.rt).0 ∙ w.slots;
    }

-- What the loop has done.
pub record WokenAll (c : ℕ) (l : List ℕ) (s s' : Sys) : Type 0 where
  pub emptied : is_empty (s'.conds c).wq ≡ true
  pub kept :
      (y : ℕ) → is_ready (thread_at s.rt y).state ≡ true → is_ready (thread_at s'.rt y).state ≡ true
  pub woken : (y : ℕ) → Holds l y → Alive s.rt y → is_ready (thread_at s'.rt y).state ≡ true

WokenAll-rung :
    (c x : ℕ) (l : List ℕ) (s s' : Sys)
    → Waiting c (x ∷ l) s
    → x < max_threads
    → WokenAll c l (rung c x s) s'
    → WokenAll c (x ∷ l) s s'
unfolding has
WokenAll-rung c x l s s' w inside ih = record {
  emptied = ih.emptied;
  kept = λ y r. ih.kept y (unblock_slot-ready x y s.rt fits r);
  woken = λ y h a. elim (Bool-cases (x == y)) [
    | inl e ↦ ih.kept y (
        subst (λ z. is_ready (thread_at (unblock_slot x s.rt).0 z).state ≡ true) ((==_iff x y).0 e)
          (unblock_slot_self x s.rt w.running inside fits
            (subst (Alive s.rt) (sym ((==_iff x y).0 e)) a)))
    | inr ne ↦ ih.woken y (ground arith) (unblock_slot-Alive x y s.rt fits a)
  ];
}
  where
    fits : x < length s.rt.threads
    fits = omega (arith, w.slots)

broadcast_loop-suc :
    (fuel c : ℕ) (s : Sys) (n : ℕ)
    → broadcast_loop (suc fuel) c s n ≡ (
        if is_empty (s.conds c).wq
        then (s, n)
        else broadcast_loop fuel c (broadcast_one c s n).0 (broadcast_one c s n).1)
unfolding broadcast_loop
broadcast_loop-suc fuel c s n = refl

broadcast_loop-rung :
    (fuel c x : ℕ) (l : List ℕ) (s : Sys) (n : ℕ)
    → Head (s.conds c).wq x l
    → x < max_threads
    → broadcast_loop (suc fuel) c s n ≡ broadcast_loop fuel c (rung c x s) (u32 (n + 1))
unfolding is_empty
broadcast_loop-rung fuel c x l s n h inside =
    broadcast_loop-suc fuel c s n
    ∙ rw (h.waits) (ap (λ r. broadcast_loop fuel c r.0 r.1) (broadcast_one-rung c x l s n h inside))

broadcast_loop-WokenAll :
    (l : List ℕ) (fuel c : ℕ) (s : Sys) (n : ℕ)
    → Waiting c l s
    → length l ≡ fuel
    → WokenAll c l s (broadcast_loop fuel c s n).0
unfolding broadcast_loop has is_empty
broadcast_loop-WokenAll [] zero c s n w e = record {
  emptied =
      ground
        (arith, length-collect (entry (s.conds c).wq) 0 (s.conds c).wq.count, ap length w.queue);
  kept = λ y r. r;
  woken = λ y h. cc;
}
broadcast_loop-WokenAll [] (suc fuel) c s n w e = absurd (omega arith)
broadcast_loop-WokenAll (x ∷ l) zero c s n w e = absurd (omega arith)
broadcast_loop-WokenAll (x ∷ l) (suc fuel) c s n w e =
    let h = dequeue-Head (s.conds c).wq x l w.valid w.queue in
    let inside = w.inside x (ground arith) in
    subst (λ r. WokenAll c (x ∷ l) s r.0) (sym (broadcast_loop-rung fuel c x l s n h inside))
      (WokenAll-rung c x l s _ w inside (
        broadcast_loop-WokenAll l fuel c (rung c x s) (u32 (n + 1)) (rung-Waiting c x l s w)
          (omega arith)))

-- `gth_cond_broadcast` on an initialised condition with a valid queue succeeds and leaves the queue
-- empty. Every thread that was in it and was blocked, or had been made ready, is ready afterwards,
-- and no thread that was ready is ready no more.
pub cond_broadcast-wakes_all :
    (c : ℕ) (s : Sys)
    → c ≢ 0
    → (s.conds c).initialized ≢ 0
    → Waiting c (contents (s.conds c).wq) s
    → let (s', status) = cond_broadcast c s in
      (status ≡ ok) × WokenAll c (contents (s.conds c).wq) s s'
unfolding cond_broadcast trace_record
cond_broadcast-wakes_all c s a i w =
    let l = contents (s.conds c).wq in
    let done =
      broadcast_loop-WokenAll l (s.conds c).wq.count c s 0 w
        (length-collect (entry (s.conds c).wq) 0 (s.conds c).wq.count) in
    let p : (c == 0) ≡ false = ground arith in
    let q : ((s.conds c).initialized == 0) ≡ false = ground arith in
    rw (p, q) (refl, record { emptied = done.emptied; kept = done.kept; woken = done.woken })
