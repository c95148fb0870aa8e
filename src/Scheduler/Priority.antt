-- ===== src/Scheduler/Priority.antt =====
-- src/sched/scheduler.c: priority selection.

use gthreads.Base.{
  ℕ, zero, suc, ◌+◌, ◌<◌, ◌≤◌, ◌≡◌, refl, sym, subst, List, true, false, if◌then◌else◌, Option,
  none, some, arith, Bool-cases, inl, inr, length, get_or, ℕ_discrete, drop, drop-eq-cons,
  drop-length, ◌⊎◌,
}
use gthreads.State.{Policy, Thread, RuntimeState}
use gthreads.Runtime.{zero_thread, thread_at, is_ready}
use gthreads.Scheduler.Select.{beats, better, priority_from, slot_of, pick_by, pick_ready_thread}

-- `best` is the choice among the first `n` records: a ready one that no ready one beats, or none of
-- them is ready.
abbrev pub BestOf : List Thread → ℕ → Option (ℕ × Thread) → Type 0
BestOf ts n none = (j : ℕ) → j < n → is_ready (get_or ts j zero_thread).state ≡ false
BestOf ts n (some (i, best)) =
    (i < n)
    × (best ≡ get_or ts i zero_thread)
    × (is_ready best.state ≡ true)
    × ((j : ℕ)
        → j < n
        → is_ready (get_or ts j zero_thread).state ≡ true
        → beats (get_or ts j zero_thread) best ≡ false)

beats_trans : (a b c : Thread) → beats a b ≡ false → beats c b ≡ true → beats a c ≡ false
unfolding beats
beats_trans a b c h k = ground arith

beats_irrefl : (a : Thread) → beats a a ≡ false
unfolding beats
beats_irrefl a = ground arith

better-BestOf :
    (ts : List Thread) (n : ℕ) (best : Option (ℕ × Thread))
    → BestOf ts n best
    → is_ready (get_or ts n zero_thread).state ≡ true
    → BestOf ts (n + 1) (better n (get_or ts n zero_thread) best)
unfolding better
better-BestOf ts n none v r = (
  omega arith,
  refl,
  r,
  λ j h e. elim (ℕ_discrete j n) [
    | yes q ↦
        subst (λ x. beats (get_or ts x zero_thread) (get_or ts n zero_thread) ≡ false) (sym q)
          (beats_irrefl (get_or ts n zero_thread))
    | no ne ↦ cc (v j (omega arith))
  ],
)
better-BestOf ts n (some (i, best)) v r = elim (Bool-cases (beats (get_or ts n zero_thread) best)) [
  | inl wins ↦ rw wins (
    omega arith,
    refl,
    r,
    λ j h e. elim (ℕ_discrete j n) [
      | yes q ↦
          subst (λ x. beats (get_or ts x zero_thread) (get_or ts n zero_thread) ≡ false) (sym q)
            (beats_irrefl (get_or ts n zero_thread))
      | no ne ↦
          beats_trans (get_or ts j zero_thread) best (get_or ts n zero_thread)
            (v.3 j (omega arith) e) wins
    ],
  )
  | inr loses ↦ rw loses (
    omega (arith, v.0),
    v.1,
    v.2,
    λ j h e. elim (ℕ_discrete j n) [
      | yes q ↦ subst (λ x. beats (get_or ts x zero_thread) best ≡ false) (sym q) loses
      | no ne ↦ v.3 j (omega arith) e
    ],
  )
]

-- One slot of the loop.
abbrev considered : Thread → ℕ → Option (ℕ × Thread) → Option (ℕ × Thread)
considered t i best = if is_ready t.state then better i t best else best

skipped-BestOf :
    (ts : List Thread) (n : ℕ) (best : Option (ℕ × Thread))
    → BestOf ts n best
    → is_ready (get_or ts n zero_thread).state ≡ false
    → BestOf ts (suc n) best
skipped-BestOf ts n none v r = λ j h. elim (ℕ_discrete j n) [
  | yes q ↦ subst (λ x. is_ready (get_or ts x zero_thread).state ≡ false) (sym q) r
  | no ne ↦ v j (omega arith)
]
skipped-BestOf ts n (some (i, best)) v r = (
  omega (arith, v.0),
  v.1,
  v.2,
  λ j h e. elim (ℕ_discrete j n) [
    | yes q ↦ cc (subst (λ x. is_ready (get_or ts x zero_thread).state ≡ false) (sym q) r)
    | no ne ↦ v.3 j (omega arith) e
  ],
)

considered-BestOf :
    (ts : List Thread) (n : ℕ) (best : Option (ℕ × Thread))
    → BestOf ts n best
    → BestOf ts (suc n) (considered (get_or ts n zero_thread) n best)
considered-BestOf ts n best v = elim (Bool-cases (is_ready (get_or ts n zero_thread).state)) [
  | inl r ↦ rw r (
      subst (λ m. BestOf ts m (better n (get_or ts n zero_thread) best)) (omega arith)
        (better-BestOf ts n best v r))
  | inr r ↦ rw r (skipped-BestOf ts n best v r)
]

priority_from-BestOf :
    (ts : List Thread) (rounds n : ℕ) (best : Option (ℕ × Thread))
    → n + rounds ≡ length ts
    → BestOf ts n best
    → BestOf ts (length ts) (priority_from (drop n ts) n best)
unfolding priority_from
priority_from-BestOf ts zero n best e v =
    let q : n ≡ length ts = omega arith in
    subst (λ m. BestOf ts (length ts) (priority_from (drop m ts) m best)) (sym q)
      (rw (drop-length ts) (subst (λ m. BestOf ts m best) q v))
priority_from-BestOf ts (suc rounds) n best e v =
    let b = considered (get_or ts n zero_thread) n best in
    subst (λ l. BestOf ts (length ts) (priority_from l n best))
      (sym (drop-eq-cons n ts zero_thread (omega arith)))
      (subst (λ m. BestOf ts (length ts) (priority_from (drop (suc n) ts) m b)) (omega arith)
        (priority_from-BestOf ts rounds (suc n) b (omega arith) (considered-BestOf ts n best v)))

-- Whether the first thread may run before the second: a higher priority, or the same and an
-- identifier that is not larger.
abbrev pub Precedes : Thread → Thread → Type 0
Precedes t u = (u.priority < t.priority) ⊎ ((t.priority ≡ u.priority) × (t.tid ≤ u.tid))

-- What `gth_scheduler_pick_ready_thread` gives under a policy other than round robin: a ready thread
-- that precedes every ready thread, or NULL when none is ready. The state does not change.
abbrev pub PriorityPick : RuntimeState → RuntimeState × Option ℕ → Type 0
PriorityPick s (s', none) =
    (s' ≡ s) × ((j : ℕ) → j < length s.threads → is_ready (thread_at s j).state ≡ false)
PriorityPick s (s', some slot) =
    (s' ≡ s)
    × (slot < length s.threads)
    × (is_ready (thread_at s slot).state ≡ true)
    × ((j : ℕ)
        → j < length s.threads
        → is_ready (thread_at s j).state ≡ true
        → Precedes (thread_at s slot) (thread_at s j))

not-beats-Precedes : (t u : Thread) → beats u t ≡ false → Precedes t u
unfolding beats
not-beats-Precedes t u h = ground arith

BestOf-PriorityPick :
    (s : RuntimeState) (best : Option (ℕ × Thread))
    → BestOf s.threads (length s.threads) best
    → PriorityPick s (s, slot_of best)
BestOf-PriorityPick s none v = (refl, v)
BestOf-PriorityPick s (some (i, t)) v = (
  refl,
  v.0,
  subst (λ x. is_ready x.state ≡ true) v.1 v.2,
  λ j h e.
      subst (λ x. Precedes x (thread_at s j)) v.1
        (not-beats-Precedes t (thread_at s j) (v.3 j h e)),
)

-- Under the priority policy `gth_scheduler_pick_ready_thread` returns a ready thread of the highest
-- priority among the ready ones, the one with the smallest identifier among those, and NULL exactly
-- when it has found no thread of the table ready; the state does not change.
pub pick_ready_thread-priority :
    (s : RuntimeState) → s.config.policy ≡ Policy.priority → PriorityPick s (pick_ready_thread s)
unfolding pick_ready_thread pick_by
pick_ready_thread-priority s e =
    subst (λ p. PriorityPick s (pick_by p s)) (sym e)
      (BestOf-PriorityPick s (priority_from s.threads 0 none) (
        priority_from-BestOf s.threads (length s.threads) 0 none (omega arith)
          (λ j h. absurd (omega arith))))
