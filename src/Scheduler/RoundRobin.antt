-- ===== src/Scheduler/RoundRobin.antt =====
-- src/sched/scheduler.c: round-robin selection finds the next ready slot after the last one, and no
-- ready thread waits for ever.
use gthreads.Base.{
  ℕ, zero, suc, ◌+◌, ◌-◌, ◌%◌, ◌≤◌, ◌<◌, ◌≡◌, ◌≢◌, refl, ap, ◌∙◌, true, false, Option, none, some,
  arith, Bool-cases, inl, inr, subst, sym, ℕ_discrete, dec_lt,
}
use mathlib.Core.Option.{some-injective}
use gthreads.State.{Policy, RuntimeState}
use gthreads.Runtime.{max_threads, thread_at, is_ready}
use gthreads.Scheduler.Select.{rr_from, pick_rr, pick_by, pick_ready_thread}

-- The slot that round robin looks at in round `i`, when the last choice was `last`.
abbrev pub looked_at : ℕ → ℕ → ℕ
looked_at last i = ((last + 1) % max_threads + i) % max_threads

-- The rounds from the slot behind `last` to `slot`.
abbrev pub distance : ℕ → ℕ → ℕ
distance last slot = (slot + max_threads - (last + 1) % max_threads) % max_threads

-- The loop stops in the first round that looks at a ready thread.
record Stopped (s : RuntimeState) (start i rounds slot : ℕ) : Type 0 where
  round : ℕ
  low : i ≤ round
  high : round < i + rounds
  at : slot ≡ (start + round) % max_threads
  ready : is_ready (thread_at s slot).state ≡ true
  earlier :
      (j : ℕ) → i ≤ j → j < round → is_ready (thread_at s ((start + j) % max_threads)).state ≡ false

rr_from-some :
    (s : RuntimeState) (start i rounds slot : ℕ)
    → rr_from s start i rounds ≡ some slot
    → Stopped s start i rounds slot
unfolding rr_from
rr_from-some s start i zero slot e = cc
rr_from-some s start i (suc rounds) slot e =
    elim (Bool-cases (is_ready (thread_at s ((start + i) % max_threads)).state)) [
      | inl hit ↦
          let q = some-injective ((start + i) % max_threads) slot (rw hit at e) in
          record {
            round = i;
            low = omega arith;
            high = omega arith;
            at = sym q;
            ready = subst (λ x. is_ready (thread_at s x).state ≡ true) q hit;
            earlier = λ j p r. absurd (omega arith);
          }
      | inr miss ↦
          let ih = rr_from-some s start (i + 1) rounds slot (rw miss at e) in
          record {
            round = ih.round;
            low = omega (arith, ih.low);
            high = omega (arith, ih.high);
            at = ih.at;
            ready = ih.ready;
            earlier = λ j p r. elim (ℕ_discrete i j) [
              | yes q ↦
                  subst (λ x. is_ready (thread_at s ((start + x) % max_threads)).state ≡ false) q
                    miss
              | no ne ↦ ih.earlier j (omega arith) r
            ];
          }
    ]

rr_from-none :
    (s : RuntimeState) (start i rounds : ℕ)
    → rr_from s start i rounds ≡ none
    → (j : ℕ) → i ≤ j
    → j < i + rounds
    → is_ready (thread_at s ((start + j) % max_threads)).state ≡ false
unfolding rr_from
rr_from-none s start i zero e j p q = absurd (omega arith)
rr_from-none s start i (suc rounds) e j p q =
    elim (Bool-cases (is_ready (thread_at s ((start + i) % max_threads)).state)) [
      | inl hit ↦ absurd (ground arith)
      | inr miss ↦ elim (ℕ_discrete i j) [
        | yes r ↦
            subst (λ x. is_ready (thread_at s ((start + x) % max_threads)).state ≡ false) r miss
        | no ne ↦ rr_from-none s start (i + 1) rounds (rw miss at e) j (omega arith) (omega arith)
      ]
    ]

-- What `gth_scheduler_pick_ready_thread` gives under the round-robin policy: the first ready slot
-- from the one behind the last choice on, going round once, and that slot is the last choice of the
-- next call; or NULL, when no thread in the table is ready.
abbrev pub RoundRobinPick : RuntimeState → RuntimeState × Option ℕ → Type 0
RoundRobinPick s (s', none) =
    (s' ≡ s) × ((slot : ℕ) → slot < max_threads → is_ready (thread_at s slot).state ≡ false)
RoundRobinPick s (s', some slot) =
    (s' ≡ record s { last_rr_slot = slot })
    × (slot < max_threads)
    × (is_ready (thread_at s slot).state ≡ true)
    × ((other : ℕ)
        → other < max_threads
        → distance s.last_rr_slot other < distance s.last_rr_slot slot
        → is_ready (thread_at s other).state ≡ false)

looked_at-distance :
    (last slot : ℕ) → slot < max_threads → looked_at last (distance last slot) ≡ slot
looked_at-distance last slot h = omega arith

distance-lt : (last slot : ℕ) → distance last slot < max_threads
distance-lt last slot = omega arith

Stopped-RoundRobinPick :
    (s : RuntimeState) (slot : ℕ)
    → Stopped s ((s.last_rr_slot + 1) % max_threads) 0 max_threads slot
    → RoundRobinPick s (record s { last_rr_slot = slot }, some slot)
Stopped-RoundRobinPick s slot t = (
  refl,
  omega (arith, t.at),
  t.ready,
  λ other h near.
      subst (λ x. is_ready (thread_at s x).state ≡ false)
        (looked_at-distance s.last_rr_slot other h)
        (t.earlier (distance s.last_rr_slot other) (omega arith)
          (omega (arith, t.at, t.high, near))),
)

pick_rr-RoundRobinPick :
    (s : RuntimeState) (o : Option ℕ)
    → rr_from s ((s.last_rr_slot + 1) % max_threads) 0 max_threads ≡ o
    → RoundRobinPick s (pick_rr s o)
unfolding pick_rr
pick_rr-RoundRobinPick s none e = (
  refl,
  λ slot h.
      subst (λ x. is_ready (thread_at s x).state ≡ false) (looked_at-distance s.last_rr_slot slot h)
        (rr_from-none s ((s.last_rr_slot + 1) % max_threads) 0 max_threads e
          (distance s.last_rr_slot slot) (omega arith)
          (omega (arith, distance-lt s.last_rr_slot slot))),
)
pick_rr-RoundRobinPick s (some slot) e =
    Stopped-RoundRobinPick s slot
      (rr_from-some s ((s.last_rr_slot + 1) % max_threads) 0 max_threads slot e)

pick_by-rr : (s : RuntimeState) → RoundRobinPick s (pick_by Policy.rr s)
unfolding pick_by
pick_by-rr s = pick_rr-RoundRobinPick s _ refl

-- Under the round-robin policy `gth_scheduler_pick_ready_thread` returns the first ready slot in
-- cyclic order behind the last choice and records it as the last choice; it returns NULL and changes
-- nothing exactly when it has found every slot of the table not ready.
pub pick_ready_thread-rr :
    (s : RuntimeState) → s.config.policy ≡ Policy.rr → RoundRobinPick s (pick_ready_thread s)
unfolding pick_ready_thread
pick_ready_thread-rr s e = subst (λ p. RoundRobinPick s (pick_by p s)) (sym e) (pick_by-rr s)

distance-decreases :
    (last slot other : ℕ)
    → slot < max_threads
    → other < max_threads
    → other ≢ slot
    → distance last slot ≤ distance last other
    → distance slot other < distance last other
distance-decreases last slot other h k ne le = omega arith

-- A history in which slot `k` is passed over: each choice goes to another slot while the thread in
-- `k` is ready. Between two choices anything may happen that leaves the last choice recorded.
pub data Passed (k : ℕ) : ℕ → RuntimeState → Type 0 where
  start : (s : RuntimeState) → Passed k 0 s
  pass :
      {n : ℕ} (s t : RuntimeState) (slot : ℕ)
      → s.config.policy ≡ Policy.rr
      → is_ready (thread_at s k).state ≡ true
      → (pick_ready_thread s).1 ≡ some slot
      → slot ≢ k
      → t.last_rr_slot ≡ slot
      → Passed k n t
      → Passed k (suc n) s

passed_over :
    (s : RuntimeState) (k slot : ℕ) (r : RuntimeState × Option ℕ)
    → RoundRobinPick s r
    → k < max_threads
    → is_ready (thread_at s k).state ≡ true
    → r.1 ≡ some slot
    → slot ≢ k
    → distance slot k < distance s.last_rr_slot k
passed_over s k slot (s', none) p h ready e ne = cc
passed_over s k slot (s', some x) p h ready e ne =
    let q = some-injective x slot e in
    subst (λ y. distance y k < distance s.last_rr_slot k) q
      (distance-decreases s.last_rr_slot x k p.1 h (λ r. ne (sym q ∙ sym r))
        (elim (dec_lt (distance s.last_rr_slot k) (distance s.last_rr_slot x)) [
          | yes near ↦ cc (p.3 k h near)
          | no far ↦ omega arith
        ]))

-- Round robin starves no thread: while a thread stays ready, at most `distance last k`, so fewer
-- than 128, choices in a row go to other threads.
pub Passed-le-distance :
    (k : ℕ) {n : ℕ} (s : RuntimeState)
    → k < max_threads
    → Passed k n s
    → (n ≤ distance s.last_rr_slot k) × (n < max_threads)
Passed-le-distance k s h (start _) = omega arith
Passed-le-distance k s h (pass {n} _ t slot rr ready e ne last later) = omega (
  arith,
  (Passed-le-distance k t h later).0,
  ap (λ x. distance x k) last,
  passed_over s k slot (pick_ready_thread s) (pick_ready_thread-rr s rr) h ready e ne,
)
