-- ===== src/Fuzz/Range.antt =====
-- src/trace/fuzz.c: the perturbed choice of a thread.
use gthreads.Base.{
  ℕ, suc, ◌+◌, ◌-◌, ◌<◌, ◌≤◌, ◌≡◌, ap, subst, List, [], ◌∷◌, true, Option, none, some, arith, ◌==◌,
  leb, if-cases, Option-cases, inl, inr, length, get_or, not,
}
use mathlib.Core.Option.{some-injective}
use gthreads.State.{Thread, FuzzState}
use gthreads.Runtime.{zero_thread, is_ready}
use gthreads.Fuzz.{random_range, should_perturb}
use gthreads.Fuzz.Pick.{pick_from, pick_drawn, pick_alternative, count_ready, fuzz_pick_open}

-- A slot of a ready thread in the part of the table that starts at slot `i`.
abbrev ReadyFrom : List Thread → ℕ → ℕ → Type 0
ReadyFrom ts i slot =
    (i ≤ slot) × (slot < i + length ts) × (is_ready (get_or ts (slot - i) zero_thread).state ≡ true)

abbrev Finds : List Thread → ℕ → Option ℕ → Type 0
Finds ts i o = (slot : ℕ) → o ≡ some slot → ReadyFrom ts i slot

Finds-later :
    (t : Thread) (ts : List Thread) (i : ℕ) (o : Option ℕ) → Finds ts (i + 1) o → Finds (t ∷ ts) i o
Finds-later t ts i o h slot e =
    let (low, high, ready) = h slot e in
    (
      omega arith,
      omega arith,
      subst (λ k. is_ready (get_or (t ∷ ts) k zero_thread).state ≡ true) {x = suc (slot - (i + 1))}
          {y = slot - i} (omega arith) ready,
    )

Finds-here :
    (t : Thread) (ts : List Thread) (i : ℕ) → is_ready t.state ≡ true → Finds (t ∷ ts) i (some i)
Finds-here t ts i r slot e =
    let q = some-injective i slot e in
    (
      omega arith,
      omega arith,
      subst (λ k. is_ready (get_or (t ∷ ts) k zero_thread).state ≡ true) {x = 0} {y = slot - i}
          (omega arith) r,
    )

pick_from-Finds :
    (ts : List Thread) (i exclude target current : ℕ)
    → Finds ts i (pick_from ts i exclude target current)
unfolding pick_from
pick_from-Finds [] i exclude target current = λ slot e. cc
pick_from-Finds (t ∷ ts) i exclude target current =
    let next =
      Finds-later t ts i (pick_from ts (i + 1) exclude target current)
        (pick_from-Finds ts (i + 1) exclude target current) in
    if-cases (Finds (t ∷ ts) i) (not (is_ready t.state)) (λ h. next)
      (λ ready.
        if-cases (Finds (t ∷ ts) i) (i == exclude) (λ h. next)
          (λ other.
            if-cases (Finds (t ∷ ts) i) (current == target) (λ h. Finds-here t ts i (ground arith))
              (λ h.
                Finds-later t ts i (pick_from ts (i + 1) exclude target (current + 1))
                  (pick_from-Finds ts (i + 1) exclude target (current + 1)))))

-- The slot of a ready thread.
abbrev pub ReadyAt : List Thread → ℕ → Type 0
ReadyAt ts slot = (slot < length ts) × (is_ready (get_or ts slot zero_thread).state ≡ true)

-- A choice that comes out is the slot of a ready thread.
abbrev pub Chooses : List Thread → Option (FuzzState × ℕ) → Type 0
Chooses ts o = (out : FuzzState) (slot : ℕ) → o ≡ some (out, slot) → ReadyAt ts slot

Chooses-some :
    (ts : List Thread) (fuzz : FuzzState) (slot : ℕ)
    → ReadyAt ts slot
    → Chooses ts (some (fuzz, slot))
Chooses-some ts fuzz slot r out n e =
    subst (ReadyAt ts) (ap (λ x. x.1) (some-injective (fuzz, slot) (out, n) e)) r

pick_drawn-Chooses :
    (ts : List Thread) (exclude : ℕ) (o : Option (FuzzState × ℕ))
    → ReadyAt ts exclude
    → Chooses ts (pick_drawn ts exclude o)
unfolding pick_drawn
pick_drawn-Chooses ts exclude none r = λ out slot e. cc
pick_drawn-Chooses ts exclude (some (fuzz, target)) r =
    elim (Option-cases (pick_from ts 0 exclude target 0)) [
      | inl e ↦ rw e (Chooses-some ts fuzz exclude r)
      | inr (slot, e) ↦
          let (low, high, ready) = pick_from-Finds ts 0 exclude target 0 slot e in
          rw e (
            Chooses-some ts fuzz slot (
              omega arith,
              subst (λ k. is_ready (get_or ts k zero_thread).state ≡ true) {x = slot - 0} {y = slot}
                  (omega arith) ready,
            ))
    ]

fuzz_pick_open-Chooses :
    (fuel : ℕ) (ts : List Thread) (fuzz : FuzzState) (normal_choice : ℕ)
    → ReadyAt ts normal_choice
    → Chooses ts (fuzz_pick_open fuel ts fuzz normal_choice)
unfolding fuzz_pick_open pick_alternative
fuzz_pick_open-Chooses fuel ts fuzz normal_choice r =
    let fuzz' = (should_perturb fuzz).0 in
    if-cases (Chooses ts) (should_perturb fuzz).1
      (λ perturb.
        if-cases (Chooses ts) (leb (count_ready ts) 1)
          (λ alone. Chooses-some ts fuzz' normal_choice r)
          (λ several.
            pick_drawn-Chooses ts normal_choice (random_range fuel fuzz' (count_ready ts)) r))
      (λ keep. Chooses-some ts fuzz' normal_choice r)

-- In fuzz mode `gth_fuzz_pick_thread` returns a ready thread of the table, whether it perturbs the
-- choice or not, if the choice that it may replace is a ready thread and its loop ends.
pub fuzz_pick_open-ReadyAt :
    (fuel : ℕ) (ts : List Thread) (fuzz : FuzzState) (normal_choice : ℕ)
    → ReadyAt ts normal_choice
    → (out : FuzzState) (slot : ℕ) → fuzz_pick_open fuel ts fuzz normal_choice ≡ some (out, slot)
    → ReadyAt ts slot
fuzz_pick_open-ReadyAt fuel ts fuzz normal_choice r out slot e =
    fuzz_pick_open-Chooses fuel ts fuzz normal_choice r out slot e
