-- ===== src/WaitQueue/Remove/Shift.antt =====
-- `gth_wq_remove`: the inner loop, which moves the entries after a gap one place to the front.

use gthreads.Base.{
  ℕ, zero, suc, ◌+◌, ◌%◌, ◌≤◌, ◌<◌, ◌≡◌, ◌≢◌, refl, ap, ap₂, ◌∙◌, subst, List, arith, ℕ_discrete,
  length, get_or, set, length-set, get_or-set_self, get_or-set_ne, u8,
}
use gthreads.WaitQueue.{WaitQueue, fixed_slots, shift_left}
use gthreads.WaitQueue.Ring.{IsValid, entry, place-ne, place-lt}

pub place_fits :
    (wq : WaitQueue) (k : ℕ)
    → IsValid wq
    → u8 ((wq.head + k) % wq.capacity) ≡ (wq.head + k) % wq.capacity
place_fits wq k v = omega (arith, place-lt wq.capacity (wq.head + k))

-- One round of the shift: the entry at `j` becomes the next one.
abbrev copied : WaitQueue → ℕ → WaitQueue
copied wq j = record wq { slots = set wq.slots ((wq.head + j) % wq.capacity) (entry wq (j + 1)) }

shift_step :
    (wq : WaitQueue) (j r : ℕ)
    → IsValid wq
    → shift_left wq j (suc r) ≡ shift_left (copied wq j) (j + 1) r
unfolding shift_left
shift_step wq j r v =
    ap₂ (λ a b. shift_left (record wq { slots = set wq.slots a (get_or wq.slots b 0) }) (j + 1) r)
      (place_fits wq j v) (fits_next ∙ ap (λ k. k % wq.capacity) (omega arith))
  where
    fits_next : u8 ((wq.head + j + 1) % wq.capacity) ≡ (wq.head + j + 1) % wq.capacity
    fits_next = omega (arith, place-lt wq.capacity (wq.head + j + 1))

copied-IsValid : (wq : WaitQueue) (j : ℕ) → IsValid wq → IsValid (copied wq j)
copied-IsValid wq j v = record {
  storage = length-set wq.slots _ _ ∙ v.storage;
  nonzero = v.nonzero;
  small = v.small;
  head_in = v.head_in;
  count_in = v.count_in;
  tail_at = v.tail_at;
}

entry-copied_self : (wq : WaitQueue) (j : ℕ) → IsValid wq → entry (copied wq j) j ≡ entry wq (j + 1)
entry-copied_self wq j v =
    get_or-set_self wq.slots ((wq.head + j) % wq.capacity) (entry wq (j + 1)) 0
      (omega (arith, v.storage, place-lt wq.capacity (wq.head + j)))

entry-copied_ne :
    (wq : WaitQueue) (j k : ℕ)
    → IsValid wq
    → j < wq.capacity
    → k < wq.capacity
    → j ≢ k
    → entry (copied wq j) k ≡ entry wq k
entry-copied_ne wq j k v hj hk ne =
    get_or-set_ne wq.slots ((wq.head + j) % wq.capacity) ((wq.head + k) % wq.capacity)
      (entry wq (j + 1)) 0 (place-ne wq.capacity wq.head j k v.head_in hj hk ne)

-- What `r` rounds of the shift from offset `j` have done: only the slots differ, those below `j`
-- are as before, and each of the `r` others holds what the next one held.
pub record Shifted (wq : WaitQueue) (j r : ℕ) (out : WaitQueue) : Type 0 where
  pub slots : List ℕ
  pub only_slots : out ≡ record wq { slots = slots }
  pub storage : length slots ≡ fixed_slots
  pub kept : (k : ℕ) → k < j → entry (record wq { slots = slots }) k ≡ entry wq k
  pub moved : (k : ℕ) → j ≤ k → k < j + r → entry (record wq { slots = slots }) k ≡ entry wq (k + 1)

Shifted-suc :
    (wq : WaitQueue) (j r : ℕ) {out : WaitQueue}
    → IsValid wq
    → j + suc r < wq.capacity
    → Shifted (copied wq j) (j + 1) r out
    → Shifted wq j (suc r) out
Shifted-suc wq j r v h ih = record {
  slots = ih.slots;
  only_slots = ih.only_slots;
  storage = ih.storage;
  kept = λ k p.
      ih.kept k (omega arith)
      ∙ entry-copied_ne wq j k v (omega arith) (omega arith) (λ (e : j ≡ k). omega arith);
  moved = λ k p q. elim (ℕ_discrete j k) [
    | yes e ↦
        subst (λ i. entry (record wq { slots = ih.slots }) i ≡ entry wq (i + 1)) e
          (ih.kept j (omega arith) ∙ entry-copied_self wq j v)
    | no ne ↦
        ih.moved k (omega arith) (omega arith)
        ∙ entry-copied_ne wq j (k + 1) v (omega arith) (omega arith)
            (λ (e : j ≡ k + 1). omega arith)
  ];
}

pub shift_left-Shifted :
    (wq : WaitQueue) (j r : ℕ)
    → IsValid wq
    → j + r < wq.capacity
    → Shifted wq j r (shift_left wq j r)
unfolding shift_left
shift_left-Shifted wq j zero v h = record {
  slots = wq.slots;
  only_slots = refl;
  storage = v.storage;
  kept = λ k p. refl;
  moved = λ k p q. absurd (omega arith);
}
shift_left-Shifted wq j (suc r) v h = rw (shift_step wq j r v) (
    Shifted-suc wq j r v h
      (shift_left-Shifted (copied wq j) (j + 1) r (copied-IsValid wq j v) (omega arith)))
