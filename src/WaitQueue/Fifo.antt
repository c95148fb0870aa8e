-- ===== src/WaitQueue/Fifo.antt =====
-- The wait queue as a bounded list: `gth_wq_enqueue` appends, `gth_wq_dequeue` takes the oldest.
use gthreads.Base.{
  ℕ, suc, ◌+◌, ◌-◌, ◌%◌, ◌≤◌, ◌<◌, ◌≡◌, refl, ap, ap₂, ◌∙◌, List, [], ◌∷◌, ◌++◌, arith, dec_lt,
  length, get_or, set, length-set, get_or-set_self, get_or-set_ne,
}
use native.Mathlib.Nat.{mod-add-mod}
use gthreads.WaitQueue.{WaitQueue, fixed_slots, init, enqueue, dequeue}
use gthreads.WaitQueue.Ring.{
  IsValid, entry, collect, contents, collect_ext, collect_shift, collect_snoc, place-ne, place-lt,
  mod_turn,
}

pub init-IsValid :
    (wq : WaitQueue) (capacity : ℕ)
    → length wq.slots ≡ fixed_slots
    → 0 < capacity
    → capacity ≤ fixed_slots
    → IsValid (init wq capacity) × (contents (init wq capacity) ≡ [])
unfolding init
init-IsValid wq capacity h p q = (
  record {
    storage = h;
    nonzero = p;
    small = q;
    head_in = p;
    count_in = omega arith;
    tail_at = omega arith;
  },
  refl,
)

-- On a valid queue the uint8_t arithmetic does not wrap.
abbrev enqueued : WaitQueue → ℕ → WaitQueue
enqueued wq x = record wq {
  slots = set wq.slots wq.tail x;
  tail = (wq.tail + 1) % wq.capacity;
  count = wq.count + 1;
}

enqueue_free :
    (wq : WaitQueue) (x : ℕ) → IsValid wq → wq.count < wq.capacity → enqueue wq x ≡ enqueued wq x
unfolding enqueue
enqueue_free wq x v free = ground (arith, place-lt wq.capacity (wq.tail + 1))

pub enqueue_full : (wq : WaitQueue) (x : ℕ) → wq.capacity ≤ wq.count → enqueue wq x ≡ wq
unfolding enqueue
enqueue_full wq x h = ground arith

abbrev dequeued : WaitQueue → WaitQueue
dequeued wq = record wq { head = (wq.head + 1) % wq.capacity; count = wq.count - 1 }

dequeue_some :
    (wq : WaitQueue)
    → IsValid wq
    → 0 < wq.count
    → dequeue wq ≡ (dequeued wq, get_or wq.slots wq.head 0)
unfolding dequeue
dequeue_some wq v h = ground (arith, place-lt wq.capacity (wq.head + 1))

enqueued-IsValid :
    (wq : WaitQueue) (x : ℕ) → IsValid wq → wq.count < wq.capacity → IsValid (enqueued wq x)
enqueued-IsValid wq x v free = record {
  storage = length-set wq.slots wq.tail x ∙ v.storage;
  nonzero = v.nonzero;
  small = v.small;
  head_in = v.head_in;
  count_in = omega arith;
  tail_at = rw (v.tail_at, mod-add-mod) (ap (λ k. k % wq.capacity) (omega arith));
}

dequeued-IsValid : (wq : WaitQueue) → IsValid wq → 0 < wq.count → IsValid (dequeued wq)
dequeued-IsValid wq v h = record {
  storage = v.storage;
  nonzero = v.nonzero;
  small = v.small;
  head_in = place-lt wq.capacity (wq.head + 1) v.nonzero;
  count_in = omega arith;
  tail_at = rw (v.tail_at, mod-add-mod) (ap (λ k. k % wq.capacity) (omega arith));
}

pub enqueue-IsValid : (wq : WaitQueue) (x : ℕ) → IsValid wq → IsValid (enqueue wq x)
enqueue-IsValid wq x v = elim (dec_lt wq.count wq.capacity) [
  | yes free ↦ rw (enqueue_free wq x v free) (enqueued-IsValid wq x v free)
  | no full ↦ rw (enqueue_full wq x (omega arith)) v
]

pub dequeue-IsValid : (wq : WaitQueue) → IsValid wq → 0 < wq.count → IsValid (dequeue wq).0
dequeue-IsValid wq v h = rw (dequeue_some wq v h) (dequeued-IsValid wq v h)

-- An enqueue writes the place behind the last entry and no entry before it.
pub contents-enqueue :
    (wq : WaitQueue) (x : ℕ)
    → IsValid wq
    → wq.count < wq.capacity
    → contents (enqueue wq x) ≡ contents wq ++ (x ∷ [])
contents-enqueue wq x v free = rw (enqueue_free wq x v free) (
    ap (collect (entry (enqueued wq x)) 0) {y = suc wq.count} (omega arith)
    ∙ collect_snoc (entry (enqueued wq x)) 0 wq.count
    ∙ ap₂ (λ (r : List ℕ) y. r ++ (y ∷ [])) before last)
  where
    before : collect (entry (enqueued wq x)) 0 wq.count ≡ contents wq
    before = collect_ext (entry (enqueued wq x)) (entry wq) 0 wq.count λ k _ p.
        get_or-set_ne wq.slots wq.tail _ x 0 (
          rw v.tail_at
            (place-ne wq.capacity wq.head wq.count k v.head_in free (omega arith) (omega arith)))

    last : entry (enqueued wq x) (0 + wq.count) ≡ x
    last =
        ap (λ i. get_or (set wq.slots wq.tail x) i 0) {y = wq.tail}
          (rw v.tail_at (ap (λ k. k % wq.capacity) (omega arith)))
        ∙ get_or-set_self wq.slots wq.tail x 0
            (omega (arith, v.storage, v.tail_at, place-lt wq.capacity (wq.head + wq.count)))

pub contents-dequeue :
    (wq : WaitQueue)
    → IsValid wq
    → 0 < wq.count
    → contents wq ≡ (dequeue wq).1 ∷ contents (dequeue wq).0
contents-dequeue wq v h =
    rw (dequeue_some wq v h)
      (ap (collect (entry wq) 0) {y = suc (wq.count - 1)} (omega arith) ∙ ap₂ ◌∷◌ first rest)
  where
    first : entry wq 0 ≡ get_or wq.slots wq.head 0
    first = ap (λ i. get_or wq.slots i 0) (omega (arith, mod_turn wq.capacity (wq.head + 0)))

    rest : collect (entry wq) (0 + 1) (wq.count - 1) ≡ contents (dequeued wq)
    rest = collect_shift (entry wq) (entry (dequeued wq)) (0 + 1) 0 (wq.count - 1) λ k p.
        ap (λ i. get_or wq.slots i 0) (rw mod-add-mod (ap (λ j. j % wq.capacity) (omega arith)))

pub dequeue_empty : (wq : WaitQueue) → wq.count ≡ 0 → dequeue wq ≡ (wq, 0xFF)
unfolding dequeue
dequeue_empty wq e = ground arith
