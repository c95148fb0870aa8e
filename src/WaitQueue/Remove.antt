-- ===== src/WaitQueue/Remove.antt =====
-- `gth_wq_remove`: the scan finds the first occurrence, and the shift closes the gap.
pub mod Shift
use mathlib.Core.List.{append-nil, append_assoc}
use gthreads.Base.{
  ℕ, zero, suc, ◌+◌, ◌-◌, ◌%◌, ◌≤◌, ◌<◌, ◌≡◌, ◌≢◌, refl, sym, ap, ap₂, ◌∙◌, subst, List, [], ◌∷◌,
  ◌++◌, Bool, true, false, inl, inr, arith, ℕ_discrete, ◌==◌, ==_iff, if◌then◌else◌, Bool-cases,
  length, get_or, set, length-set, get_or-set_self, get_or-set_ne, u8,
}
use gthreads.WaitQueue.{WaitQueue, fixed_slots, shift_left, remove_at, remove_from, remove}
use gthreads.WaitQueue.Ring.{
  IsValid, entry, collect, contents, collect_ext, collect_shift, collect_snoc, collect_split,
  place-ne, place-lt, mod_turn,
}
use Shift.{place_fits, Shifted, shift_left-Shifted}

-- The list without its first `x`, and whether it holds one.
unfoldable pub erase : ℕ → List ℕ → List ℕ
erase x [] = []
erase x (y ∷ ys) = if y == x then ys else y ∷ erase x ys

unfoldable pub has : ℕ → List ℕ → Bool
has x [] = false
has x (y ∷ ys) = if y == x then true else has x ys

-- The queue after the branch of `gth_wq_remove` that has found its value at offset `i`.
record Removed (wq : WaitQueue) (i : ℕ) (out : WaitQueue) : Type 0 where
  valid : IsValid out
  capacity : out.capacity ≡ wq.capacity
  entries : contents out ≡ collect (entry wq) 0 i ++ collect (entry wq) (i + 1) (wq.count - 1 - i)

tail_back :
    (n head count tail : ℕ)
    → head < n
    → count ≤ n
    → 0 < count
    → tail ≡ (head + count) % n
    → ((tail + n - 1) % n ≡ (head + (count - 1)) % n) × ((tail + n - 1) % n < n)
tail_back n head count tail p q z e = omega (
  arith,
  mod_turn n (head + count) (omega arith),
  mod_turn n (head + (count - 1)) (omega arith),
  mod_turn n (tail + n - 1) (omega (arith, place-lt n (head + count))),
)

abbrev closed_up : WaitQueue → List ℕ → WaitQueue
closed_up wq slots = record wq {
  slots = slots;
  tail = (wq.tail + wq.capacity - 1) % wq.capacity;
  count = wq.count - 1;
}

remove_at-eq-closed_up :
    (wq : WaitQueue) (i : ℕ)
    → IsValid wq
    → (s : Shifted wq i (wq.count - 1 - i) (shift_left wq i (wq.count - 1 - i)))
    → remove_at wq i ≡ closed_up wq s.slots
unfolding remove_at
remove_at-eq-closed_up wq i v s = rw (s.only_slots) (
    ap (λ t. record wq { slots = s.slots; tail = t; count = wq.count - 1 })
      (omega (arith, place-lt wq.capacity (wq.tail + wq.capacity - 1))))

closed_up-Removed :
    (wq : WaitQueue) (i : ℕ) {out : WaitQueue}
    → IsValid wq
    → i < wq.count
    → (s : Shifted wq i (wq.count - 1 - i) out) → Removed wq i (closed_up wq s.slots)
closed_up-Removed wq i v h s = record {
  valid = record {
    storage = s.storage;
    nonzero = v.nonzero;
    small = v.small;
    head_in = v.head_in;
    count_in = omega arith;
    tail_at =
        (tail_back wq.capacity wq.head wq.count wq.tail v.head_in v.count_in (omega arith)
          v.tail_at).0;
  };
  capacity = refl;
  entries =
      ap (collect new 0) {y = i + (wq.count - 1 - i)} (omega arith)
      ∙ collect_split new 0 i (wq.count - 1 - i)
      ∙ ap₂ ◌++◌ (collect_ext new (entry wq) 0 i (λ k _ p. s.kept k (omega arith))) (
          collect_shift new (entry wq) (0 + i) (i + 1) (wq.count - 1 - i)
            (λ k p. s.moved (0 + i + k) (omega arith) (omega arith) ∙ ap (entry wq) (omega arith)));
}
  where
    new : ℕ → ℕ
    new = entry (record wq { slots = s.slots })

remove_at-Removed :
    (wq : WaitQueue) (i : ℕ) → IsValid wq → i < wq.count → Removed wq i (remove_at wq i)
remove_at-Removed wq i v h =
    let s = shift_left-Shifted wq i (wq.count - 1 - i) v (omega arith) in
    rw (remove_at-eq-closed_up wq i v s) (closed_up-Removed wq i v h s)

-- What the scan with `r` offsets left from `i` on returns.
record Scanned (wq : WaitQueue) (x i r : ℕ) (out : WaitQueue × Bool) : Type 0 where
  valid : IsValid out.0
  capacity : out.0.capacity ≡ wq.capacity
  entries : contents out.0 ≡ collect (entry wq) 0 i ++ erase x (collect (entry wq) i r)
  found : out.1 ≡ has x (collect (entry wq) i r)

remove_from-Scanned :
    (wq : WaitQueue) (x i r : ℕ)
    → IsValid wq
    → i + r ≡ wq.count
    → Scanned wq x i r (remove_from wq x i r)
unfolding remove_from erase has
remove_from-Scanned wq x i zero v h = record {
  valid = v;
  capacity = refl;
  entries = ap (collect (entry wq) 0) {y = i} (omega arith) ∙ sym (append-nil _);
  found = refl;
}
remove_from-Scanned wq x i (suc r) v h = elim (Bool-cases (entry wq i == x)) [
  | inl hit ↦
      let gone = remove_at-Removed wq i v (omega arith) in
      rw (place_fits wq i v, hit)
        (record {
          valid = gone.valid;
          capacity = gone.capacity;
          entries = rw hit (
              gone.entries
              ∙ ap (λ n. collect (entry wq) 0 i ++ collect (entry wq) (i + 1) n) (omega arith));
          found = rw hit;
        })
  | inr miss ↦
      let later = remove_from-Scanned wq x (i + 1) r v (omega arith) in
      rw (place_fits wq i v, miss)
        (record {
          valid = later.valid;
          capacity = later.capacity;
          entries = rw miss (
              later.entries
              ∙ ap (λ l. l ++ erase x (collect (entry wq) (i + 1) r))
                  (ap (collect (entry wq) 0) {y = suc i} (omega arith)
                    ∙ collect_snoc (entry wq) 0 i)
              ∙ append_assoc (collect (entry wq) 0 i) (entry wq (0 + i) ∷ [])
                  (erase x (collect (entry wq) (i + 1) r))
              ∙ ap
                  (λ k.
                    collect (entry wq) 0 i ++ (entry wq k ∷ erase x (collect (entry wq) (i + 1) r)))
                  (omega arith));
          found = rw miss later.found;
        })
]

pub remove-IsValid : (wq : WaitQueue) (x : ℕ) → IsValid wq → IsValid (remove wq x).0
unfolding remove
remove-IsValid wq x v = elim (Bool-cases (wq.count == 0)) [
  | inl none_wait ↦ rw none_wait v
  | inr some_wait ↦ rw some_wait (remove_from-Scanned wq x 0 wq.count v (omega arith)).valid
]

pub contents-eq-nil : (wq : WaitQueue) → wq.count ≡ 0 → contents wq ≡ []
contents-eq-nil wq e = ap (collect (entry wq) 0) e

pub capacity-remove : (wq : WaitQueue) (x : ℕ) → IsValid wq → (remove wq x).0.capacity ≡ wq.capacity
unfolding remove
capacity-remove wq x v = elim (Bool-cases (wq.count == 0)) [
  | inl none_wait ↦ rw none_wait
  | inr some_wait ↦ rw some_wait (remove_from-Scanned wq x 0 wq.count v (omega arith)).capacity
]

-- `gth_wq_remove` takes the first occurrence out and keeps the order of the others.
pub contents-remove :
    (wq : WaitQueue) (x : ℕ)
    → IsValid wq
    → (contents (remove wq x).0 ≡ erase x (contents wq)) × ((remove wq x).1 ≡ has x (contents wq))
unfolding remove erase has
contents-remove wq x v = elim (Bool-cases (wq.count == 0)) [
  | inl none_wait ↦
      let e = contents-eq-nil wq ((==_iff wq.count 0).0 none_wait) in rw none_wait (rw e, rw e)
  | inr some_wait ↦
      let s = remove_from-Scanned wq x 0 wq.count v (omega arith) in
      rw some_wait (s.entries, s.found)
]
