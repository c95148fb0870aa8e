-- ===== src/Sync/System/Waiting.antt =====
-- src/internal/wait_queue.h: the queues of the objects hold slots of the table.
use gthreads.Base.{
  ℕ, ◌<◌, ◌≡◌, refl, sym, subst, List, [], ◌∷◌, ◌++◌, true, arith, ◌==◌, ==_iff, Bool-cases, inl,
  inr, u8, dec_lt,
}
use gthreads.Runtime.{max_threads}
use gthreads.WaitQueue.{WaitQueue, fixed_slots, zeroed, init, enqueue, dequeue, remove}
use gthreads.WaitQueue.Ring.{IsValid, contents}
use gthreads.WaitQueue.Fifo.{
  init-IsValid, enqueue-IsValid, enqueue_full, contents-enqueue, dequeue-IsValid, dequeue_empty,
  contents-dequeue,
}
use gthreads.WaitQueue.Remove.{has, erase, remove-IsValid, contents-remove}

-- A valid queue of slots.
pub record IsWaiting (wq : WaitQueue) : Type 0 where
  pub valid : IsValid wq
  pub inside : (x : ℕ) → has x (contents wq) ≡ true → x < max_threads

pub init-IsWaiting : IsWaiting (init zeroed fixed_slots)
unfolding has
init-IsWaiting =
    let i = init-IsValid zeroed fixed_slots refl (omega arith) (omega arith) in
    record { valid = i.0; inside = λ x h. cc (subst (λ l. has x l ≡ true) i.1 h) }

has-append_last :
    (x y : ℕ) (l : List ℕ)
    → y < max_threads
    → ((z : ℕ) → has z l ≡ true → z < max_threads)
    → has x (l ++ (y ∷ [])) ≡ true
    → x < max_threads
unfolding has
has-append_last x y [] h k e = ground arith
has-append_last x y (z ∷ l) h k e = elim (Bool-cases (z == x)) [
  | inl hit ↦ k x (rw hit refl)
  | inr miss ↦ has-append_last x y l h (λ w q. k w (ground (arith, q))) (ground (arith, e))
]

pub enqueue-IsWaiting :
    (wq : WaitQueue) (slot : ℕ)
    → IsWaiting wq
    → slot < max_threads
    → IsWaiting (enqueue wq (u8 slot))
enqueue-IsWaiting wq slot w h = elim (dec_lt wq.count wq.capacity) [
  | no full ↦ rw (enqueue_full wq (u8 slot) (omega arith)) w
  | yes free ↦ record {
    valid = enqueue-IsValid wq (u8 slot) w.valid;
    inside = λ x q.
        has-append_last x (u8 slot) (contents wq) (omega arith) w.inside
          (subst (λ l. has x l ≡ true) (contents-enqueue wq (u8 slot) w.valid free) q);
  }
]

pub dequeue-IsWaiting : (wq : WaitQueue) → IsWaiting wq → IsWaiting (dequeue wq).0
unfolding has
dequeue-IsWaiting wq w = elim (Bool-cases (wq.count == 0)) [
  | inl none_wait ↦ rw (dequeue_empty wq ((==_iff wq.count 0).0 none_wait)) w
  | inr some_wait ↦
      let positive : 0 < wq.count = ground (arith, some_wait) in
      record {
        valid = dequeue-IsValid wq w.valid positive;
        inside = λ x q. w.inside x (
            subst (λ l. has x l ≡ true) (sym (contents-dequeue wq w.valid positive))
              (ground (arith, q)));
      }
]

has-erase : (x y : ℕ) (l : List ℕ) → has x (erase y l) ≡ true → has x l ≡ true
unfolding has erase
has-erase x y [] h = h
has-erase x y (z ∷ l) h = elim (Bool-cases (z == y)) [
  | inl hit ↦ ground (arith, h, hit)
  | inr miss ↦ ground (arith, h, miss, has-erase x y l)
]

pub remove-IsWaiting : (wq : WaitQueue) (x : ℕ) → IsWaiting wq → IsWaiting (remove wq x).0
remove-IsWaiting wq x w = record {
  valid = remove-IsValid wq x w.valid;
  inside = λ y q. w.inside y (
      has-erase y x (contents wq) (subst (λ l. has y l ≡ true) (contents-remove wq x w.valid).0 q));
}
