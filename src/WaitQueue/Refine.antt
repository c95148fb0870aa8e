-- ===== src/WaitQueue/Refine.antt =====
-- The wait queue as a client sees it: any sequence of calls of src/sync/wait_queue.h behaves as a
-- bounded list of the waiting slots, the longest waiter first.
use gthreads.Base.{
  ℕ, ◌≡◌, refl, sym, ap, ◌∙◌, List, [], ◌∷◌, ◌++◌, Bool, arith, dec_lt, leb, ◌==◌, if◌then◌else◌,
  length,
}
use gthreads.WaitQueue.{WaitQueue, enqueue, dequeue, remove, is_empty, is_full}
use gthreads.WaitQueue.Ring.{IsValid, contents, length-collect, entry}
use gthreads.WaitQueue.Fifo.{
  enqueue-IsValid, dequeue-IsValid, contents-enqueue, contents-dequeue, enqueue_full, dequeue_empty,
}
use gthreads.WaitQueue.Remove.{
  erase, has, remove-IsValid, capacity-remove, contents-remove, contents-eq-nil,
}

pub data Op : Type 0 where
  put : ℕ → Op
  get : Op
  drop_first : ℕ → Op
  ask_empty : Op
  ask_full : Op

-- What a call gives back.
pub data Reply : Type 0 where
  done : Reply
  slot : ℕ → Reply
  answer : Bool → Reply

pub step : WaitQueue → Op → WaitQueue × Reply
step wq (put x) = (enqueue wq x, done)
step wq get = let (out, x) = dequeue wq in (out, slot x)
step wq (drop_first x) = let (out, b) = remove wq x in (out, answer b)
step wq ask_empty = (wq, answer (is_empty wq))
step wq ask_full = (wq, answer (is_full wq))

-- The calls in order, with what each gives back.
pub run : WaitQueue → List Op → List Reply
run wq [] = []
run wq (o ∷ os) = let (out, r) = step wq o in r ∷ run out os

-- The same calls on a list of at most `cap` slots. An empty list answers 0xFF.
pub spec_step : ℕ → List ℕ → Op → List ℕ × Reply
spec_step cap l (put x) = if leb cap (length l) then (l, done) else (l ++ (x ∷ []), done)
spec_step cap [] get = ([], slot 0xFF)
spec_step cap (x ∷ l) get = (l, slot x)
spec_step cap l (drop_first x) = (erase x l, answer (has x l))
spec_step cap l ask_empty = (l, answer (length l == 0))
spec_step cap l ask_full = (l, answer (leb cap (length l)))

pub spec_run : ℕ → List ℕ → List Op → List Reply
spec_run cap l [] = []
spec_run cap l (o ∷ os) = let (out, r) = spec_step cap l o in r ∷ spec_run cap out os

capacity-enqueue : (wq : WaitQueue) (x : ℕ) → (enqueue wq x).capacity ≡ wq.capacity
unfolding enqueue
capacity-enqueue wq x = ground arith

capacity-dequeue : (wq : WaitQueue) → (dequeue wq).0.capacity ≡ wq.capacity
unfolding dequeue
capacity-dequeue wq = ground arith

-- A valid ring stays valid, keeps its capacity, and holds and answers what the list does.
record Refines (wq : WaitQueue) (o : Op) (out : WaitQueue × Reply) : Type 0 where
  valid : IsValid out.0
  capacity : out.0.capacity ≡ wq.capacity
  list : (contents out.0, out.1) ≡ spec_step wq.capacity (contents wq) o

length-contents : (wq : WaitQueue) → length (contents wq) ≡ wq.count
length-contents wq = length-collect (entry wq) 0 wq.count

put-Refines : (wq : WaitQueue) (x : ℕ) → IsValid wq → Refines wq (put x) (enqueue wq x, done)
unfolding spec_step
put-Refines wq x v = record {
  valid = enqueue-IsValid wq x v;
  capacity = capacity-enqueue wq x;
  list = elim (dec_lt wq.count wq.capacity) [
    | yes free ↦ ground (arith, contents-enqueue wq x v free, length-contents wq)
    | no full ↦ ground (arith, enqueue_full wq x, length-contents wq)
  ];
}

get-Refines : (wq : WaitQueue) → IsValid wq → Refines wq get ((dequeue wq).0, slot (dequeue wq).1)
unfolding spec_step
get-Refines wq v = elim (dec_lt 0 wq.count) [
  | yes h ↦ record {
    valid = dequeue-IsValid wq v h;
    capacity = capacity-dequeue wq;
    list = ground (arith, contents-dequeue wq v h);
  }
  | no h ↦ ground (arith, dequeue_empty wq (omega arith), contents-eq-nil wq (omega arith))
]

step-Refines : (wq : WaitQueue) (o : Op) → IsValid wq → Refines wq o (step wq o)
unfolding step spec_step is_empty is_full
step-Refines wq (put x) v = put-Refines wq x v
step-Refines wq get v = get-Refines wq v
step-Refines wq (drop_first x) v = record {
  valid = remove-IsValid wq x v;
  capacity = capacity-remove wq x v;
  list = ground (arith, contents-remove wq x v);
}
step-Refines wq ask_empty v = record {
  valid = v;
  capacity = refl;
  list = ap (λ n. (contents wq, answer (n == 0))) (sym (length-contents wq));
}
step-Refines wq ask_full v = record {
  valid = v;
  capacity = refl;
  list = ap (λ n. (contents wq, answer (leb wq.capacity n))) (sym (length-contents wq));
}

-- No sequence of enqueues, dequeues, removals and tests tells a valid wait queue from the list of
-- at most `capacity` slots that it holds: an enqueue appends unless the list is full, a dequeue
-- takes the longest waiter (0xFF from an empty list), a removal takes the first occurrence out and
-- says whether there was one.
pub run_refines :
    (os : List Op) (wq : WaitQueue) → IsValid wq → run wq os ≡ spec_run wq.capacity (contents wq) os
unfolding run spec_run
run_refines [] wq v = refl
run_refines (o ∷ os) wq v =
    let s = step-Refines wq o v in
    rw (← s.list) (
      ap (λ l. (step wq o).1 ∷ l)
        (run_refines os (step wq o).0 s.valid
          ∙ ap (λ c. spec_run c (contents (step wq o).0) os) s.capacity))
