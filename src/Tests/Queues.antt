-- ===== src/Tests/Queues.antt =====
-- The theorems on wait queues at concrete rings.
use gthreads.Base.{ℕ, ◌≡◌, List, [], ◌∷◌, arith, length-replicate}
use gthreads.WaitQueue.{WaitQueue, fixed_slots, zeroed, init, enqueue}
use gthreads.WaitQueue.Ring.{IsValid, contents}
use gthreads.WaitQueue.Fifo.{init-IsValid, enqueue-IsValid}
use gthreads.WaitQueue.Refine.{
  Op, put, get, drop_first, ask_empty, ask_full, run, spec_run, run_refines,
}

-- A ring of three places in which 5 and 9 wait.
abbrev ring : WaitQueue
ring = enqueue (enqueue (init zeroed 3) 5) 9

ring-IsValid : IsValid ring
ring-IsValid = enqueue-IsValid (enqueue (init zeroed 3) 5) 9 (
    enqueue-IsValid (init zeroed 3) 5
      (init-IsValid zeroed 3 (length-replicate {A = ℕ} fixed_slots 0) (omega arith)
        (omega arith)).0)

-- The third place is filled, a fourth entry is refused, and the middle one is taken out.
abbrev calls : List Op
calls = put 4 ∷ put 6 ∷ ask_full ∷ drop_first 9 ∷ get ∷ get ∷ get ∷ ask_empty ∷ []

run_refines_example : run ring calls ≡ spec_run ring.capacity (contents ring) calls
run_refines_example = run_refines calls ring ring-IsValid
