-- ===== src/WaitQueue/Head.antt =====
-- src/sync/wait_queue.h: the longest waiter of a queue that is not empty.
use gthreads.Base.{ℕ, ◌<◌, ◌≡◌, ap, sym, ◌∙◌, List, ◌∷◌, false, arith, ◌==◌, length}
use gthreads.WaitQueue.{WaitQueue, dequeue}
use gthreads.WaitQueue.Ring.{IsValid, entry, contents, length-collect}
use gthreads.WaitQueue.Fifo.{dequeue-IsValid, contents-dequeue}

-- The longest waiter and the queue behind it.
pub record Head (wq : WaitQueue) (x : ℕ) (rest : List ℕ) : Type 0 where
  pub waits : (wq.count == 0) ≡ false
  pub first : (dequeue wq).1 ≡ x
  pub queue : contents (dequeue wq).0 ≡ rest
  pub valid : IsValid (dequeue wq).0

pub dequeue-Head :
    (wq : WaitQueue) (x : ℕ) (rest : List ℕ) → IsValid wq → contents wq ≡ x ∷ rest → Head wq x rest
dequeue-Head wq x rest v e =
    let some_wait : 0 < wq.count =
      omega (arith, length-collect (entry wq) 0 wq.count, ap length e) in
    let both = sym (contents-dequeue wq v some_wait) ∙ e in
    record { waits = ground arith; first = cc; queue = cc; valid = dequeue-IsValid wq v some_wait }
