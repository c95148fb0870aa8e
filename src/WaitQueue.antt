-- ===== src/WaitQueue.antt =====
-- src/sync/wait_queue.h: the ring of slot indices in which threads wait.
pub mod Ring
pub mod Fifo
pub mod Head
pub mod Remove
pub mod Refine
use gthreads.Base.{
  ℕ, zero, suc, ◌+◌, ◌-◌, ◌%◌, Bool, true, false, List, replicate, get_or, set, leb, ◌==◌,
  if◌then◌else◌, u8,
}

-- `GTH_WQ_FIXED_SLOTS`.
abbrev pub fixed_slots : ℕ
fixed_slots = 52

-- `gth_wait_queue_t`; every field but `slots` is a uint8_t.
pub record WaitQueue : Type 0 where
  pub head : ℕ
  pub tail : ℕ
  pub count : ℕ
  pub capacity : ℕ
  pub slots : List ℕ

-- The queue in storage that `memset` has cleared.
abbrev pub zeroed : WaitQueue
zeroed = record { head = 0; tail = 0; count = 0; capacity = 0; slots = replicate fixed_slots 0 }

unfoldable pub init : WaitQueue → ℕ → WaitQueue
init wq capacity = record wq { head = 0; tail = 0; count = 0; capacity = capacity }

unfoldable pub is_empty : WaitQueue → Bool
is_empty wq = wq.count == 0

unfoldable pub is_full : WaitQueue → Bool
is_full wq = leb wq.capacity wq.count

unfoldable pub enqueue : WaitQueue → ℕ → WaitQueue
enqueue wq slot_index = if leb wq.capacity wq.count then wq else record wq {
  slots = set wq.slots wq.tail slot_index;
  tail = u8 ((wq.tail + 1) % wq.capacity);
  count = u8 (wq.count + 1);
}

-- The slot that comes out is 0xFF for an empty queue.
unfoldable pub dequeue : WaitQueue → WaitQueue × ℕ
dequeue wq = if wq.count == 0 then (wq, 0xFF) else (
  record wq { head = u8 ((wq.head + 1) % wq.capacity); count = wq.count - 1 },
  get_or wq.slots wq.head 0,
)

-- The inner loop of `gth_wq_remove`: `rounds` entries from offset `j` on move left by one.
unfoldable pub shift_left : WaitQueue → ℕ → ℕ → WaitQueue
shift_left wq j zero = wq
shift_left wq j (suc rounds) =
    let cur = u8 ((wq.head + j) % wq.capacity) in
    let nxt = u8 ((wq.head + j + 1) % wq.capacity) in
    shift_left (record wq { slots = set wq.slots cur (get_or wq.slots nxt 0) }) (j + 1) rounds

-- The body of the branch that has found the value at offset `i`.
unfoldable pub remove_at : WaitQueue → ℕ → WaitQueue
unfolding shift_left
remove_at wq i =
    let moved = shift_left wq i (wq.count - 1 - i) in
    record moved { tail = u8 ((wq.tail + wq.capacity - 1) % wq.capacity); count = wq.count - 1 }

-- The outer loop of `gth_wq_remove`, with `rounds` offsets left from `i` on.
unfoldable pub remove_from : WaitQueue → ℕ → ℕ → ℕ → WaitQueue × Bool
unfolding remove_at
remove_from wq slot_value i zero = (wq, false)
remove_from wq slot_value i (suc rounds) =
    let rest = remove_from wq slot_value (i + 1) rounds in
    if get_or wq.slots (u8 ((wq.head + i) % wq.capacity)) 0 == slot_value
    then (remove_at wq i, true)
    else rest

unfoldable pub remove : WaitQueue → ℕ → WaitQueue × Bool
unfolding remove_from
remove wq slot_value = if wq.count == 0 then (wq, false) else remove_from wq slot_value 0 wq.count
