-- ===== src/Runtime/WellFormed.antt =====
-- src/runtime/runtime.c: the invariant of the runtime, counters and identifiers together.
use gthreads.Base.{
  ℕ, ◌<◌, ◌≡◌, refl, sym, ap, false, true, arith, get_or, set, replicate, get_or-replicate,
  length-replicate,
}
use gthreads.State.{Config, World, Thread, RuntimeState}
use gthreads.Runtime.{
  zero_thread, max_threads, fresh_state, is_empty, is_ready, is_blocked, thread_at,
}
use gthreads.Runtime.Count.{IsCounted, count-replicate}
use gthreads.Runtime.Table.{IsTable, set-IsTable_same}

-- Counters and identifiers.
pub record IsWellFormed (s : RuntimeState) : Type 0 where
  pub counted : IsCounted s
  pub table : IsTable s.threads s.next_tid

fresh_table : (n i : ℕ) → is_empty (get_or (replicate n zero_thread) i zero_thread).state ≡ true
fresh_table n i = ap (λ t. is_empty t.state) (get_or-replicate n i zero_thread)

pub fresh_state-IsWellFormed : (config : Config) (w : World) → IsWellFormed (fresh_state config w)
fresh_state-IsWellFormed config w = record {
  counted = record {
    slots = length-replicate max_threads zero_thread;
    ready = sym (count-replicate is_ready max_threads refl);
    blocked = sym (count-replicate is_blocked max_threads refl);
  };
  table = record {
    positive = omega arith;
    indexed = λ i h u. absurd (never i u);
    fresh = λ i h u. absurd (never i u);
    distinct = λ i j hi hj ui uj e. absurd (never i ui);
  };
}
  where
    never : (i : ℕ) → is_empty (thread_at (fresh_state config w) i).state ≡ false → ⊥
    never i u = cc (fresh_table max_threads i)

-- A write that keeps the identifier and the slot of a record in use keeps the table.
pub put-IsTable :
    (s : RuntimeState) (slot : ℕ) (t : Thread)
    → IsWellFormed s
    → slot < max_threads
    → is_empty (thread_at s slot).state ≡ false
    → t.tid ≡ (thread_at s slot).tid
    → t.slot_index ≡ (thread_at s slot).slot_index
    → IsTable (set s.threads slot t) s.next_tid
put-IsTable s slot t v h used e f =
    set-IsTable_same s.threads s.next_tid slot t v.table (omega (arith, v.counted.slots)) used e f
