-- ===== src/Sync/System/Rest.antt =====
-- src/sync, src/thread/thread.c: what the calls on the objects do to the runtime's state.

use gthreads.Base.{
  ℕ, ◌<◌, ◌≡◌, refl, sym, ap, ◌∙◌, arith, some, inl, inr, ◌==◌, Option-cases, if-cases, not, get_or,
  set, get_or-set_self, length,
}
use gthreads.State.{ThreadState, RuntimeState, Flow, returned, estate, suspended}
use gthreads.Trace.{trace_record}
use gthreads.Trace.Format.{EventType}
use gthreads.Runtime.{
  max_threads, zero_thread, thread_at, is_empty, is_ready, is_blocked, find_thread,
}
use gthreads.Runtime.Count.{IsCounted, count}
use gthreads.Runtime.Find.{Found, find_thread-some}
use gthreads.Runtime.Table.{IsTable}
use gthreads.Runtime.WellFormed.{IsWellFormed}
use gthreads.Thread.{block_in, thread_block, unblock_slot, current_slot_index}
use gthreads.Thread.Counted.{put-Moved}
use gthreads.Thread.Live.{
  IsLive, Current-at, Current-kept, put-IsWellFormed, turned, back, back-IsLive, block_in-IsLive,
}
use gthreads.Thread.Keeps.{unblock_slot-IsLive}
use gthreads.Thread.Reach.{current_of}
use mathlib.Core.Path.{subst₂}

-- The same table and counters.
pub record Alike (s s' : RuntimeState) : Type 0 where
  pub threads : s'.threads ≡ s.threads
  pub next_tid : s'.next_tid ≡ s.next_tid
  pub ready : s'.runnable_threads ≡ s.runnable_threads
  pub blocked : s'.blocked_threads ≡ s.blocked_threads

pub Alike-IsWellFormed : (s s' : RuntimeState) → Alike s s' → IsWellFormed s → IsWellFormed s'
Alike-IsWellFormed s s' a v = record {
  counted = record {
    slots = ap length a.threads ∙ v.counted.slots;
    ready = a.ready ∙ v.counted.ready ∙ ap (count is_ready) (sym a.threads);
    blocked = a.blocked ∙ v.counted.blocked ∙ ap (count is_blocked) (sym a.threads);
  };
  table = subst₂ IsTable (sym a.threads) (sym a.next_tid) v.table;
}

pub Alike-IsLive :
    (s s' : RuntimeState) → Alike s s' → s'.current_tid ≡ s.current_tid → IsLive s → IsLive s'
Alike-IsLive s s' a e v =
    let w = Alike-IsWellFormed s s' a v.well_formed in
    record {
      well_formed = w;
      current = elim v.current [
        | inl idle ↦ inl (e ∙ idle)
        | inr c ↦ inr (
            Current-kept s s' v.well_formed w c e
              (ap (λ ts. get_or ts c.slot zero_thread) a.threads))
      ];
    }

pub traced-IsLive :
    (type : EventType) (tid data1 data2 : ℕ) (s : RuntimeState)
    → IsLive s
    → IsLive (trace_record type tid data1 data2 s)
unfolding trace_record
traced-IsLive type tid data1 data2 s v =
    Alike-IsLive s (trace_record type tid data1 data2 s)
      (record { threads = refl; next_tid = refl; ready = refl; blocked = refl }) refl v

-- The current thread's slot is found under its identifier.
pub find_thread-current :
    (s : RuntimeState)
    → IsLive s
    → current_slot_index s < max_threads
    → find_thread s s.current_tid ≡ some (current_slot_index s)
unfolding current_slot_index
find_thread-current s v =
    if-cases (λ x. x < max_threads → find_thread s s.current_tid ≡ some x) (s.current_tid == 0)
      (λ idle h. absurd (omega arith))
      (λ busy. elim (Option-cases (find_thread s s.current_tid)) [
        | inl e ↦ rw e (λ h. absurd (omega arith))
        | inr (slot, e) ↦
            let f = find_thread-some s s.current_tid slot e in
            rw e (λ h. ap some (sym (v.well_formed.table.indexed slot f.inside f.in_use)))
      ])

-- A block of the current thread, whatever is recorded of it.
pub blocked-IsLive :
    (s s' : RuntimeState) (slot : ℕ)
    → IsLive s
    → find_thread s s.current_tid ≡ some slot
    → Alike (block_in (some slot) s).0 s'
    → IsLive (back s')
blocked-IsLive s s' slot v e a =
    let b =
      block_in-IsLive s v.well_formed
        (record { slot = slot; found = e; active = current_of s slot v e }) in
    back-IsLive s' (
      Alike-IsWellFormed (back (block_in (some slot) s).0) s'
        (record {
          threads = a.threads;
          next_tid = a.next_tid;
          ready = a.ready;
          blocked = a.blocked;
        })
        b.well_formed)

-- `gth_thread_block` fails and changes nothing, or is suspended.
pub data Blocking (s : RuntimeState) (r : RuntimeState × Flow) : Type 0 where
  refused : r ≡ (s, returned estate) → Blocking s r
  leaves : (slot : ℕ) → r.1 ≡ suspended slot → IsLive (back r.0) → Blocking s r

pub thread_block-Blocking : (s : RuntimeState) → IsLive s → Blocking s (thread_block s)
unfolding thread_block block_in
thread_block-Blocking s v =
    let P : RuntimeState × Flow → Type 0 = Blocking s in
    if-cases P (not s.initialized) (λ off. refused refl)
      (λ on.
        if-cases P (s.current_tid == 0) (λ idle. refused refl)
          (λ busy. elim (Option-cases (find_thread s s.current_tid)) [
            | inl e ↦ rw e (refused refl)
            | inr (slot, e) ↦ rw e (
                leaves slot refl (
                  blocked-IsLive s (block_in (some slot) s).0 slot v e
                    (record { threads = refl; next_tid = refl; ready = refl; blocked = refl })))
          ]))

-- An unblocking on a table that is well formed, whichever thread runs.
unblock_slot-Alike :
    (s : RuntimeState) (slot : ℕ) → Alike (unblock_slot slot (back s)).0 (unblock_slot slot s).0
unfolding unblock_slot trace_record
unblock_slot-Alike s slot = record {
  threads = ground arith;
  next_tid = ground arith;
  ready = ground arith;
  blocked = ground arith;
}

pub unblock_slot-IsWellFormed :
    (s : RuntimeState) (slot : ℕ) → IsWellFormed s → IsWellFormed (unblock_slot slot s).0
unblock_slot-IsWellFormed s slot v =
    Alike-IsWellFormed (unblock_slot slot (back s)).0 (unblock_slot slot s).0
      (unblock_slot-Alike s slot) (unblock_slot-IsLive (back s) slot (back-IsLive s v)).well_formed

-- The current thread runs again, after a block that has been taken back.
pub rerun-IsLive :
    (s s' : RuntimeState) (slot : ℕ)
    → IsLive s
    → find_thread s s.current_tid ≡ some slot
    → s'.threads ≡ set s.threads slot (turned s slot ThreadState.running)
    → s'.next_tid ≡ s.next_tid
    → s'.runnable_threads ≡ s.runnable_threads
    → s'.blocked_threads ≡ s.blocked_threads
    → s'.current_tid ≡ s.current_tid
    → IsLive s'
rerun-IsLive s s' slot v e w n r b t = record {
  well_formed = wf;
  current = inr (
      Current-at s' slot wf h (ap (λ t. is_empty t.state) at)
        (ap (λ t. t.tid) at ∙ f.same_tid ∙ sym t)
        (record {
          not_ready = ap (λ t. is_ready t.state) at;
          not_blocked = ap (λ t. is_blocked t.state) at;
        }));
}
  where
    f : Found s.current_tid s.threads slot
    f = find_thread-some s s.current_tid slot e

    h : slot < max_threads
    h = omega (arith, f.inside, v.well_formed.counted.slots)

    counted : IsCounted s'
    counted =
        let m = put-Moved s slot (turned s slot ThreadState.running) v.well_formed.counted h in
        let a = current_of s slot v e in
        record {
          slots = ap length w ∙ m.slots;
          ready = r ∙ ground (arith, m.ready, a.not_ready) ∙ ap (count is_ready) (sym w);
          blocked = b ∙ ground (arith, m.blocked, a.not_blocked) ∙ ap (count is_blocked) (sym w);
        }

    wf : IsWellFormed s'
    wf =
        put-IsWellFormed s s' slot (turned s slot ThreadState.running) v.well_formed h f.in_use refl
          refl (w, n) counted

    at : thread_at s' slot ≡ turned s slot ThreadState.running
    at =
        ap (λ ts. get_or ts slot zero_thread) w
        ∙ get_or-set_self s.threads slot (turned s slot ThreadState.running) zero_thread f.inside
