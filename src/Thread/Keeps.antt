-- ===== src/Thread/Keeps.antt =====
-- src/thread/thread.c, src/context/context.c: the end of a thread and an unblock keep the invariant.

use gthreads.Base.{
  ℕ, ◌<◌, ◌≤◌, ◌≡◌, ◌≢◌, refl, sym, ap, ◌∙◌, subst, true, false, arith, inl, inr, Bool-cases,
  length, get_or, set, get_or-set_ne, dec_lt,
}
use gthreads.State.{ThreadState, RuntimeState}
use gthreads.Trace.{trace_record}
use gthreads.Runtime.{max_threads, zero_thread, thread_at, is_ready, is_blocked}
use gthreads.Runtime.Count.{count, IsCounted}
use gthreads.Runtime.Find.{find_thread-some}
use gthreads.Runtime.WellFormed.{IsWellFormed}
use gthreads.Context.{trampoline_exit, finish_thread}
use gthreads.Thread.{unblock_slot}
use gthreads.Thread.Counted.{put-Moved, IsActive, unblock_slot-IsCounted}
use gthreads.Thread.Live.{
  Current, IsLive, Current-kept, put-IsWellFormed, turned, trampoline_exit-table, finish_thread_lem,
  used_when_blocked,
}

trampoline_exit-IsCounted :
    (s : RuntimeState) (slot result : ℕ)
    → IsCounted s
    → slot < max_threads
    → IsActive s slot
    → IsCounted (trampoline_exit slot result s)
trampoline_exit-IsCounted s slot result c h a =
    let m = put-Moved s slot (finish_thread (thread_at s slot) result) c h in
    let w = trampoline_exit-table s slot result in
    let k = finish_thread_lem (thread_at s slot) result in
    let still : (s.runnable_threads
          ≡ count is_ready (set s.threads slot (finish_thread (thread_at s slot) result)))
        × (s.blocked_threads
            ≡ count is_blocked (set s.threads slot (finish_thread (thread_at s slot) result))) =
      ground (arith, m.ready, m.blocked, k.2, k.3, a.not_ready, a.not_blocked) in
    record {
      slots = ap length w.0 ∙ m.slots;
      ready = w.2 ∙ still.0 ∙ ap (count is_ready) (sym w.0);
      blocked = w.3 ∙ still.1 ∙ ap (count is_blocked) (sym w.0);
    }

pub trampoline_exit-IsLive :
    (s : RuntimeState) (result : ℕ)
    → IsWellFormed s
    → (c : Current s) → IsLive (trampoline_exit c.slot result s)
trampoline_exit-IsLive s result v c =
    let f = find_thread-some s s.current_tid c.slot c.found in
    let h : c.slot < max_threads = omega (arith, f.inside, v.counted.slots) in
    let w = trampoline_exit-table s c.slot result in
    let k = finish_thread_lem (thread_at s c.slot) result in
    record {
      well_formed =
          put-IsWellFormed s (trampoline_exit c.slot result s) c.slot
            (finish_thread (thread_at s c.slot) result) v h f.in_use k.0 k.1 (w.0, w.1)
            (trampoline_exit-IsCounted s c.slot result v.counted h c.active);
      current = inl w.4;
    }

-- An unblocking that takes effect.
pub unblock_slot-table :
    (s : RuntimeState) (slot : ℕ)
    → s.initialized ≡ true
    → slot < max_threads
    → is_blocked (thread_at s slot).state ≡ true
    → ((unblock_slot slot s).0.threads ≡ set s.threads slot (turned s slot ThreadState.ready))
      × ((unblock_slot slot s).0.next_tid ≡ s.next_tid)
unfolding unblock_slot trace_record
unblock_slot-table s slot on h b = ground arith

unblock_slot-current :
    (s : RuntimeState) (slot : ℕ) → (unblock_slot slot s).0.current_tid ≡ s.current_tid
unfolding unblock_slot trace_record
unblock_slot-current s slot = ground arith

pub unblock_slot_off :
    (s : RuntimeState) (slot : ℕ) → s.initialized ≡ false → (unblock_slot slot s).0 ≡ s
unfolding unblock_slot
unblock_slot_off s slot h = ground arith

pub unblock_slot_outside :
    (s : RuntimeState) (slot : ℕ) → max_threads ≤ slot → (unblock_slot slot s).0 ≡ s
unfolding unblock_slot
unblock_slot_outside s slot h = ground arith

pub unblock_slot_idle :
    (s : RuntimeState) (slot : ℕ)
    → is_blocked (thread_at s slot).state ≡ false
    → (unblock_slot slot s).0 ≡ s
unfolding unblock_slot
unblock_slot_idle s slot h = ground arith

unblock_slot-acts :
    (s : RuntimeState) (slot : ℕ)
    → IsLive s
    → s.initialized ≡ true
    → slot < max_threads
    → is_blocked (thread_at s slot).state ≡ true
    → IsLive (unblock_slot slot s).0
unblock_slot-acts s slot v on h b = record {
  well_formed = w;
  current = elim v.current [
    | inl idle ↦ inl (unblock_slot-current s slot ∙ idle)
    | inr c ↦ inr (
        Current-kept s (unblock_slot slot s).0 v.well_formed w c (unblock_slot-current s slot) (
          ap (λ ts. get_or ts c.slot zero_thread) moved.0
          ∙ get_or-set_ne s.threads slot c.slot (turned s slot ThreadState.ready) zero_thread
              (apart c)))
  ];
}
  where
    moved :
        ((unblock_slot slot s).0.threads ≡ set s.threads slot (turned s slot ThreadState.ready))
        × ((unblock_slot slot s).0.next_tid ≡ s.next_tid)
    moved = unblock_slot-table s slot on h b

    w : IsWellFormed (unblock_slot slot s).0
    w =
        put-IsWellFormed s (unblock_slot slot s).0 slot (turned s slot ThreadState.ready)
          v.well_formed h (used_when_blocked (thread_at s slot).state b) refl refl moved
          (unblock_slot-IsCounted s slot v.well_formed.counted)

    apart : (c : Current s) → slot ≢ c.slot
    apart c e =
        let p = subst (λ x. is_blocked (thread_at s x).state ≡ true) e b in
        let q = c.active.not_blocked in cc

pub unblock_slot-IsLive : (s : RuntimeState) (slot : ℕ) → IsLive s → IsLive (unblock_slot slot s).0
unblock_slot-IsLive s slot v = elim (Bool-cases s.initialized) [
  | inr off ↦ subst IsLive (sym (unblock_slot_off s slot off)) v
  | inl on ↦ elim (dec_lt slot max_threads) [
    | no out ↦ subst IsLive (sym (unblock_slot_outside s slot (omega arith))) v
    | yes h ↦ elim (Bool-cases (is_blocked (thread_at s slot).state)) [
      | inr idle ↦ subst IsLive (sym (unblock_slot_idle s slot idle)) v
      | inl b ↦ unblock_slot-acts s slot v on h b
    ]
  ]
]
