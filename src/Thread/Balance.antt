-- ===== src/Thread/Balance.antt =====
-- src/thread/thread.c, src/sched/scheduler.c, src/context/context.c: the memory that is mapped at a
-- switch, an unblock and the end of a thread.
use gthreads.Base.{
  ℕ, ◌<◌, ◌≡◌, refl, sym, subst, false, arith, some, Bool-cases, inl, inr, if-cases, dec_lt, leb,
  not, length,
}
use gthreads.State.{Status, Thread, ThreadState, RuntimeState}
use gthreads.Runtime.{max_threads, thread_at, is_empty, is_blocked}
use gthreads.Context.{trampoline_exit, finish_thread}
use gthreads.Scheduler.{dispatch, traces_switch}
use gthreads.Thread.{yield_in, block_in, unblock_slot}
use gthreads.Thread.Live.{
  turned, dispatch-table, yield_in-table, block_in-table, trampoline_exit-table,
}
use gthreads.Thread.Keeps.{
  unblock_slot-table, unblock_slot_off, unblock_slot_outside, unblock_slot_idle,
}
use gthreads.Thread.Owned.{IsOwned, SameMap, traced-SameMap, kept-IsOwned}

dispatch-SameMap : (s : RuntimeState) (slot : ℕ) → SameMap s.world (dispatch slot s).world
unfolding dispatch
dispatch-SameMap s slot =
    if-cases (λ (x : RuntimeState). SameMap s.world x.world) (traces_switch s)
      (λ h. traced-SameMap _ _ _ _ s) (λ h. record { regions = refl; mmap = refl })

pub dispatch-IsOwned :
    (s : RuntimeState) (slot : ℕ) → IsOwned s → slot < length s.threads → IsOwned (dispatch slot s)
dispatch-IsOwned s slot v h =
    kept-IsOwned s (dispatch slot s) slot (turned s slot ThreadState.running) v h
      (dispatch-table s slot).0 refl refl (dispatch-SameMap s slot)

yield_in-SameMap : (s : RuntimeState) (slot : ℕ) → SameMap s.world (yield_in (some slot) s).0.world
unfolding yield_in
yield_in-SameMap s slot = traced-SameMap _ _ _ _ s

pub yield_in-IsOwned :
    (s : RuntimeState) (slot : ℕ)
    → IsOwned s
    → slot < length s.threads
    → IsOwned (yield_in (some slot) s).0
yield_in-IsOwned s slot v h =
    kept-IsOwned s (yield_in (some slot) s).0 slot (turned s slot ThreadState.ready) v h
      (yield_in-table s slot).0 refl refl (yield_in-SameMap s slot)

block_in-SameMap : (s : RuntimeState) (slot : ℕ) → SameMap s.world (block_in (some slot) s).0.world
unfolding block_in
block_in-SameMap s slot = traced-SameMap _ _ _ _ s

pub block_in-IsOwned :
    (s : RuntimeState) (slot : ℕ)
    → IsOwned s
    → slot < length s.threads
    → IsOwned (block_in (some slot) s).0
block_in-IsOwned s slot v h =
    kept-IsOwned s (block_in (some slot) s).0 slot (turned s slot ThreadState.blocked) v h
      (block_in-table s slot).0 refl refl (block_in-SameMap s slot)

finish_thread-kept :
    (t : Thread) (result : ℕ)
    → ((finish_thread t result).stack ≡ t.stack) × (is_empty (finish_thread t result).state ≡ false)
unfolding finish_thread
finish_thread-kept t result = ground arith

trampoline_exit-SameMap :
    (s : RuntimeState) (slot result : ℕ) → SameMap s.world (trampoline_exit slot result s).world
unfolding trampoline_exit
trampoline_exit-SameMap s slot result =
    let m = traced-SameMap _ _ _ _ _ in record { regions = m.regions; mmap = m.mmap }

pub trampoline_exit-IsOwned :
    (s : RuntimeState) (slot result : ℕ)
    → IsOwned s
    → slot < length s.threads
    → IsOwned (trampoline_exit slot result s)
trampoline_exit-IsOwned s slot result v h =
    let k = finish_thread-kept (thread_at s slot) result in
    kept-IsOwned s (trampoline_exit slot result s) slot (finish_thread (thread_at s slot) result) v
      h (trampoline_exit-table s slot result).0 k.0 k.1 (trampoline_exit-SameMap s slot result)

pub unblock_slot-SameMap :
    (s : RuntimeState) (slot : ℕ) → SameMap s.world (unblock_slot slot s).0.world
unfolding unblock_slot
unblock_slot-SameMap s slot =
    let P : RuntimeState × Status → Type 0 = λ r. SameMap s.world r.0.world in
    let same : SameMap s.world s.world = record { regions = refl; mmap = refl } in
    if-cases P (not s.initialized) (λ h. same)
      (λ h.
        if-cases P (leb max_threads slot) (λ h. same)
          (λ h.
            if-cases P (is_blocked (thread_at s slot).state)
              (λ h.
                let m = traced-SameMap _ _ _ _ _ in record { regions = m.regions; mmap = m.mmap })
              (λ h. same)))

pub unblock_slot-IsOwned :
    (s : RuntimeState) (slot : ℕ)
    → IsOwned s
    → length s.threads ≡ max_threads
    → IsOwned (unblock_slot slot s).0
unblock_slot-IsOwned s slot v n = elim (Bool-cases s.initialized) [
  | inr off ↦ subst IsOwned (sym (unblock_slot_off s slot off)) v
  | inl on ↦ elim (dec_lt slot max_threads) [
    | no out ↦ subst IsOwned (sym (unblock_slot_outside s slot (omega arith))) v
    | yes h ↦ elim (Bool-cases (is_blocked (thread_at s slot).state)) [
      | inr idle ↦ subst IsOwned (sym (unblock_slot_idle s slot idle)) v
      | inl b ↦
          kept-IsOwned s (unblock_slot slot s).0 slot (turned s slot ThreadState.ready) v
            (omega (arith, n)) (unblock_slot-table s slot on h b).0 refl refl
            (unblock_slot-SameMap s slot)
    ]
  ]
]
