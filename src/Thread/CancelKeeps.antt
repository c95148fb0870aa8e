-- ===== src/Thread/CancelKeeps.antt =====
-- src/thread/thread.c: the memory that is mapped at a cancellation.
use gthreads.Base.{
  ℕ, ◌≡◌, refl, sym, ap, ◌∙◌, subst, arith, Option, some, none, if-cases, if◌then◌else◌, not, ◌==◌,
}
use gthreads.State.{Status, ok, ThreadState, World, RuntimeState}
use gthreads.Trace.{trace_record}
use gthreads.Trace.Format.{EventType}
use gthreads.Runtime.{thread_at, is_blocked, is_terminal, find_thread}
use gthreads.Runtime.Find.{find_thread-some}
use gthreads.Thread.{unblock_slot, thread_cancel, cancel_in}
use gthreads.Thread.Account.{
  set_thread_state, account_state_change, leave_state, enter_state, state_code,
}
use gthreads.Thread.Cancel.{CancelOutcome, canceled_thread}
use gthreads.Thread.Owned.{IsOwned, SameMap, traced-SameMap, kept-IsOwned}
use gthreads.Thread.Balance.{unblock_slot-SameMap}

world-leave_state : (x : ThreadState) (s : RuntimeState) → (leave_state x s).world ≡ s.world
unfolding leave_state
world-leave_state x s = ground arith

world-enter_state : (x : ThreadState) (s : RuntimeState) → (enter_state x s).world ≡ s.world
unfolding enter_state
world-enter_state x s = ground arith

world-set_thread_state :
    (slot : ℕ) (x : ThreadState) (s : RuntimeState) → (set_thread_state slot x s).world ≡ s.world
unfolding set_thread_state account_state_change
world-set_thread_state slot x s =
    let from = (thread_at s slot).state in
    let P : RuntimeState → Type 0 = λ y. y.world ≡ s.world in
    if-cases P (state_code from == state_code x) (λ h. refl)
      (λ h.
        if-cases P (state_code from == state_code x) (λ h. refl)
          (λ h. world-enter_state x (leave_state from s) ∙ world-leave_state from s))

SameMap-trans : (w w' w'' : World) → SameMap w w' → SameMap w' w'' → SameMap w w''
SameMap-trans w w' w'' a b = record { regions = b.regions ∙ a.regions; mmap = b.mmap ∙ a.mmap }

cancel_in-SameMap :
    (tid : ℕ) (o : Option ℕ) (s : RuntimeState) → SameMap s.world (cancel_in tid o s).0.world
unfolding cancel_in
cancel_in-SameMap tid none s = record { regions = refl; mmap = refl }
cancel_in-SameMap tid (some slot) s =
    let t = thread_at s slot in
    let traced = trace_record EventType.thread_cancel tid 0 0 s in
    let awake = if is_blocked t.state then (unblock_slot t.slot_index traced).0 else traced in
    let first = traced-SameMap EventType.thread_cancel tid 0 0 s in
    let second : SameMap s.world awake.world =
      if-cases (λ (x : RuntimeState). SameMap s.world x.world) (is_blocked t.state)
        (λ h.
          SameMap-trans s.world traced.world (unblock_slot t.slot_index traced).0.world first
            (unblock_slot-SameMap traced t.slot_index))
        (λ h. first) in
    if-cases (λ (r : RuntimeState × Status). SameMap s.world r.0.world) (is_terminal t.state)
      (λ h. record { regions = refl; mmap = refl })
      (λ h.
        let e = world-set_thread_state slot ThreadState.canceled awake in
        record {
          regions = ap (λ (w : World). w.regions) e ∙ second.regions;
          mmap = ap (λ (w : World). w.mmap) e ∙ second.mmap;
        })

pub cancel-SameMap : (tid : ℕ) (s : RuntimeState) → SameMap s.world (thread_cancel tid s).0.world
unfolding thread_cancel
cancel-SameMap tid s =
    let P : RuntimeState × Status → Type 0 = λ r. SameMap s.world r.0.world in
    let same : SameMap s.world s.world = record { regions = refl; mmap = refl } in
    if-cases P (not s.initialized) (λ h. same)
      (λ h. if-cases P (tid == 0) (λ h. same) (λ h. cancel_in-SameMap tid (find_thread s tid) s))

pub cancel-IsOwned :
    (s : RuntimeState) (tid : ℕ) (r : RuntimeState × Status)
    → IsOwned s
    → CancelOutcome s tid r
    → SameMap s.world r.0.world
    → IsOwned r.0
cancel-IsOwned s tid (s', ok) v d e =
    kept-IsOwned s s' d.slot (canceled_thread (thread_at s d.slot)) v
      (find_thread-some s tid d.slot d.found).inside d.marked refl refl e
cancel-IsOwned s tid (s', failed) v d e = subst IsOwned (sym d) v
