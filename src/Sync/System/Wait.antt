-- ===== src/Sync/System/Wait.antt =====
-- src/sync/cond.c: `gth_cond_wait` keeps the invariant.
use gthreads.Base.{
  ℕ, ◌<◌, ◌≡◌, ◌≢◌, refl, sym, subst, arith, ◌==◌, leb, if-cases, inl, inr, ◌⊎◌, u8, some,
}
use gthreads.State.{RuntimeState, Flow, ok}
use gthreads.Trace.{trace_record}
use gthreads.Trace.Format.{EventType}
use gthreads.Runtime.{max_threads, find_thread}
use gthreads.Runtime.Find.{find_thread-some}
use gthreads.Runtime.WellFormed.{IsWellFormed}
use gthreads.Runtime.Count.{count-le-length}
use gthreads.Runtime.{is_blocked}
use gthreads.Thread.{current_slot_index, block_in}
use gthreads.Thread.Live.{IsLive, back, back-IsLive}
use gthreads.WaitQueue.{enqueue, remove, is_full}
use gthreads.Sync.Objects.{Sys, put_cond}
use gthreads.Sync.Mutex.{mutex_unlock}
use gthreads.Sync.Cond.{cond_enter, cond_undo, cond_release, cond_wait}
use gthreads.Sync.Cond.Undo.{
  after_unlock, cond_release-after_unlock, after_unlock-failed, undone-threads, undone-count,
}
use gthreads.Sync.System.{settle}
use gthreads.Sync.System.Waiting.{enqueue-IsWaiting, remove-IsWaiting}
use gthreads.Sync.System.Rest.{
  Alike-IsWellFormed, find_thread-current, blocked-IsLive, unblock_slot-IsWellFormed, rerun-IsLive,
}
use gthreads.Sync.System.Safe.{IsSound, IsSafe, put_cond-IsSafe, with_rt-IsSafe}
use gthreads.Sync.System.Unlocks.{mutex_unlock-IsSound}

-- The invariant with the counters and the table right, whichever thread runs.
abbrev IsSettling : Sys → Type 0
IsSettling = IsSound IsWellFormed

traced-IsWellFormed :
    (type : EventType) (tid data1 data2 : ℕ) (s : RuntimeState)
    → IsWellFormed s
    → IsWellFormed (trace_record type tid data1 data2 s)
unfolding trace_record
traced-IsWellFormed type tid data1 data2 s =
    Alike-IsWellFormed s (trace_record type tid data1 data2 s)
      (record { threads = refl; next_tid = refl; ready = refl; blocked = refl })

-- A current thread in `slot`, which is in the table.
record IsCaller (slot : ℕ) (s : Sys) : Type 0 where
  safe : IsSafe s
  inside : slot < max_threads
  found : find_thread s.rt s.rt.current_tid ≡ some slot

enqueued-IsSafe :
    (c slot : ℕ) (s : Sys)
    → IsCaller slot s
    → IsSafe (put_cond s c (record (s.conds c) { wq = enqueue (s.conds c).wq (u8 slot) }))
enqueued-IsSafe c slot s k =
    put_cond-IsSafe s c _ k.safe
      (λ on. enqueue-IsWaiting (s.conds c).wq slot (k.safe.conds c on) k.inside)

cond_enter-IsSettling : (c slot : ℕ) (s : Sys) → IsCaller slot s → IsSettling (cond_enter c slot s)
unfolding cond_enter block_in trace_record
cond_enter-IsSettling c slot s k =
    let b =
      blocked-IsLive s.rt (cond_enter c slot s).rt slot k.safe.live k.found
        (record { threads = refl; next_tid = refl; ready = refl; blocked = refl }) in
    with_rt-IsSafe (put_cond s c (record (s.conds c) { wq = enqueue (s.conds c).wq (u8 slot) }))
      (cond_enter c slot s).rt (enqueued-IsSafe c slot s k)
      (Alike-IsWellFormed (back (cond_enter c slot s).rt) (cond_enter c slot s).rt
        (record { threads = refl; next_tid = refl; ready = refl; blocked = refl }) b.well_formed)

undone-Alike :
    (c slot : ℕ) (s : Sys)
    → let s' = cond_undo c slot (cond_enter c slot s) in
      (s'.rt.next_tid ≡ s.rt.next_tid)
      × (s'.rt.runnable_threads ≡ s.rt.runnable_threads)
      × (s'.rt.current_tid ≡ s.rt.current_tid)
unfolding cond_undo cond_enter trace_record
undone-Alike c slot s = (refl, refl, refl)

undone-IsLive :
    (c slot : ℕ) (s : Sys) → IsCaller slot s → IsLive (cond_undo c slot (cond_enter c slot s)).rt
undone-IsLive c slot s k =
    let a = undone-Alike c slot s in
    let f = find_thread-some s.rt s.rt.current_tid slot k.found in
    let t = k.safe.live.well_formed.counted in
    rerun-IsLive s.rt (cond_undo c slot (cond_enter c slot s)).rt slot k.safe.live k.found
      (undone-threads c slot s f.inside) a.0 a.1
      (undone-count c slot s
        (omega (arith, t.slots, t.blocked, count-le-length is_blocked s.rt.threads)))
      a.2

cond_undo-IsSafe :
    (c slot : ℕ) (s : Sys) → IsCaller slot s → IsSafe (cond_undo c slot (cond_enter c slot s))
unfolding cond_undo
cond_undo-IsSafe c slot s k =
    let entered = cond_enter c slot s in
    let e = cond_enter-IsSettling c slot s k in
    let q =
      put_cond-IsSafe entered c
        (record (entered.conds c) { wq = (remove (entered.conds c).wq (u8 slot)).0 }) e
        (λ on. remove-IsWaiting (entered.conds c).wq (u8 slot) (e.conds c on)) in
    with_rt-IsSafe _ (cond_undo c slot entered).rt q (undone-IsLive c slot s k)

-- An unlock that fails changes nothing.
pub mutex_unlock_failed :
    (m : ℕ) (s : Sys)
    → ((mutex_unlock m s).1 ≡ ok) ⊎ (((mutex_unlock m s).1 ≢ ok) × ((mutex_unlock m s).0 ≡ s))
unfolding mutex_unlock
mutex_unlock_failed m s = ground arith

cond_release-Settled :
    (c m slot : ℕ) (s : Sys)
    → IsCaller slot s
    → IsSafe (settle (cond_release c m slot (cond_enter c slot s)))
cond_release-Settled c m slot s k =
    let entered = cond_enter c slot s in
    let u =
      mutex_unlock-IsSound IsWellFormed traced-IsWellFormed
        (λ x rt v. unblock_slot-IsWellFormed rt x v) m entered (cond_enter-IsSettling c slot s k) in
    rw (cond_release-after_unlock c m slot entered) (elim (mutex_unlock_failed m entered) [
      | inl done ↦
          subst (λ x. IsSafe (settle (after_unlock c slot (mutex_unlock m entered).0 x))) (sym done)
            (with_rt-IsSafe (mutex_unlock m entered).0 (back (mutex_unlock m entered).0.rt) u
              (back-IsLive (mutex_unlock m entered).0.rt u.live))
      | inr (failed, same) ↦
          subst (λ r. IsSafe (settle r))
            (sym (
              after_unlock-failed c slot (mutex_unlock m entered).0 (mutex_unlock m entered).1
                failed))
            (subst (λ x. IsSafe (cond_undo c slot x)) (sym same) (cond_undo-IsSafe c slot s k))
    ])

pub cond_wait-Settled : (c m : ℕ) (s : Sys) → IsSafe s → IsSafe (settle (cond_wait c m s))
unfolding cond_wait
cond_wait-Settled c m s v =
    let P : Sys × Flow → Type 0 = λ r. IsSafe (settle r) in
    if-cases P (c == 0) (λ h. v)
      (λ h.
        if-cases P (m == 0) (λ h. v)
          (λ h.
            if-cases P ((s.conds c).initialized == 0) (λ h. v)
              (λ h.
                if-cases P (leb max_threads (current_slot_index s.rt)) (λ h. v)
                  (λ inside.
                    if-cases P (is_full (s.conds c).wq) (λ h. v)
                      (λ room.
                        let k : current_slot_index s.rt < max_threads = ground (arith, inside) in
                        cond_release-Settled c m (current_slot_index s.rt) s (record {
                          safe = v;
                          inside = k;
                          found = find_thread-current s.rt v.live k;
                        }))))))
