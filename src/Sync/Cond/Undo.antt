-- ===== src/Sync/Cond/Undo.antt =====
-- src/sync/cond.c: `gth_cond_wait` on a mutex that the caller may not release.
use gthreads.Base.{
  ℕ, ◌+◌, ◌<◌, ◌≡◌, ◌≢◌, refl, ap, ◌∙◌, List, false, arith, ◌⊎◌, length, set, set-set,
  get_or-set_self,
}
use gthreads.State.{Status, ok, Thread, ThreadState, Flow, returned, suspended}
use gthreads.Trace.{trace_record}
use gthreads.Runtime.{max_threads, zero_thread, thread_at}
use gthreads.Thread.{thread_self, current_slot_index}
use gthreads.WaitQueue.{WaitQueue}
use gthreads.WaitQueue.Ring.{IsValid, contents}
use gthreads.WaitQueue.Remove.{has}
use gthreads.Sync.Objects.{Sys}
use gthreads.Sync.Mutex.{mutex_unlock}
use gthreads.Sync.Cond.{cond_enter, cond_undo, cond_release}

-- What follows the release of the mutex.
abbrev pub after_unlock : ℕ → ℕ → Sys → Status → Sys × Flow
after_unlock c slot s ok = (s, suspended slot)
after_unlock c slot s failed = (cond_undo c slot s, returned failed)

pub cond_release-after_unlock :
    (c m slot : ℕ) (s : Sys)
    → cond_release c m slot s ≡ after_unlock c slot (mutex_unlock m s).0 (mutex_unlock m s).1
unfolding cond_release
cond_release-after_unlock c m slot s = refl

pub after_unlock-failed :
    (c slot : ℕ) (s : Sys) (status : Status)
    → status ≢ ok
    → after_unlock c slot s status ≡ (cond_undo c slot s, returned status)
after_unlock-failed c slot s ok h = absurd (h refl)
after_unlock-failed c slot s _ h = refl

pub mutexes-cond_enter :
    (c slot : ℕ) (s : Sys)
    → ((cond_enter c slot s).mutexes ≡ s.mutexes)
      × (thread_self (cond_enter c slot s).rt ≡ thread_self s.rt)
unfolding cond_enter thread_self trace_record
mutexes-cond_enter c slot s = (refl, refl)

pub undone-threads :
    (c slot : ℕ) (s : Sys)
    → slot < length s.rt.threads
    → (cond_undo c slot (cond_enter c slot s)).rt.threads
      ≡ set s.rt.threads slot (record (thread_at s.rt slot) { state = ThreadState.running })
unfolding cond_undo cond_enter trace_record
undone-threads c slot s h =
    let blocked = record (thread_at s.rt slot) { state = ThreadState.blocked } in
    let once = set s.rt.threads slot blocked in
    ap {A = Thread} {B = List Thread}
      (λ t. set once slot (record t { state = ThreadState.running }))
      (get_or-set_self s.rt.threads slot blocked zero_thread h)
    ∙ set-set s.rt.threads slot blocked
        (record (thread_at s.rt slot) { state = ThreadState.running })

pub undone-count :
    (c slot : ℕ) (s : Sys)
    → s.rt.blocked_threads + 1 < 18446744073709551616
    → (cond_undo c slot (cond_enter c slot s)).rt.blocked_threads ≡ s.rt.blocked_threads
unfolding cond_undo cond_enter trace_record
undone-count c slot s h = omega arith

-- The mutex may not be released by the caller. One that the main context has locked has owner 0, and
-- anyone may release it.
abbrev pub NotMine : ℕ → Sys → Type 0
NotMine m s =
    ((s.mutexes m).initialized ≡ 0)
    ⊎ ((s.mutexes m).locked ≡ 0)
    ⊎ (((s.mutexes m).owner ≢ 0) × ((s.mutexes m).owner ≢ thread_self s.rt))

-- A thread in `slot`, which does not wait for the condition, calls `gth_cond_wait` with a mutex that
-- is free or not initialised, or that another thread has locked.
pub record Refused (c m slot : ℕ) (s : Sys) : Type 0 where
  pub condition : c ≢ 0
  pub mutex : m ≢ 0
  pub initialized : (s.conds c).initialized ≢ 0
  pub caller : current_slot_index s.rt ≡ slot
  pub inside : slot < max_threads
  pub in_table : slot < length s.rt.threads
  pub valid : IsValid (s.conds c).wq
  pub room : (s.conds c).wq.count < (s.conds c).wq.capacity
  pub new : has slot (contents (s.conds c).wq) ≡ false
  pub not_mine : NotMine m s
  pub counter : s.rt.blocked_threads + 1 < 18446744073709551616
