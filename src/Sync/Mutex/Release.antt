-- ===== src/Sync/Mutex/Release.antt =====
-- src/sync/mutex.c: `gth_mutex_unlock` on every branch.
use gthreads.Base.{
  ℕ, ◌<◌, ◌≡◌, ◌≢◌, refl, sym, ap, ◌∙◌, subst, List, [], ◌∷◌, true, false, arith, ◌==◌, length,
  if-cases, not, ℕ_discrete, ◌&&◌, ◌⊎◌, inl, inr,
}
use gthreads.State.{Status, ok}
use gthreads.Runtime.{max_threads}
use gthreads.Thread.{thread_self}
use gthreads.Thread.Wake.{woken}
use gthreads.WaitQueue.{is_empty}
use gthreads.WaitQueue.Ring.{IsValid, contents, entry, length-collect}
use gthreads.WaitQueue.Remove.{has}
use gthreads.Sync.Objects.{Sys}
use gthreads.Sync.Mutex.{mutex_unlock, wake_one}
use gthreads.Sync.Mutex.Unlock.{
  Released, freed, freed-at, traced-threads, mutex_unlock-owner, mutex_unlock-wakes,
}

-- A held mutex that the caller owns, or that the main context has locked.
pub record Unlockable (m : ℕ) (s : Sys) : Type 0 where
  pub address : m ≢ 0
  pub initialized : (s.mutexes m).initialized ≢ 0
  pub locked : (s.mutexes m).locked ≢ 0
  pub owner : ((s.mutexes m).owner ≡ 0) ⊎ ((s.mutexes m).owner ≡ thread_self s.rt)

-- What an unlock does by the threads that wait.
abbrev pub Handed : ℕ → List ℕ → Sys → Sys → Type 0
Handed m [] s s' = Released m [] s.rt.threads s'
Handed m (x ∷ rest) s s' = Released m rest (woken x s.rt) s'

abbrev pub UnlockOutcome : ℕ → List ℕ → Sys → Sys × Status → Type 0
UnlockOutcome m waiters s (s', ok) = Unlockable m s × Handed m waiters s s'
UnlockOutcome m waiters s (s', failed) = (s' ≡ s) × ¬ (Unlockable m s)

wake_one-none :
    (m : ℕ) (s : Sys) → contents (s.mutexes m).wq ≡ [] → wake_one m (freed m s) ≡ freed m s
unfolding wake_one is_empty
wake_one-none m s e =
    let wq = ((freed m s).mutexes m).wq in
    let same : contents wq ≡ [] = ap (λ i. contents i.wq) (freed-at m s) ∙ e in
    let idle : wq.count ≡ 0 =
      ground (arith, length-collect (entry wq) 0 wq.count, ap length same) in
    ground (arith, idle)

unlocked-Handed :
    (m : ℕ) (l : List ℕ) (s : Sys)
    → Unlockable m s
    → IsValid (s.mutexes m).wq
    → contents (s.mutexes m).wq ≡ l
    → s.rt.initialized ≡ true
    → ((x : ℕ) → has x l ≡ true → x < max_threads)
    → ((mutex_unlock m s).1 ≡ ok) × Handed m l s (mutex_unlock m s).0
unfolding has
unlocked-Handed m [] s u v e on inside =
    let at = freed-at m s in
    rw (mutex_unlock-owner m s u.address u.initialized u.locked u.owner, wake_one-none m s e)
      (
        refl,
        record {
          locked = ap (λ i. i.locked) at;
          owner = ap (λ i. i.owner) at;
          valid = subst (λ i. IsValid i.wq) (sym at) v;
          queue = ap (λ i. contents i.wq) at ∙ e;
          table = traced-threads _ m _;
        },
      )
unlocked-Handed m (x ∷ rest) s u v e on inside = mutex_unlock-wakes m x rest s (record {
  address = u.address;
  initialized = u.initialized;
  locked = u.locked;
  owner = u.owner;
  valid = v;
  queue = e;
  running = on;
  inside = inside x (ground arith);
})

owned :
    (owner self : ℕ)
    → not (owner == 0) && not (owner == self) ≡ false
    → (owner ≡ 0) ⊎ (owner ≡ self)
owned owner self e = elim (ℕ_discrete owner 0) [
  | yes free ↦ inl free
  | no ne ↦ inr (ground (arith, e, ne))
]

succeeded :
    (m : ℕ) (l : List ℕ) (s : Sys) (r : Sys × Status)
    → Unlockable m s
    → (r.1 ≡ ok) × Handed m l s r.0
    → UnlockOutcome m l s r
succeeded m l s (s', ok) u h = (u, h.1)
succeeded m l s (s', _) u h = cc h.0

-- A call of `gth_mutex_unlock`, when the runtime is initialized and the queue is valid and holds
-- slots of the table. It succeeds exactly on an initialised mutex that is held, by the caller or by
-- the main context. Then the mutex is free without an owner; with no waiter the table is as before,
-- and else the longest waiter leaves the queue, ready if it was blocked, and no other thread
-- changes. A call that fails changes nothing.
pub mutex_unlock_lem :
    (m : ℕ) (s : Sys)
    → IsValid (s.mutexes m).wq
    → s.rt.initialized ≡ true
    → ((x : ℕ) → has x (contents (s.mutexes m).wq) ≡ true → x < max_threads)
    → UnlockOutcome m (contents (s.mutexes m).wq) s (mutex_unlock m s)
unfolding mutex_unlock
mutex_unlock_lem m s v on inside =
    let impl = s.mutexes m in
    let l = contents impl.wq in
    let P : Sys × Status → Type 0 = λ r. mutex_unlock m s ≡ r → UnlockOutcome m l s r in
    if-cases P (m == 0) (λ h e. (refl, λ u. u.address (ground (arith, h))))
      (λ a.
        if-cases P (impl.initialized == 0) (λ h e. (refl, λ u. u.initialized (ground (arith, h))))
          (λ i.
            if-cases P (impl.locked == 0) (λ h e. (refl, λ u. u.locked (ground (arith, h))))
              (λ k.
                if-cases P (not (impl.owner == 0) && not (impl.owner == thread_self s.rt))
                  (λ h e. (refl, λ u. ground (arith, h, u.owner)))
                  (λ mine e.
                    let u : Unlockable m s = record {
                      address = ground (arith, a);
                      initialized = ground (arith, i);
                      locked = ground (arith, k);
                      owner = owned impl.owner (thread_self s.rt) mine;
                    } in
                    succeeded m l s _ u (
                      subst (λ r. (r.1 ≡ ok) × Handed m l s r.0) e
                        (unlocked-Handed m l s u v refl on inside))))))
      refl
