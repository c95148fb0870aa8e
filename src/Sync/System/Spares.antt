-- ===== src/Sync/System/Spares.antt =====
-- src/sync: the calls that leave a held mutex alone.
use gthreads.Base.{ℕ, ◌≡◌, ◌≢◌, refl, sym, ap, ◌∙◌, false, arith, ◌==◌, leb, if-cases, not, ◌&&◌}
use gthreads.State.{Flow, Status, ok, returned, suspended}
use gthreads.Runtime.{max_threads}
use gthreads.Thread.{thread_self, current_slot_index}
use gthreads.WaitQueue.{is_full}
use gthreads.Sync.Objects.{Sys}
use gthreads.Sync.Mutex.{lock_fuel, wake_one, mutex_unlock}
use gthreads.Sync.Mutex.Unlock.{freed}
use gthreads.Sync.Sem.{sem_init, sem_wait, sem_post, sem_destroy}
use gthreads.Sync.Cond.{
  cond_init, cond_signal, cond_broadcast, cond_destroy, cond_enter, cond_release, cond_wait,
}
use gthreads.Sync.Cond.Undo.{after_unlock, cond_release-after_unlock, mutexes-cond_enter}
use gthreads.Sync.System.{
  settle, Move, thread, init_mutex, lock, relock, trylock, unlock, destroy_mutex, init_cond, wait,
  signal, broadcast, destroy_cond, init_sem, take, post, destroy_sem,
}
use gthreads.Sync.System.Safe.{IsSafe}
use gthreads.Sync.System.Untouched.{
  mutexes-sem_init, mutexes-sem_wait, mutexes-sem_post, mutexes-sem_destroy, mutexes-cond_init,
  mutexes-cond_signal, mutexes-cond_broadcast, mutexes-cond_destroy, mutexes-cond_undo,
}
use gthreads.Sync.System.Excludes.{
  lock_loop-Stays, mutex_lock-Stays, mutex_trylock-Stays, mutex_init-Stays, mutex_destroy-Stays,
  wake_one-Stays,
}

-- If the mutex at `m` is held, it keeps its flag and its owner.
abbrev pub Keeps : ℕ → Sys → Sys → Type 0
Keeps m s t =
    (s.mutexes m).locked ≢ 0
    → ((t.mutexes m).locked ≡ (s.mutexes m).locked) × ((t.mutexes m).owner ≡ (s.mutexes m).owner)

-- The calls and switches that do not ask for a release of the mutex at `m`: all but its
-- `gth_mutex_unlock` and the `gth_cond_wait` calls with it.
abbrev pub Spares : ℕ → {s t : Sys} → Move s t → Type 0
Spares m (unlock s x) = m ≢ x
Spares m (wait s c x) = m ≢ x
Spares m _ = Unit

pub same-Keeps : (m : ℕ) (s t : Sys) → t.mutexes ≡ s.mutexes → Keeps m s t
same-Keeps m s t e h = (ap (λ f. (f m).locked) e, ap (λ f. (f m).owner) e)

wake_one-Keeps : (m x : ℕ) (s : Sys) → m ≢ x → Keeps m s (wake_one x (freed x s))
wake_one-Keeps m x s ne h =
    let miss : (m == x) ≡ false = ground (arith, ne) in
    let same : (freed x s).mutexes m ≡ s.mutexes m = rw miss refl in
    let w = wake_one-Stays x (freed x s) m (λ z. h (sym (ap (λ i. i.locked) same) ∙ z)) in
    (w.0 ∙ ap (λ i. i.locked) same, w.1 ∙ ap (λ i. i.owner) same)

unlock-Keeps : (m x : ℕ) (s : Sys) → m ≢ x → Keeps m s (mutex_unlock x s).0
unfolding mutex_unlock
unlock-Keeps m x s ne =
    let i = s.mutexes x in
    let P : Sys × Status → Type 0 = λ r. Keeps m s r.0 in
    let same = same-Keeps m s s refl in
    if-cases P (x == 0) (λ h. same)
      (λ h.
        if-cases P (i.initialized == 0) (λ h. same)
          (λ h.
            if-cases P (i.locked == 0) (λ h. same)
              (λ h.
                if-cases P (not (i.owner == 0) && not (i.owner == thread_self s.rt)) (λ h. same)
                  (λ mine. wake_one-Keeps m x s ne))))

-- An unlock that fails changes nothing.
unlock-failed : (x : ℕ) (s : Sys) → (mutex_unlock x s).1 ≢ ok → (mutex_unlock x s).0 ≡ s
unfolding mutex_unlock
unlock-failed x s =
    let i = s.mutexes x in
    let P : Sys × Status → Type 0 = λ r. r.1 ≢ ok → r.0 ≡ s in
    if-cases P (x == 0) (λ h e. refl)
      (λ h.
        if-cases P (i.initialized == 0) (λ h e. refl)
          (λ h.
            if-cases P (i.locked == 0) (λ h e. refl)
              (λ h.
                if-cases P (not (i.owner == 0) && not (i.owner == thread_self s.rt)) (λ h e. refl)
                  (λ mine e. absurd (e refl)))))

after_unlock-mutexes :
    (c slot : ℕ) (s : Sys) (status : Status)
    → (settle (after_unlock c slot s status)).mutexes ≡ s.mutexes
after_unlock-mutexes c slot s ok = refl
after_unlock-mutexes c slot s _ = mutexes-cond_undo c slot s

after_unlock-failed :
    (c slot : ℕ) (s : Sys) (status : Status)
    → (after_unlock c slot s status).1 ≢ suspended slot
    → status ≢ ok
after_unlock-failed c slot s ok h e = h refl
after_unlock-failed c slot s _ h e = cc e

through_enter :
    (m c slot : ℕ) (s t t' : Sys)
    → t'.mutexes ≡ t.mutexes
    → Keeps m (cond_enter c slot s) t
    → Keeps m s t'
through_enter m c slot s t t' e k h =
    let f = ap (λ q. q m) (mutexes-cond_enter c slot s).0 in
    let f' = ap (λ q. q m) e in
    let (a, b) = k (λ z. h (ap (λ i. i.locked) (sym f) ∙ z)) in
    (
      ap (λ i. i.locked) f' ∙ a ∙ ap (λ i. i.locked) f,
      ap (λ i. i.owner) f' ∙ b ∙ ap (λ i. i.owner) f,
    )

release-Keeps :
    (m c x slot : ℕ) (s : Sys)
    → m ≢ x
    → Keeps m s (settle (cond_release c x slot (cond_enter c slot s)))
release-Keeps m c x slot s ne =
    let entered = cond_enter c slot s in
    let (s', status) = mutex_unlock x entered in
    rw (cond_release-after_unlock c x slot entered) (
      through_enter m c slot s s' (settle (after_unlock c slot s' status))
        (after_unlock-mutexes c slot s' status) (unlock-Keeps m x entered ne))

release_failed-Keeps :
    (m c x slot : ℕ) (s : Sys)
    → (cond_release c x slot (cond_enter c slot s)).1 ≢ suspended slot
    → Keeps m s (settle (cond_release c x slot (cond_enter c slot s)))
release_failed-Keeps m c x slot s back =
    let entered = cond_enter c slot s in
    let (s', status) = mutex_unlock x entered in
    let e = cond_release-after_unlock c x slot entered in
    let bad =
      after_unlock-failed c slot s' status (λ z. back (ap (λ (r : Sys × Flow). r.1) e ∙ z)) in
    rw e (
      through_enter m c slot s s' (settle (after_unlock c slot s' status))
        (after_unlock-mutexes c slot s' status)
        (same-Keeps m entered s' (ap (λ (r : Sys). r.mutexes) (unlock-failed x entered bad))))

-- What each branch of `gth_cond_wait` satisfies, if the last one does.
wait-cases :
    (P : Sys × Flow → Type 0) (c x : ℕ) (s : Sys)
    → ((status : Status) → P (s, returned status))
    → (let slot = current_slot_index s.rt in P (cond_release c x slot (cond_enter c slot s)))
    → P (cond_wait c x s)
unfolding cond_wait
wait-cases P c x s same last =
    if-cases P (c == 0) (λ h. same _)
      (λ h.
        if-cases P (x == 0) (λ h. same _)
          (λ h.
            if-cases P ((s.conds c).initialized == 0) (λ h. same _)
              (λ h.
                if-cases P (leb max_threads (current_slot_index s.rt)) (λ h. same _)
                  (λ h. if-cases P (is_full (s.conds c).wq) (λ h. same _) (λ h. last)))))

wait-Keeps : (m c x : ℕ) (s : Sys) → m ≢ x → Keeps m s (settle (cond_wait c x s))
wait-Keeps m c x s ne =
    wait-cases (λ r. Keeps m s (settle r)) c x s (λ status. same-Keeps m s s refl)
      (release-Keeps m c x (current_slot_index s.rt) s ne)

-- A `gth_cond_wait` that returns at once has left every mutex alone.
pub wait_failed-Keeps :
    (m c x : ℕ) (s : Sys)
    → ((slot : ℕ) → (cond_wait c x s).1 ≢ suspended slot)
    → Keeps m s (settle (cond_wait c x s))
wait_failed-Keeps m c x s =
    wait-cases (λ r. ((slot : ℕ) → r.1 ≢ suspended slot) → Keeps m s (settle r)) c x s
      (λ status back. same-Keeps m s s refl)
      (λ back.
        release_failed-Keeps m c x (current_slot_index s.rt) s (back (current_slot_index s.rt)))

pub Spares-Keeps : (m : ℕ) {s t : Sys} (move : Move s t) → Spares m move → IsSafe s → Keeps m s t
Spares-Keeps m (thread s rt step) k v = same-Keeps m s (record s { rt = rt }) refl
Spares-Keeps m (init_mutex s x off) k v = mutex_init-Stays x s ((v.mutexes x).idle off) m
Spares-Keeps m (lock s x) k v = mutex_lock-Stays x s m
Spares-Keeps m (relock s x slot on h) k v = lock_loop-Stays lock_fuel x slot s m
Spares-Keeps m (trylock s x) k v = mutex_trylock-Stays x s m
Spares-Keeps m (unlock s x) k v = unlock-Keeps m x s k
Spares-Keeps m (destroy_mutex s x) k v = mutex_destroy-Stays x s m
Spares-Keeps m (init_cond s c) k v = same-Keeps m s (cond_init c s).0 (mutexes-cond_init c s)
Spares-Keeps m (wait s c x) k v = wait-Keeps m c x s k
Spares-Keeps m (signal s c) k v = same-Keeps m s (cond_signal c s).0 (mutexes-cond_signal c s)
Spares-Keeps m (broadcast s c) k v =
    same-Keeps m s (cond_broadcast c s).0 (mutexes-cond_broadcast c s)
Spares-Keeps m (destroy_cond s c) k v =
    same-Keeps m s (cond_destroy c s).0 (mutexes-cond_destroy c s)
Spares-Keeps m (init_sem s p n) k v = same-Keeps m s (sem_init p n s).0 (mutexes-sem_init p n s)
Spares-Keeps m (take s p) k v = same-Keeps m s (settle (sem_wait p s)) (mutexes-sem_wait p s)
Spares-Keeps m (post s p) k v = same-Keeps m s (sem_post p s).0 (mutexes-sem_post p s)
Spares-Keeps m (destroy_sem s p) k v = same-Keeps m s (sem_destroy p s).0 (mutexes-sem_destroy p s)
