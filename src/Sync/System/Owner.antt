-- ===== src/Sync/System/Owner.antt =====
-- src/sync/mutex.c: only its owner releases a held mutex.
use gthreads.Base.{
  ℕ, ◌≡◌, ◌≢◌, refl, sym, ap, ◌∙◌, subst, arith, ◌==◌, ==_iff, leb, Bool-cases, if-cases, inl, inr,
  ◌⊎◌, not, ◌&&◌,
}
use gthreads.State.{Flow, Status, ok}
use gthreads.Runtime.{max_threads}
use gthreads.Thread.{thread_self, current_slot_index}
use gthreads.WaitQueue.{is_full}
use gthreads.Sync.Objects.{Sys, put_mutex, put_self}
use gthreads.Sync.Mutex.{
  mutex_init, mutex_lock, lock_loop, lock_fuel, mutex_trylock, wake_one, mutex_unlock,
  mutex_destroy,
}
use gthreads.Sync.Sem.{sem_init, sem_wait, sem_post, sem_destroy}
use gthreads.Sync.Cond.{
  cond_init, cond_signal, cond_broadcast, cond_destroy, cond_enter, cond_release, cond_wait,
}
use gthreads.Sync.Cond.Undo.{after_unlock, cond_release-after_unlock, mutexes-cond_enter}
use gthreads.Sync.System.{
  settle, Move, thread, init_mutex, lock, relock, trylock, unlock, destroy_mutex, init_cond, wait,
  signal, broadcast, destroy_cond, init_sem, take, post, destroy_sem, Reaches,
}
use gthreads.Sync.System.Safe.{IsSafe}
use gthreads.Sync.System.Invariant.{Reaches-IsSafe}
use gthreads.Sync.System.Untouched.{
  mutexes-sem_init, mutexes-sem_wait, mutexes-sem_post, mutexes-sem_destroy, mutexes-cond_init,
  mutexes-cond_signal, mutexes-cond_broadcast, mutexes-cond_destroy, mutexes-cond_undo,
}
use gthreads.Sync.System.Excludes.{
  Stays, Stays-refl, lock_loop-Stays, mutex_lock-Stays, mutex_trylock-Stays, mutex_init-Stays,
  mutex_destroy-Stays, wake_one-Stays, locked-wake_one,
}

-- A held mutex keeps its flag and its owner, or has been released by its owner. A mutex taken while
-- no thread runs has the owner 0.
abbrev pub Guarded : ℕ → Sys → Sys → Type 0
Guarded self s t =
    (m : ℕ)
    → (s.mutexes m).locked ≢ 0
    → (((t.mutexes m).locked ≡ (s.mutexes m).locked) × ((t.mutexes m).owner ≡ (s.mutexes m).owner))
      ⊎ (((t.mutexes m).locked ≡ 0) × (((s.mutexes m).owner ≡ 0) ⊎ ((s.mutexes m).owner ≡ self)))

Stays-Guarded : (self : ℕ) (s t : Sys) → Stays s t → Guarded self s t
Stays-Guarded self s t p m h = inl (p m h)

-- The mutexes are as before.
same-Guarded : (self : ℕ) (s t : Sys) → t.mutexes ≡ s.mutexes → Guarded self s t
same-Guarded self s t e m h = inl (ap (λ f. (f m).locked) e, ap (λ f. (f m).owner) e)

-- The two mappings of the mutexes decide.
Guarded-same :
    (self : ℕ) (s s' t t' : Sys)
    → s'.mutexes ≡ s.mutexes
    → t'.mutexes ≡ t.mutexes
    → Guarded self s t
    → Guarded self s' t'
Guarded-same self s s' t t' e e' g m h =
    let f = ap (λ q. q m) e in
    let f' = ap (λ q. q m) e' in
    elim (g m (λ z. h (ap (λ i. i.locked) f ∙ z))) [
      | inl (a, b) ↦ inl (
        ap (λ i. i.locked) f' ∙ a ∙ sym (ap (λ i. i.locked) f),
        ap (λ i. i.owner) f' ∙ b ∙ sym (ap (λ i. i.owner) f),
      )
      | inr (a, inl b) ↦ inr (ap (λ i. i.locked) f' ∙ a, inl (ap (λ i. i.owner) f ∙ b))
      | inr (a, inr b) ↦ inr (ap (λ i. i.locked) f' ∙ a, inr (ap (λ i. i.owner) f ∙ b))
    ]

freed : ℕ → Sys → Sys
freed m s = put_mutex s m (record (s.mutexes m) { locked = 0; owner = 0 })

-- The release of `m` by its owner, with its wake-up.
wake_one-freed :
    (self m : ℕ) (s : Sys)
    → ((s.mutexes m).owner ≡ 0) ⊎ ((s.mutexes m).owner ≡ self)
    → Guarded self s (wake_one m (freed m s))
unfolding freed
wake_one-freed self m s mine x h = elim (Bool-cases (x == m)) [
  | inl hit ↦
      let e = (==_iff x m).0 hit in
      subst
        (λ y.
          (((wake_one m (freed m s)).mutexes y).locked ≡ (s.mutexes y).locked)
            × (((wake_one m (freed m s)).mutexes y).owner ≡ (s.mutexes y).owner)
          ⊎ ((((wake_one m (freed m s)).mutexes y).locked ≡ 0)
              × (((s.mutexes y).owner ≡ 0) ⊎ ((s.mutexes y).owner ≡ self))))
        (sym e)
        (inr (locked-wake_one m (freed m s) ∙ ap (λ i. i.locked) (put_self s.mutexes m _), mine))
  | inr miss ↦
      let same : (freed m s).mutexes x ≡ s.mutexes x = rw miss refl in
      let w = wake_one-Stays m (freed m s) x (λ z. h (sym (ap (λ i. i.locked) same) ∙ z)) in
      inl (w.0 ∙ ap (λ i. i.locked) same, w.1 ∙ ap (λ i. i.owner) same)
]

unlock-Guarded : (m : ℕ) (s : Sys) → Guarded (thread_self s.rt) s (mutex_unlock m s).0
unfolding mutex_unlock freed
unlock-Guarded m s =
    let i = s.mutexes m in
    let self = thread_self s.rt in
    let P : Sys × Status → Type 0 = λ r. Guarded self s r.0 in
    let same = Stays-Guarded self s s (Stays-refl s) in
    if-cases P (m == 0) (λ h. same)
      (λ h.
        if-cases P (i.initialized == 0) (λ h. same)
          (λ h.
            if-cases P (i.locked == 0) (λ h. same)
              (λ h.
                if-cases P (not (i.owner == 0) && not (i.owner == self)) (λ h. same)
                  (λ mine. wake_one-freed self m s (ground (arith, mine))))))

mutexes-after_unlock :
    (c slot : ℕ) (s : Sys) (status : Status)
    → (settle (after_unlock c slot s status)).mutexes ≡ s.mutexes
mutexes-after_unlock c slot s ok = refl
mutexes-after_unlock c slot s _ = mutexes-cond_undo c slot s

release-Guarded :
    (c m slot : ℕ) (s : Sys)
    → Guarded (thread_self s.rt) s (settle (cond_release c m slot (cond_enter c slot s)))
release-Guarded c m slot s =
    let entered = cond_enter c slot s in
    let e = mutexes-cond_enter c slot s in
    let (s', status) = mutex_unlock m entered in
    rw (cond_release-after_unlock c m slot entered) (
      Guarded-same (thread_self s.rt) entered s s' (settle (after_unlock c slot s' status))
        (sym e.0) (mutexes-after_unlock c slot s' status)
        (subst (λ x. Guarded x entered s') e.1 (unlock-Guarded m entered)))

wait-Guarded : (c m : ℕ) (s : Sys) → Guarded (thread_self s.rt) s (settle (cond_wait c m s))
unfolding cond_wait
wait-Guarded c m s =
    let P : Sys × Flow → Type 0 = λ r. Guarded (thread_self s.rt) s (settle r) in
    let same = Stays-Guarded (thread_self s.rt) s s (Stays-refl s) in
    if-cases P (c == 0) (λ h. same)
      (λ h.
        if-cases P (m == 0) (λ h. same)
          (λ h.
            if-cases P ((s.conds c).initialized == 0) (λ h. same)
              (λ h.
                if-cases P (leb max_threads (current_slot_index s.rt)) (λ h. same)
                  (λ h.
                    if-cases P (is_full (s.conds c).wq) (λ h. same)
                      (λ h. release-Guarded c m (current_slot_index s.rt) s)))))

Move-Guarded : {s t : Sys} → Move s t → IsSafe s → Guarded (thread_self s.rt) s t
Move-Guarded (thread s rt step) v = same-Guarded _ s (record s { rt = rt }) refl
Move-Guarded (init_mutex s m off) v =
    Stays-Guarded _ s (mutex_init m s).0 (mutex_init-Stays m s ((v.mutexes m).idle off))
Move-Guarded (lock s m) v = Stays-Guarded _ s (settle (mutex_lock m s)) (mutex_lock-Stays m s)
Move-Guarded (relock s m slot on h) v =
    Stays-Guarded _ s (settle (lock_loop lock_fuel m slot s)) (lock_loop-Stays lock_fuel m slot s)
Move-Guarded (trylock s m) v = Stays-Guarded _ s (mutex_trylock m s).0 (mutex_trylock-Stays m s)
Move-Guarded (unlock s m) v = unlock-Guarded m s
Move-Guarded (destroy_mutex s m) v =
    Stays-Guarded _ s (mutex_destroy m s).0 (mutex_destroy-Stays m s)
Move-Guarded (init_cond s c) v = same-Guarded _ s (cond_init c s).0 (mutexes-cond_init c s)
Move-Guarded (wait s c m) v = wait-Guarded c m s
Move-Guarded (signal s c) v = same-Guarded _ s (cond_signal c s).0 (mutexes-cond_signal c s)
Move-Guarded (broadcast s c) v =
    same-Guarded _ s (cond_broadcast c s).0 (mutexes-cond_broadcast c s)
Move-Guarded (destroy_cond s c) v = same-Guarded _ s (cond_destroy c s).0 (mutexes-cond_destroy c s)
Move-Guarded (init_sem s p n) v = same-Guarded _ s (sem_init p n s).0 (mutexes-sem_init p n s)
Move-Guarded (take s p) v = same-Guarded _ s (settle (sem_wait p s)) (mutexes-sem_wait p s)
Move-Guarded (post s p) v = same-Guarded _ s (sem_post p s).0 (mutexes-sem_post p s)
Move-Guarded (destroy_sem s p) v = same-Guarded _ s (sem_destroy p s).0 (mutexes-sem_destroy p s)

-- Mutual exclusion: from every system that is reached, and whatever call or switch comes next, where
-- a mutex is initialised only while it is not, a held mutex keeps its flag and its owner, or it becomes free and the running thread was its owner.
-- A mutex that was taken while no thread ran has the owner 0, and anyone may release it.
pub Move-excludes :
    {s t : Sys}
    → Reaches s
    → Move s t
    → (m : ℕ) → (s.mutexes m).locked ≢ 0
    → (((t.mutexes m).locked ≡ (s.mutexes m).locked) × ((t.mutexes m).owner ≡ (s.mutexes m).owner))
      ⊎ (((t.mutexes m).locked ≡ 0)
          × (((s.mutexes m).owner ≡ 0) ⊎ ((s.mutexes m).owner ≡ thread_self s.rt)))
Move-excludes r move m h = Move-Guarded move (Reaches-IsSafe r) m h
