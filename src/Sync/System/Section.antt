-- ===== src/Sync/System/Section.antt =====
-- src/sync/mutex.c as a program uses it (examples/sync_demo.c): a section of code between
-- `gth_mutex_lock` and `gth_mutex_unlock`, in which a thread may make other calls.
use gthreads.Base.{
  ℕ, ◌<◌, ◌≡◌, ◌≢◌, sym, ap, ◌∙◌, subst, Bool, true, false, arith, inl, inr, ℕ_discrete, if-cases,
  not, ◌==◌,
}
use gthreads.State.{Status, ok, Flow, returned, suspended}
use gthreads.Runtime.{max_threads}
use gthreads.Thread.{thread_self}
use gthreads.Sync.Cond.{cond_wait}
use gthreads.Sync.Objects.{Sys, put, put_self}
use gthreads.Sync.Mutex.{mutex_lock, lock_loop, lock_fuel, mutex_trylock, mutex_unlock}
use gthreads.Sync.Mutex.Lock.{Acquired, mutex_lock-Acquired, lock_loop-Acquires}
use gthreads.Sync.System.{settle, Move, Reaches, next, lock, relock, trylock, unlock, wait}
use gthreads.Sync.System.Owner.{Move-excludes}
use gthreads.Sync.System.Invariant.{Reaches-IsSafe}
use gthreads.Sync.System.Spares.{Keeps, Spares, Spares-Keeps, wait_failed-Keeps}

-- A system whose threads enter and leave sections that the mutex at `m` guards; `inside` says which
-- threads are in one. `enter` and `resume` are calls of `gth_mutex_lock` that have returned success,
-- at once or behind a wait, `try` of `gth_mutex_trylock`, and `leave` is `gth_mutex_unlock`. A `gth_cond_wait` with the mutex that is
-- suspended leaves the section, which the thread enters again by the lock at the end of the wait;
-- `stay` is one that fails. `work` is any other call or switch, of a thread in a section too: a yield,
-- a signal, a post, calls on other mutexes. A thread outside of a section makes any call at all.
pub data Uses (m : ℕ) : Sys → (ℕ → Bool) → Type 0 where
  start : (s : Sys) → Reaches s → Uses m s (λ tid. false)
  enter :
      (s : Sys) (inside : ℕ → Bool)
      → Uses m s inside
      → thread_self s.rt ≢ 0
      → (mutex_lock m s).1 ≡ returned ok
      → Uses m (mutex_lock m s).0 (put inside (thread_self s.rt) true)
  try :
      (s : Sys) (inside : ℕ → Bool)
      → Uses m s inside
      → thread_self s.rt ≢ 0
      → (mutex_trylock m s).1 ≡ ok
      → Uses m (mutex_trylock m s).0 (put inside (thread_self s.rt) true)
  resume :
      (s : Sys) (inside : ℕ → Bool) (slot : ℕ)
      → Uses m s inside
      → thread_self s.rt ≢ 0
      → (s.mutexes m).initialized ≢ 0
      → slot < max_threads
      → (lock_loop lock_fuel m slot s).1 ≡ returned ok
      → Uses m (lock_loop lock_fuel m slot s).0 (put inside (thread_self s.rt) true)
  work :
      (s t : Sys) (inside : ℕ → Bool) (move : Move s t)
      → Uses m s inside
      → Spares m move
      → Uses m t inside
  sleep :
      (s : Sys) (inside : ℕ → Bool) (c slot : ℕ)
      → Uses m s inside
      → (cond_wait c m s).1 ≡ suspended slot
      → Uses m (settle (cond_wait c m s)) (put inside (thread_self s.rt) false)
  stay :
      (s : Sys) (inside : ℕ → Bool) (c : ℕ)
      → Uses m s inside
      → ((slot : ℕ) → (cond_wait c m s).1 ≢ suspended slot)
      → Uses m (settle (cond_wait c m s)) inside
  leave :
      (s : Sys) (inside : ℕ → Bool)
      → Uses m s inside
      → inside (thread_self s.rt) ≡ true
      → Uses m (mutex_unlock m s).0 (put inside (thread_self s.rt) false)
  call :
      (s t : Sys) (inside : ℕ → Bool)
      → Uses m s inside
      → inside (thread_self s.rt) ≡ false
      → Move s t
      → Uses m t inside

-- A thread in a section holds the mutex.
record Holds (m tid : ℕ) (s : Sys) : Type 0 where
  locked : (s.mutexes m).locked ≢ 0
  owner : (s.mutexes m).owner ≡ tid
  thread : tid ≢ 0

record IsGuarded (m : ℕ) (s : Sys) (inside : ℕ → Bool) : Type 0 where
  reached : Reaches s
  held : (tid : ℕ) → inside tid ≡ true → Holds m tid s

mutex_trylock-Acquired :
    (m : ℕ) (s : Sys) → (mutex_trylock m s).1 ≡ ok → Acquired m s (mutex_trylock m s).0
unfolding mutex_trylock
mutex_trylock-Acquired m s =
    let impl = s.mutexes m in
    let P : Sys × Status → Type 0 = λ r. r.1 ≡ ok → Acquired m s r.0 in
    if-cases P (m == 0) (λ h e. cc e)
      (λ h.
        if-cases P (impl.initialized == 0) (λ h e. cc e)
          (λ h.
            if-cases P (not (impl.locked == 0)) (λ h e. cc e)
              (λ h e.
                let at =
                  put_self s.mutexes m (record impl { locked = 1; owner = thread_self s.rt }) in
                record {
                  was_free = ground (arith, h);
                  locked = ap (λ i. i.locked) at;
                  owner = ap (λ i. i.owner) at;
                })))

-- A section is entered when the mutex has been free, so that no other thread is in one.
entered-Holds :
    (m : ℕ) (s s' : Sys) (inside : ℕ → Bool)
    → ((tid : ℕ) → inside tid ≡ true → Holds m tid s)
    → thread_self s.rt ≢ 0
    → Acquired m s s'
    → (tid : ℕ) → put inside (thread_self s.rt) true tid ≡ true
    → Holds m tid s'
entered-Holds m s s' inside held some_thread a tid e = elim (ℕ_discrete tid (thread_self s.rt)) [
  | yes mine ↦ record {
    locked = omega (arith, a.locked);
    owner = a.owner ∙ sym mine;
    thread = λ z. some_thread (sym mine ∙ z);
  }
  | no other ↦
      let was : inside tid ≡ true = ground (arith, e, other) in
      absurd ((held tid was).locked a.was_free)
]

-- What the next call does to the holder of the mutex, when the holder does not make it.
moved-Holds :
    (m tid : ℕ) (s t : Sys)
    → Reaches s
    → Move s t
    → Holds m tid s
    → thread_self s.rt ≢ tid
    → Holds m tid t
moved-Holds m tid s t r move h other = elim (Move-excludes r move m h.locked) [
  | inl (flag, owner) ↦ record {
    locked = λ z. h.locked (sym flag ∙ z);
    owner = owner ∙ h.owner;
    thread = h.thread;
  }
  | inr (free, inl nobody) ↦ absurd (h.thread (sym h.owner ∙ nobody))
  | inr (free, inr mine) ↦ absurd (other (sym mine ∙ h.owner))
]

-- The running thread leaves its section by a call; the others stay.
left-Holds :
    (m : ℕ) (s t : Sys) (inside : ℕ → Bool)
    → IsGuarded m s inside
    → Move s t
    → (tid : ℕ) → put inside (thread_self s.rt) false tid ≡ true
    → Holds m tid t
left-Holds m s t inside g move tid e = elim (ℕ_discrete tid (thread_self s.rt)) [
  | yes mine ↦ absurd (ground (arith, e, mine))
  | no other ↦
      moved-Holds m tid s t g.reached move (g.held tid (ground (arith, e, other)))
        (λ q. other (sym q))
]

kept-Holds : (m tid : ℕ) (s t : Sys) → Keeps m s t → Holds m tid s → Holds m tid t
kept-Holds m tid s t k h =
    let (flag, owner) = k h.locked in
    record { locked = λ z. h.locked (sym flag ∙ z); owner = owner ∙ h.owner; thread = h.thread }

settle-returned : (r : Sys × Flow) → r.1 ≡ returned ok → settle r ≡ r.0
settle-returned (s, flow) e = ap (λ f. settle (s, f)) e

Uses-IsGuarded : (m : ℕ) {s : Sys} {inside : ℕ → Bool} → Uses m s inside → IsGuarded m s inside
Uses-IsGuarded m (start s r) = record { reached = r; held = λ tid e. cc e }
Uses-IsGuarded m (enter s inside u some_thread e) =
    let g = Uses-IsGuarded m u in
    record {
      reached =
          subst Reaches (settle-returned (mutex_lock m s) e)
            (next s (settle (mutex_lock m s)) g.reached (lock s m));
      held =
          entered-Holds m s (mutex_lock m s).0 inside g.held some_thread
            (mutex_lock-Acquired m s e);
    }
Uses-IsGuarded m (try s inside u some_thread e) =
    let g = Uses-IsGuarded m u in
    record {
      reached = next s (mutex_trylock m s).0 g.reached (trylock s m);
      held =
          entered-Holds m s (mutex_trylock m s).0 inside g.held some_thread
            (mutex_trylock-Acquired m s e);
    }
Uses-IsGuarded m (resume s inside slot u some_thread on h e) =
    let g = Uses-IsGuarded m u in
    let r = lock_loop lock_fuel m slot s in
    record {
      reached =
          subst Reaches (settle-returned r e) (next s (settle r) g.reached (relock s m slot on h));
      held =
          entered-Holds m s r.0 inside g.held some_thread (lock_loop-Acquires lock_fuel m slot s e);
    }
Uses-IsGuarded m (work s t inside move u spares) =
    let g = Uses-IsGuarded m u in
    record {
      reached = next s t g.reached move;
      held = λ tid e.
          kept-Holds m tid s t (Spares-Keeps m move spares (Reaches-IsSafe g.reached))
            (g.held tid e);
    }
Uses-IsGuarded m (sleep s inside c slot u e) =
    let g = Uses-IsGuarded m u in
    let t = settle (cond_wait c m s) in
    record {
      reached = next s t g.reached (wait s c m);
      held = left-Holds m s t inside g (wait s c m);
    }
Uses-IsGuarded m (stay s inside c u back) =
    let g = Uses-IsGuarded m u in
    let t = settle (cond_wait c m s) in
    record {
      reached = next s t g.reached (wait s c m);
      held = λ tid e. kept-Holds m tid s t (wait_failed-Keeps m c m s back) (g.held tid e);
    }
Uses-IsGuarded m (leave s inside u e) =
    let g = Uses-IsGuarded m u in
    record {
      reached = next s (mutex_unlock m s).0 g.reached (unlock s m);
      held = left-Holds m s (mutex_unlock m s).0 inside g (unlock s m);
    }
Uses-IsGuarded m (call s t inside u out move) =
    let g = Uses-IsGuarded m u in
    record {
      reached = next s t g.reached move;
      held = λ tid e.
          moved-Holds m tid s t g.reached move (g.held tid e) (λ q. cc (sym out ∙ ap inside q ∙ e));
    }

-- In every system whose threads guard their sections with a mutex, in whatever order they make
-- calls and the scheduler switches, at most one thread is in a section, and it holds the mutex. In a
-- section a thread may make any call; a `gth_cond_wait` with the mutex takes it out of the section until it has the
-- mutex again.
pub Uses-unique :
    (m : ℕ) {s : Sys} {inside : ℕ → Bool}
    → Uses m s inside
    → (tid other : ℕ) → inside tid ≡ true
    → inside other ≡ true
    → (tid ≡ other) × ((s.mutexes m).owner ≡ tid) × ((s.mutexes m).locked ≢ 0)
Uses-unique m u tid other e e' =
    let g = Uses-IsGuarded m u in
    let h = g.held tid e in let h' = g.held other e' in (sym h.owner ∙ h'.owner, h.owner, h.locked)
