-- ===== src/Closed.antt =====
-- src/runtime/runtime.c: the library before `gth_runtime_init` and after `gth_runtime_shutdown`.
use gthreads.Base.{
  ℕ, ◌≡◌, ◌≢◌, refl, sym, ap, ◌∙◌, List, [], ◌∷◌, Bool, true, false, Option, some, none, arith, not,
  ◌==◌, if-cases,
}
use gthreads.State.{Status, ok, estate, Config, Mode, RuntimeState, Flow, returned}
use gthreads.Runtime.{
  free_stacks, zero_state, fresh_state, config_is_valid, runtime_init, runtime_shutdown,
  begin_shutdown, get_stats,
}
use gthreads.Thread.{
  thread_yield, thread_join, thread_cancel, thread_block, unblock_slot, thread_self,
}
use gthreads.Thread.Create.{thread_create}
use gthreads.Scheduler.{run_next, run_until}
use gthreads.Scheduler.Modes.{set_mode}
use gthreads.Trace.Session.{trace_start, trace_stop, trace_cleanup}
use gthreads.Replay.Events.{replay_init, replay_from, replay_cleanup}
use gthreads.Sync.Objects.{Sys}
use gthreads.Sync.Mutex.{mutex_lock, mutex_trylock, acquire}
use gthreads.Fuzz.{fuzz_init, fuzz_set_rate, fuzz_cleanup}

-- The calls that ask for an initialised runtime fail with ESTATE and change nothing. Calls on mutexes,
-- conditions and semaphores do not ask for one.
pub record Refuses (s : RuntimeState) : Type 0 where
  pub create :
      (has_out : Bool) (priority : Option ℕ) (fn arg : ℕ)
      → thread_create has_out priority fn arg s ≡ (s, estate, none)
  pub yield :
      (others : ℕ → RuntimeState → Option RuntimeState) (fuel : ℕ)
      → thread_yield others fuel s ≡ (s, returned estate)
  pub join :
      (others : ℕ → RuntimeState → Option RuntimeState) (fuel tid : ℕ)
      → thread_join others fuel tid s ≡ (s, returned estate, none)
  pub cancel : (tid : ℕ) → thread_cancel tid s ≡ (s, estate)
  pub block : thread_block s ≡ (s, returned estate)
  pub unblock : (slot : ℕ) → unblock_slot slot s ≡ (s, estate)
  pub self : thread_self s ≡ 0
  pub next :
      (others : ℕ → RuntimeState → Option RuntimeState) (fuel : ℕ)
      → run_next others fuel s ≡ (s, returned estate)
  pub until :
      (others : ℕ → RuntimeState → Option RuntimeState) (fuel tid : ℕ)
      → run_until others fuel tid s ≡ (s, returned estate)
  pub mode : (mode : Mode) → set_mode mode s ≡ (s, estate)
  pub start : (path : Option (List ℕ)) → trace_start path s ≡ (s, estate)
  pub stop : trace_stop s ≡ (s, estate)
  pub replay : (path : Option (List ℕ)) → replay_from path s ≡ (s, estate)
  pub fuzz : (seed : ℕ) → fuzz_init seed s ≡ (s, estate)
  pub rate : (rate : ℕ) → fuzz_set_rate rate s ≡ (s, estate)
  pub begin : begin_shutdown s ≡ (s, estate)
  pub shutdown : runtime_shutdown s ≡ (s, estate)
  pub stats : get_stats true s ≡ (estate, none)

-- `gth_mutex_lock` and `gth_mutex_trylock` on a free mutex succeed.
pub record LocksOn (rt : RuntimeState) : Type 0 where
  pub lock :
      (m : ℕ) (s : Sys)
      → s.rt ≡ rt
      → m ≢ 0
      → (s.mutexes m).initialized ≢ 0
      → (s.mutexes m).locked ≡ 0
      → (mutex_lock m s).1 ≡ returned ok
  pub trylock :
      (m : ℕ) (s : Sys)
      → s.rt ≡ rt
      → m ≢ 0
      → (s.mutexes m).initialized ≢ 0
      → (s.mutexes m).locked ≡ 0
      → (mutex_trylock m s).1 ≡ ok

lock_free :
    (m : ℕ) (s : Sys)
    → m ≢ 0
    → (s.mutexes m).initialized ≢ 0
    → (s.mutexes m).locked ≡ 0
    → (mutex_lock m s).1 ≡ returned ok
unfolding mutex_lock acquire
lock_free m s a i free =
    let P : Sys × Flow → Type 0 = λ r. r.1 ≡ returned ok in
    if-cases P (m == 0) (λ h. absurd (a (ground (arith, h))))
      (λ h.
        if-cases P ((s.mutexes m).initialized == 0) (λ h. absurd (i (ground (arith, h))))
          (λ h.
            if-cases P ((s.mutexes m).locked == 0) (λ h. refl)
              (λ held. absurd (ground (arith, held, free)))))

trylock_free :
    (m : ℕ) (s : Sys)
    → m ≢ 0
    → (s.mutexes m).initialized ≢ 0
    → (s.mutexes m).locked ≡ 0
    → (mutex_trylock m s).1 ≡ ok
unfolding mutex_trylock
trylock_free m s a i free =
    let P : Sys × Status → Type 0 = λ r. r.1 ≡ ok in
    if-cases P (m == 0) (λ h. absurd (a (ground (arith, h))))
      (λ h.
        if-cases P ((s.mutexes m).initialized == 0) (λ h. absurd (i (ground (arith, h))))
          (λ h.
            if-cases P (not ((s.mutexes m).locked == 0))
              (λ held. absurd (ground (arith, held, free))) (λ h. refl)))

any-LocksOn : (rt : RuntimeState) → LocksOn rt
any-LocksOn rt = record {
  lock = λ m s e a i free. lock_free m s a i free;
  trylock = λ m s e a i free. trylock_free m s a i free;
}

off-trace_start :
    (s : RuntimeState) (path : Option (List ℕ))
    → s.initialized ≡ false
    → trace_start path s ≡ (s, estate)
unfolding trace_start
off-trace_start s none h = ground arith
off-trace_start s (some []) h = ground arith
off-trace_start s (some (c ∷ path)) h = ground arith

off-replay_init :
    (s : RuntimeState) (path : Option (List ℕ))
    → s.initialized ≡ false
    → replay_init path s ≡ (s, estate)
unfolding replay_init
off-replay_init s none h = ground arith
off-replay_init s (some []) h = ground arith
off-replay_init s (some (c ∷ path)) h = ground arith

off-replay_from :
    (s : RuntimeState) (path : Option (List ℕ))
    → s.initialized ≡ false
    → replay_from path s ≡ (s, estate)
unfolding replay_from
off-replay_from s path h =
    let e = off-replay_init s path h in
    rw (e, replay_from) (ap (λ (r : RuntimeState × Status). (r.0, estate)) e)

off-Refuses : (s : RuntimeState) → s.initialized ≡ false → Refuses s
unfolding thread_create thread_yield thread_join thread_cancel thread_block unblock_slot thread_self
    run_next run_until set_mode trace_stop fuzz_init fuzz_set_rate begin_shutdown runtime_shutdown
    get_stats
off-Refuses s h = record {
  create = λ has_out priority fn arg. ground arith;
  yield = λ others fuel. ground arith;
  join = λ others fuel tid. ground arith;
  cancel = λ tid. ground arith;
  block = ground arith;
  unblock = λ slot. ground arith;
  self = ground arith;
  next = λ others fuel. ground arith;
  until = λ others fuel tid. ground arith;
  mode = λ mode. ground arith;
  start = λ path. off-trace_start s path h;
  stop = ground arith;
  replay = λ path. off-replay_from s path h;
  fuzz = λ seed. ground arith;
  rate = λ rate. ground arith;
  begin = ground arith;
  shutdown = ground arith;
  stats = ground arith;
}

-- `gth_runtime_shutdown` on a running runtime succeeds. From then on a call that creates, joins,
-- cancels, yields, blocks or unblocks a thread, runs the scheduler or sets its mode, starts or stops a
-- trace, loads a replay, starts the fuzzer or sets its rate, shuts down, or asks for the statistics with a place for
-- them, fails with ESTATE and changes nothing. A free mutex that has been initialised can still be locked and
-- tried. `gth_runtime_init` with a valid configuration gives a fresh runtime in which nothing is left
-- of the old one but the world.
pub runtime_shutdown-Refuses :
    (config : Config) (s : RuntimeState)
    → s.initialized ≡ true
    → config_is_valid (some config) ≡ true
    → let (s', status) = runtime_shutdown s in
      (status ≡ ok)
      × Refuses s'
      × LocksOn s'
      × (runtime_init (some config) s' ≡ (fresh_state config s'.world, ok))
unfolding runtime_shutdown runtime_init
runtime_shutdown-Refuses config s on valid =
    let closed =
      zero_state (free_stacks s.threads (fuzz_cleanup (replay_cleanup (trace_cleanup s))).world) in
    let P : RuntimeState × Status → Type 0 = λ r.
      (r.1 ≡ ok)
      × Refuses r.0
      × LocksOn r.0
      × (runtime_init (some config) r.0 ≡ (fresh_state config r.0.world, ok)) in
    if-cases P s.initialized
      (λ h. (refl, off-Refuses closed refl, any-LocksOn closed, rw valid refl))
      (λ off. cc (sym on ∙ off))
