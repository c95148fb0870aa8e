-- ===== src/Sync/System.antt =====
-- src/sync, src/thread/thread.c: threads and the objects that they synchronise on, as one system.
pub mod Waiting
pub mod Safe
pub mod Mutexes
pub mod Unlocks
pub mod Others
pub mod Untouched
pub mod Excludes
pub mod Owner
pub mod Spares
pub mod Section
pub mod Wait
pub mod Invariant
pub mod Rest
use gthreads.Base.{ℕ, ◌<◌, ◌≡◌, ◌≢◌}
use gthreads.State.{Config, World, RuntimeState, Flow, returned, suspended, out_of_fuel}
use gthreads.Runtime.{max_threads, fresh_state}
use gthreads.Thread.Live.{back}
use gthreads.Thread.Reach.{Step}
use gthreads.Sync.Objects.{Sys, zero_mutex, zero_cond, zero_sem}
use gthreads.Sync.Mutex.{
  mutex_init, mutex_lock, lock_fuel, lock_loop, mutex_trylock, mutex_unlock, mutex_destroy,
}
use gthreads.Sync.Cond.{cond_init, cond_wait, cond_signal, cond_broadcast, cond_destroy}
use gthreads.Sync.Sem.{sem_init, sem_wait, sem_post, sem_destroy}

-- The state after a call: a call that has been suspended leaves the scheduler's context running.
abbrev pub settle : Sys × Flow → Sys
settle (s, returned status) = s
settle (s, suspended slot) = record s { rt = back s.rt }
settle (s, _) = s

-- One call on an object by the code that runs, or one step of the threads alone. A mutex is
-- initialised once. `relock` is a call of `gth_mutex_lock` that goes on when its wait has ended, on a
-- mutex that has not been destroyed.
pub data Move : Sys → Sys → Type 0 where
  thread : (s : Sys) (rt : RuntimeState) → Step s.rt rt → Move s (record s { rt = rt })
  init_mutex : (s : Sys) (m : ℕ) → (s.mutexes m).initialized ≡ 0 → Move s (mutex_init m s).0
  lock : (s : Sys) (m : ℕ) → Move s (settle (mutex_lock m s))
  relock :
      (s : Sys) (m slot : ℕ)
      → (s.mutexes m).initialized ≢ 0
      → slot < max_threads
      → Move s (settle (lock_loop lock_fuel m slot s))
  trylock : (s : Sys) (m : ℕ) → Move s (mutex_trylock m s).0
  unlock : (s : Sys) (m : ℕ) → Move s (mutex_unlock m s).0
  destroy_mutex : (s : Sys) (m : ℕ) → Move s (mutex_destroy m s).0
  init_cond : (s : Sys) (c : ℕ) → Move s (cond_init c s).0
  wait : (s : Sys) (c m : ℕ) → Move s (settle (cond_wait c m s))
  signal : (s : Sys) (c : ℕ) → Move s (cond_signal c s).0
  broadcast : (s : Sys) (c : ℕ) → Move s (cond_broadcast c s).0
  destroy_cond : (s : Sys) (c : ℕ) → Move s (cond_destroy c s).0
  init_sem : (s : Sys) (p initial_count : ℕ) → Move s (sem_init p initial_count s).0
  take : (s : Sys) (p : ℕ) → Move s (settle (sem_wait p s))
  post : (s : Sys) (p : ℕ) → Move s (sem_post p s).0
  destroy_sem : (s : Sys) (p : ℕ) → Move s (sem_destroy p s).0

-- The systems that a runtime gets into from zeroed objects.
pub data Reaches : Sys → Type 0 where
  boot :
      (config : Config) (w : World)
      → Reaches (record {
        rt = fresh_state config w;
        mutexes = λ _. zero_mutex;
        conds = λ _. zero_cond;
        sems = λ _. zero_sem;
      })
  next : (s t : Sys) → Reaches s → Move s t → Reaches t
