-- ===== src/Tests/Locks.antt =====
-- The theorems on mutexes and conditions at concrete systems.
use gthreads.Base.{
  true, ℕ, ◌≡◌, ◌<◌, refl, sym, subst, [], ◌∷◌, arith, length-replicate, ◌==◌, if◌then◌else◌,
}
use gthreads.State.{ok, ThreadState}
use gthreads.Runtime.{max_threads}
use gthreads.WaitQueue.{WaitQueue, fixed_slots, zeroed, init, enqueue}
use gthreads.WaitQueue.Remove.{has}
use gthreads.WaitQueue.Ring.{IsValid, contents}
use gthreads.WaitQueue.Fifo.{init-IsValid, enqueue-IsValid}
use gthreads.Sync.Objects.{Sys, Mutex, zero_mutex, zero_cond, zero_sem}
use gthreads.Sync.Mutex.{mutex_lock, mutex_unlock, acquire, lock_loop, lock_fuel}
use gthreads.Sync.Mutex.Lock.{Acquired, mutex_lock-Acquired, lock_loop-Acquires}
use gthreads.Sync.Mutex.Ends.{ends, mutex_lock-Ends}
use gthreads.Sync.Sem.{sem_post}
use gthreads.Sync.Sem.Units.{Posted, sem_post_lem}
use gthreads.Sync.Mutex.Release.{UnlockOutcome, mutex_unlock_lem}
use gthreads.Sync.Cond.{cond_broadcast}
use gthreads.Sync.Cond.Broadcast.{Holds, Waiting, WokenAll, cond_broadcast-wakes_all}
use gthreads.Tests.Data.{holding}

-- The queue in which slot 0 waits.
abbrev pub queue : WaitQueue
queue = enqueue (init zeroed fixed_slots) 0

pub queue-IsValid : IsValid queue
queue-IsValid =
    enqueue-IsValid (init zeroed fixed_slots) 0
      (init-IsValid zeroed fixed_slots (length-replicate {A = ℕ} fixed_slots 0) (omega arith)
        (omega arith)).0

pub queue_contents : contents queue ≡ 0 ∷ []
unfolding enqueue init
queue_contents = refl

pub only_zero : (y : ℕ) → Holds (0 ∷ []) y → y < max_threads
unfolding has
only_zero y h = ground arith

-- A mutex at address 100 that thread 9, which runs, holds; thread 1 in slot 0 waits for it.
abbrev held_mutex : Mutex
held_mutex = record zero_mutex { initialized = 1; locked = 1; owner = 9; wq = queue }

-- The runtime with no mutex, condition or semaphore initialised but those at address 100.
abbrev pub system : ThreadState → Sys
system x = record {
  rt = record (holding x) { current_tid = 9 };
  mutexes = λ m. if m == 100 then held_mutex else zero_mutex;
  conds = λ c. if c == 100 then record zero_cond { initialized = 1; wq = queue } else zero_cond;
  sems = λ p. if p == 100 then record zero_sem { initialized = 1; wq = queue } else zero_sem;
}

-- Thread 1 calls, and thread 9 is the owner.
abbrev pub not_mine : Sys
not_mine = record (system ThreadState.running) {
  rt = record (holding ThreadState.running) { current_tid = 1 };
}

mutex_unlock_lem_example :
    UnlockOutcome 100
      (contents queue)
      (system ThreadState.blocked)
      (mutex_unlock 100 (system ThreadState.blocked))
mutex_unlock_lem_example =
    mutex_unlock_lem 100 (system ThreadState.blocked) queue-IsValid refl
      (λ y. subst (λ l. Holds l y → y < max_threads) (sym queue_contents) (only_zero y))

-- A mutex that is free.
abbrev free_system : Sys
free_system = record (system ThreadState.ready) {
  mutexes = λ m. record zero_mutex { initialized = 1; wq = queue };
}

mutex_lock-Acquired_example : Acquired 100 free_system (mutex_lock 100 free_system).0
unfolding mutex_lock acquire
mutex_lock-Acquired_example = mutex_lock-Acquired 100 free_system refl

lock_loop-Acquires_example : Acquired 100 free_system (lock_loop lock_fuel 100 0 free_system).0
unfolding lock_loop acquire
lock_loop-Acquires_example = lock_loop-Acquires lock_fuel 100 0 free_system refl

sem_post_lem_example :
    Posted 100 (system ThreadState.blocked) (0 ∷ []) (sem_post 100 (system ThreadState.blocked))
sem_post_lem_example =
    sem_post_lem 100 (0 ∷ []) (system ThreadState.blocked) (omega arith) (omega arith) queue-IsValid
      queue_contents refl only_zero

mutex_lock-Ends_example : ends (mutex_lock 100 (system ThreadState.ready)).1 ≡ true
mutex_lock-Ends_example = mutex_lock-Ends 100 (system ThreadState.ready) queue-IsValid

system-Waiting : Waiting 100 (contents queue) (system ThreadState.blocked)
system-Waiting = record {
  valid = queue-IsValid;
  queue = refl;
  inside = λ y. subst (λ l. Holds l y → y < max_threads) (sym queue_contents) (only_zero y);
  running = refl;
  slots = refl;
}

cond_broadcast-wakes_all_example :
    let (s', status) = cond_broadcast 100 (system ThreadState.blocked) in
    (status ≡ ok) × WokenAll 100 (contents queue) (system ThreadState.blocked) s'
cond_broadcast-wakes_all_example =
    cond_broadcast-wakes_all 100 (system ThreadState.blocked) (omega arith) (omega arith)
      system-Waiting

-- Thread 1 in slot 0 calls with the mutex of thread 9, and nobody waits for the condition.
abbrev refused : Sys
refused = record not_mine {
  conds = λ c. record zero_cond { initialized = 1; wq = init zeroed fixed_slots };
}

empty_queue : contents (init zeroed fixed_slots) ≡ []
unfolding init
empty_queue = refl
