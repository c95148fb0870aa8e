-- ===== src/Sync/System/Invariant.antt =====
-- src/sync: the invariant holds in every system that the calls reach.
use gthreads.Base.{refl, arith}
use gthreads.Thread.Reach.{Step-IsLive, Reachable, Reachable-IsLive}
use gthreads.Sync.Objects.{Sys}
use gthreads.Sync.System.{
  Move, boot, next, thread, init_mutex, lock, relock, trylock, unlock, destroy_mutex, init_cond,
  wait, signal, broadcast, destroy_cond, init_sem, take, post, destroy_sem, Reaches,
}
use gthreads.Sync.Mutex.{lock_fuel}
use gthreads.Sync.System.Safe.{IsSafe, with_rt-IsSafe}
use gthreads.Sync.System.Mutexes.{
  mutex_init-IsSafe, lock_loop-Settled, mutex_lock-Settled, mutex_trylock-IsSafe,
}
use gthreads.Sync.System.Unlocks.{mutex_unlock-IsSafe, mutex_destroy-IsSafe}
use gthreads.Sync.System.Others.{
  sem_init-IsSafe, sem_wait-Settled, sem_post-IsSafe, sem_destroy-IsSafe, cond_init-IsSafe,
  cond_signal-IsSafe, cond_broadcast-IsSafe, cond_destroy-IsSafe,
}
use gthreads.Sync.System.Wait.{cond_wait-Settled}

Move-IsSafe : {s t : Sys} → Move s t → IsSafe s → IsSafe t
Move-IsSafe (thread s rt step) v = with_rt-IsSafe s rt v (Step-IsLive step v.live)
Move-IsSafe (init_mutex s m _) v = mutex_init-IsSafe m s v
Move-IsSafe (lock s m) v = mutex_lock-Settled m s v
Move-IsSafe (relock s m slot on h) v = lock_loop-Settled lock_fuel m slot s v on h
Move-IsSafe (trylock s m) v = mutex_trylock-IsSafe m s v
Move-IsSafe (unlock s m) v = mutex_unlock-IsSafe m s v
Move-IsSafe (destroy_mutex s m) v = mutex_destroy-IsSafe m s v
Move-IsSafe (init_cond s c) v = cond_init-IsSafe c s v
Move-IsSafe (wait s c m) v = cond_wait-Settled c m s v
Move-IsSafe (signal s c) v = cond_signal-IsSafe c s v
Move-IsSafe (broadcast s c) v = cond_broadcast-IsSafe c s v
Move-IsSafe (destroy_cond s c) v = cond_destroy-IsSafe c s v
Move-IsSafe (init_sem s p n) v = sem_init-IsSafe p n s v
Move-IsSafe (take s p) v = sem_wait-Settled p s v
Move-IsSafe (post s p) v = sem_post-IsSafe p s v
Move-IsSafe (destroy_sem s p) v = sem_destroy-IsSafe p s v

-- In every system that the calls reach from zeroed objects and a fresh runtime, as long as the
-- identifiers do not run out and no mutex is destroyed under a call that goes on, the runtime's
-- table, counters and current thread are right, the flag of every mutex is 0 or 1, a free mutex has
-- no owner, and the queue of every initialised object is a valid ring of slots of the table.
pub Reaches-IsSafe : {s : Sys} → Reaches s → IsSafe s
Reaches-IsSafe (boot config w) = record {
  live = Reachable-IsLive (Reachable.boot config w);
  mutexes = λ m. record {
    flag = omega arith;
    free = λ e. refl;
    idle = λ e. refl;
    waits = λ on. absurd (on refl);
  };
  conds = λ c on. absurd (on refl);
  sems = λ p on. absurd (on refl);
}
Reaches-IsSafe (next s t r move) = Move-IsSafe move (Reaches-IsSafe r)
