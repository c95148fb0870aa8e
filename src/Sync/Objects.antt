-- ===== src/Sync/Objects.antt =====
-- src/sync: the state that the synchronisation calls work on.
use gthreads.Base.{ℕ, arith, ◌≡◌, ◌==◌, if◌then◌else◌}
use gthreads.State.{RuntimeState}
use gthreads.WaitQueue.{WaitQueue, zeroed}

-- `gth_mutex_impl_t`.
pub record Mutex : Type 0 where
  pub initialized : ℕ
  pub locked : ℕ
  pub owner : ℕ
  pub wq : WaitQueue

-- `gth_cond_impl_t`.
pub record Cond : Type 0 where
  pub initialized : ℕ
  pub pad : ℕ
  pub wq : WaitQueue

-- `gth_sem_impl_t`.
pub record Sem : Type 0 where
  pub initialized : ℕ
  pub count : ℕ
  pub wq : WaitQueue

-- The runtime with the objects in memory.
pub record Sys : Type 0 where
  pub rt : RuntimeState
  pub mutexes : ℕ → Mutex
  pub conds : ℕ → Cond
  pub sems : ℕ → Sem

abbrev pub put {ℓ} : {A : Type ℓ} → (ℕ → A) → ℕ → A → ℕ → A
put f address a other = if other == address then a else f other

pub put_self {ℓ} : {A : Type ℓ} (f : ℕ → A) (address : ℕ) (a : A) → put f address a address ≡ a
put_self f address a = ground arith

abbrev pub put_mutex : Sys → ℕ → Mutex → Sys
put_mutex s m impl = record s { mutexes = put s.mutexes m impl }

abbrev pub put_cond : Sys → ℕ → Cond → Sys
put_cond s c impl = record s { conds = put s.conds c impl }

abbrev pub put_sem : Sys → ℕ → Sem → Sys
put_sem s p impl = record s { sems = put s.sems p impl }

-- What `memset` leaves.
abbrev pub zero_mutex : Mutex
zero_mutex = record { initialized = 0; locked = 0; owner = 0; wq = zeroed }

abbrev pub zero_cond : Cond
zero_cond = record { initialized = 0; pad = 0; wq = zeroed }

abbrev pub zero_sem : Sem
zero_sem = record { initialized = 0; count = 0; wq = zeroed }
