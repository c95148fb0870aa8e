-- ===== src/Sync/System/Safe.antt =====
-- src/sync: the invariant of the objects and the runtime together.
use gthreads.Base.{ℕ, ◌<◌, ◌≡◌, ◌≢◌, ◌==◌, Bool-cases, inl, inr}
use gthreads.State.{RuntimeState}
use gthreads.Trace.{trace_record}
use gthreads.Trace.Format.{EventType}
use gthreads.WaitQueue.{WaitQueue}
use gthreads.Thread.Live.{IsLive}
use gthreads.Sync.Objects.{Mutex, Cond, Sem, Sys, put, put_mutex, put_cond, put_sem}
use gthreads.Sync.System.Waiting.{IsWaiting}
use gthreads.Sync.System.Rest.{traced-IsLive}

-- A mutex: its flag is 0 or 1, a free one has no owner, and one that is not initialised is free.
pub record IsMutex (i : Mutex) : Type 0 where
  pub flag : i.locked < 2
  pub free : i.locked ≡ 0 → i.owner ≡ 0
  pub idle : i.initialized ≡ 0 → i.locked ≡ 0
  pub waits : i.initialized ≢ 0 → IsWaiting i.wq

-- A condition or a semaphore.
abbrev pub IsQueue : ℕ → WaitQueue → Type 0
IsQueue initialized wq = initialized ≢ 0 → IsWaiting wq

-- The objects are right, and `P` holds of the runtime.
pub record IsSound (P : RuntimeState → Type 0) (s : Sys) : Type 0 where
  pub live : P s.rt
  pub mutexes : (m : ℕ) → IsMutex (s.mutexes m)
  pub conds : (c : ℕ) → IsQueue (s.conds c).initialized (s.conds c).wq
  pub sems : (p : ℕ) → IsQueue (s.sems p).initialized (s.sems p).wq

abbrev pub IsSafe : Sys → Type 0
IsSafe = IsSound IsLive

-- A write of one object keeps a predicate of all.
put-all {ℓ κ} :
    {A : Type ℓ} (P : A → Type κ) (f : ℕ → A) (address : ℕ) (a : A)
    → ((x : ℕ) → P (f x))
    → P a
    → (x : ℕ) → P (put f address a x)
put-all P f address a h k x = elim (Bool-cases (x == address)) [
  | inl hit ↦ rw hit k
  | inr miss ↦ rw miss (h x)
]

pub put_mutex-IsSafe :
    {P : RuntimeState → Type 0} (s : Sys) (m : ℕ) (impl : Mutex)
    → IsSound P s
    → IsMutex impl
    → IsSound P (put_mutex s m impl)
put_mutex-IsSafe s m impl v i = record {
  live = v.live;
  mutexes = put-all IsMutex s.mutexes m impl v.mutexes i;
  conds = v.conds;
  sems = v.sems;
}

pub put_cond-IsSafe :
    {P : RuntimeState → Type 0} (s : Sys) (c : ℕ) (impl : Cond)
    → IsSound P s
    → IsQueue impl.initialized impl.wq
    → IsSound P (put_cond s c impl)
put_cond-IsSafe s c impl v i = record {
  live = v.live;
  mutexes = v.mutexes;
  conds = put-all (λ (x : Cond). IsQueue x.initialized x.wq) s.conds c impl v.conds i;
  sems = v.sems;
}

pub put_sem-IsSafe :
    {P : RuntimeState → Type 0} (s : Sys) (p : ℕ) (impl : Sem)
    → IsSound P s
    → IsQueue impl.initialized impl.wq
    → IsSound P (put_sem s p impl)
put_sem-IsSafe s p impl v i = record {
  live = v.live;
  mutexes = v.mutexes;
  conds = v.conds;
  sems = put-all (λ (x : Sem). IsQueue x.initialized x.wq) s.sems p impl v.sems i;
}

pub with_rt-IsSafe :
    {P Q : RuntimeState → Type 0} (s : Sys) (rt : RuntimeState)
    → IsSound P s
    → Q rt
    → IsSound Q (record s { rt = rt })
with_rt-IsSafe s rt v l = record { live = l; mutexes = v.mutexes; conds = v.conds; sems = v.sems }

pub traced-IsSafe :
    (s : Sys) (type : EventType) (tid data1 data2 : ℕ)
    → IsSafe s
    → IsSafe (record s { rt = trace_record type tid data1 data2 s.rt })
traced-IsSafe s type tid data1 data2 v =
    with_rt-IsSafe s (trace_record type tid data1 data2 s.rt) v
      (traced-IsLive type tid data1 data2 s.rt v.live)
