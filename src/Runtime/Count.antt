-- ===== src/Runtime/Count.antt =====
-- src/runtime/runtime.c, src/thread/thread.c: the counters of the runtime against the table of
-- threads.
use gthreads.Base.{
  ℕ, zero, suc, ◌+◌, ◌≤◌, ◌<◌, ◌≡◌, List, [], ◌∷◌, Bool, true, arith, if◌then◌else◌, length, get_or,
  set, false, refl, replicate,
}
use gthreads.State.{ThreadState, empty, Thread, RuntimeState}
use gthreads.Runtime.{
  Snapshot, zero_thread, max_threads, is_ready, is_blocked, snapshot_from, snapshot_stats,
  count_thread, no_threads,
}

abbrev pub one_if : Bool → ℕ
one_if b = if b then 1 else 0

-- How many threads of the table are in a state that passes the test.
pub count : (ThreadState → Bool) → List Thread → ℕ
count p [] = 0
count p (t ∷ ts) = one_if (p t.state) + count p ts

pub count-set :
    (p : ThreadState → Bool) (ts : List Thread) (i : ℕ) (t : Thread)
    → i < length ts
    → count p (set ts i t) + one_if (p (get_or ts i zero_thread).state)
      ≡ count p ts + one_if (p t.state)
unfolding count
count-set p [] i t h = absurd (omega arith)
count-set p (x ∷ ts) zero t h = omega arith
count-set p (x ∷ ts) (suc i) t h = omega (arith, count-set p ts i t (omega arith))

pub count-le-length : (p : ThreadState → Bool) (ts : List Thread) → count p ts ≤ length ts
unfolding count
count-le-length p [] = omega arith
count-le-length p (t ∷ ts) = ground (arith, count-le-length p ts)

pub count-pos :
    (p : ThreadState → Bool) (ts : List Thread) (i : ℕ)
    → i < length ts
    → p (get_or ts i zero_thread).state ≡ true
    → 0 < count p ts
unfolding count
count-pos p [] i h e = absurd (omega arith)
count-pos p (t ∷ ts) zero h e = ground arith
count-pos p (t ∷ ts) (suc i) h e = omega (arith, count-pos p ts i (omega arith) e)

-- The two counters say how many threads are ready and how many are blocked.
pub record IsCounted (s : RuntimeState) : Type 0 where
  pub slots : length s.threads ≡ max_threads
  pub ready : s.runnable_threads ≡ count is_ready s.threads
  pub blocked : s.blocked_threads ≡ count is_blocked s.threads

count_thread_lem :
    (x : ThreadState) (n : Snapshot)
    → ((count_thread x n).runnable ≡ n.runnable + one_if (is_ready x))
      × ((count_thread x n).blocked ≡ n.blocked + one_if (is_blocked x))
unfolding count_thread
count_thread_lem empty n = omega arith
count_thread_lem _ n = omega arith

snapshot_from_lem :
    (ts : List Thread) (n : Snapshot)
    → ((snapshot_from ts n).runnable ≡ n.runnable + count is_ready ts)
      × ((snapshot_from ts n).blocked ≡ n.blocked + count is_blocked ts)
unfolding snapshot_from count
snapshot_from_lem [] n = omega arith
snapshot_from_lem (t ∷ ts) n =
    omega (arith, snapshot_from_lem ts (count_thread t.state n), count_thread_lem t.state n)

-- `gth_runtime_snapshot_stats` recounts what the counters say.
pub snapshot_stats-IsCounted :
    (s : RuntimeState)
    → IsCounted s
    → ((snapshot_stats s).runnable ≡ s.runnable_threads)
      × ((snapshot_stats s).blocked ≡ s.blocked_threads)
unfolding snapshot_stats
snapshot_stats-IsCounted s c = omega (arith, snapshot_from_lem s.threads no_threads)

pub count-replicate :
    (p : ThreadState → Bool) (n : ℕ)
    → p ThreadState.empty ≡ false
    → count p (replicate n zero_thread) ≡ 0
unfolding count
count-replicate p zero e = refl
count-replicate p (suc n) e = ground (arith, count-replicate p n e)
