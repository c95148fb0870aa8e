-- ===== src/Runtime.antt =====
-- src/runtime/runtime.c: the table of threads, initialisation, shutdown and statistics. A pointer
-- to a thread record is its slot, NULL is `none`.
pub mod Count
pub mod Find
pub mod Table
pub mod WellFormed
use gthreads.Base.{
  ℕ, ◌+◌, ◌-◌, List, [], ◌∷◌, Bool, true, false, not, ◌&&◌, Option, none, some, ◌==◌, ltb,
  if◌then◌else◌, get_or, set, replicate,
}
use gthreads.State.{
  Status, ok, einval, estate, Policy, Config, ThreadState, Mode, StackAllocation, Ctx, Thread,
  World, RuntimeState,
}
pub use gthreads.Memory.{no_stack}
use gthreads.Memory.{stack_free}
use gthreads.Trace.Session.{trace_cleanup}
use gthreads.Replay.Events.{replay_cleanup}
use gthreads.Fuzz.{fuzz_cleanup}

-- `GTH_MAX_THREADS`.
abbrev pub max_threads : ℕ
max_threads = 128

abbrev pub no_ctx : Ctx
no_ctx = record {
  rbx = 0;
  rbp = 0;
  r12 = 0;
  r13 = 0;
  r14 = 0;
  r15 = 0;
  rsp = 0;
  rip = 0;
  fxsave_area = false;
  fxsave_buf = 0;
}

-- A thread record of zero bytes. Its state 0 is `empty`.
abbrev pub zero_thread : Thread
zero_thread = record {
  tid = 0;
  fn = 0;
  arg = 0;
  retval = 0;
  priority = 0;
  state = ThreadState.empty;
  ctx = no_ctx;
  stack = no_stack;
  slot_index = 0;
}

abbrev pub is_empty : ThreadState → Bool
is_empty ThreadState.empty = true
is_empty _ = false

abbrev pub is_ready : ThreadState → Bool
is_ready ThreadState.ready = true
is_ready _ = false

abbrev pub is_running : ThreadState → Bool
is_running ThreadState.running = true
is_running _ = false

abbrev pub is_blocked : ThreadState → Bool
is_blocked ThreadState.blocked = true
is_blocked _ = false

-- `gth_thread_is_terminal`.
abbrev pub is_terminal : ThreadState → Bool
is_terminal ThreadState.done = true
is_terminal ThreadState.canceled = true
is_terminal _ = false

abbrev pub thread_at : RuntimeState → ℕ → Thread
thread_at s slot = get_or s.threads slot zero_thread

abbrev pub put_thread : RuntimeState → ℕ → Thread → RuntimeState
put_thread s slot t = record s { threads = set s.threads slot t }

-- The loop of `gth_runtime_find_thread` over the slots from `i` on.
unfoldable pub find_from : List Thread → ℕ → ℕ → Option ℕ
find_from [] i tid = none
find_from (t ∷ ts) i tid =
    let rest = find_from ts (i + 1) tid in
    if not (is_empty t.state) && (t.tid == tid) then some i else rest

unfoldable pub find_thread : RuntimeState → ℕ → Option ℕ
unfolding find_from
find_thread s tid = find_from s.threads 0 tid

-- The loop of `gth_runtime_alloc_thread_slot`.
unfoldable pub alloc_from : List Thread → ℕ → Option ℕ
alloc_from [] i = none
alloc_from (t ∷ ts) i =
    let rest = alloc_from ts (i + 1) in if is_empty t.state then some i else rest

unfoldable pub alloc_thread_slot : RuntimeState → Option ℕ
unfolding alloc_from
alloc_thread_slot s = alloc_from s.threads 0

abbrev policy_is_valid : Policy → Bool
policy_is_valid Policy.rr = true
policy_is_valid Policy.priority = true
policy_is_valid (Policy.other n) = false

-- `gth_config_is_valid`; NULL is `none`.
unfoldable pub config_is_valid : Option Config → Bool
config_is_valid none = false
config_is_valid (some c) =
    if ltb c.stack_size_bytes 16384
    then false
    else if c.quantum_us == 0
    then false
    else policy_is_valid c.policy

-- `gth_runtime_stats_snapshot_t`.
pub record Snapshot : Type 0 where
  pub total : ℕ
  pub runnable : ℕ
  pub blocked : ℕ
  pub finished : ℕ

abbrev pub no_threads : Snapshot
no_threads = record { total = 0; runnable = 0; blocked = 0; finished = 0 }

-- What one slot adds to the snapshot.
unfoldable pub count_thread : ThreadState → Snapshot → Snapshot
count_thread ThreadState.empty n = n
count_thread ThreadState.ready n = record n { total = n.total + 1; runnable = n.runnable + 1 }
count_thread ThreadState.running n = record n { total = n.total + 1 }
count_thread ThreadState.blocked n = record n { total = n.total + 1; blocked = n.blocked + 1 }
count_thread ThreadState.done n = record n { total = n.total + 1; finished = n.finished + 1 }
count_thread ThreadState.canceled n = record n { total = n.total + 1; finished = n.finished + 1 }

unfoldable pub snapshot_from : List Thread → Snapshot → Snapshot
unfolding count_thread
snapshot_from [] n = n
snapshot_from (t ∷ ts) n = snapshot_from ts (count_thread t.state n)

-- `gth_runtime_snapshot_stats`.
unfoldable pub snapshot_stats : RuntimeState → Snapshot
unfolding snapshot_from
snapshot_stats s = snapshot_from s.threads no_threads

-- `gth_runtime_begin_shutdown`.
unfoldable pub begin_shutdown : RuntimeState → RuntimeState × Status
begin_shutdown s = if s.initialized then (record s { shutting_down = true }, ok) else (s, estate)

abbrev pub zero_config : Config
zero_config = record {
  stack_size_bytes = 0;
  policy = Policy.rr;
  quantum_us = 0;
  replay_seed = 0;
  enable_deterministic_trace = 0;
  enable_schedule_fuzzing = 0;
}

-- `memset(&g_state, 0, sizeof(g_state))`; the world is no part of `g_state`.
abbrev pub zero_state : World → RuntimeState
zero_state w = record {
  initialized = false;
  shutting_down = false;
  config = zero_config;
  next_tid = 0;
  current_tid = 0;
  context_switches = 0;
  runnable_threads = 0;
  blocked_threads = 0;
  finished_threads = 0;
  trace_enabled = false;
  threads = replicate max_threads zero_thread;
  last_rr_slot = 0;
  mode = Mode.normal;
  trace = none;
  replay = none;
  fuzz = none;
  world = w;
}

abbrev pub fresh_state : Config → World → RuntimeState
fresh_state config w = record (zero_state w) {
  initialized = true;
  config = config;
  next_tid = 1;
  last_rr_slot = max_threads - 1;
}

-- `gth_runtime_init`.
unfoldable pub runtime_init : Option Config → RuntimeState → RuntimeState × Status
unfolding config_is_valid
runtime_init none s = (s, einval)
runtime_init (some config) s =
    if not (config_is_valid (some config))
    then (s, einval)
    else if s.initialized
    then (s, estate)
    else (fresh_state config s.world, ok)

-- The loop of `gth_runtime_shutdown` over the threads.
unfoldable pub free_stacks : List Thread → World → World
unfolding stack_free
free_stacks [] w = w
free_stacks (t ∷ ts) w = free_stacks ts (stack_free t.stack w).0

-- `gth_runtime_shutdown`.
unfoldable pub runtime_shutdown : RuntimeState → RuntimeState × Status
unfolding trace_cleanup replay_cleanup fuzz_cleanup free_stacks
runtime_shutdown s =
    if s.initialized
    then (
      zero_state (free_stacks s.threads (fuzz_cleanup (replay_cleanup (trace_cleanup s))).world),
      ok,
    )
    else (s, estate)

-- `gth_runtime_stats_t`.
pub record RuntimeStats : Type 0 where
  pub context_switches : ℕ
  pub runnable_threads : ℕ
  pub blocked_threads : ℕ

-- `gth_runtime_get_stats`; the flag says whether `out_stats` is non-NULL.
unfoldable pub get_stats : Bool → RuntimeState → Status × Option RuntimeStats
unfolding snapshot_stats
get_stats false s = (einval, none)
get_stats true s =
    if s.initialized
    then (
      ok,
      some (record {
        context_switches = s.context_switches;
        runnable_threads = (snapshot_stats s).runnable;
        blocked_threads = (snapshot_stats s).blocked;
      }),
    )
    else (estate, none)
