-- ===== src/Scheduler/Select.antt =====
-- src/sched/scheduler.c: the choice of the next thread by policy and by mode. `fuel` bounds the
-- rejection loop of the fuzzer.
use gthreads.Base.{
  ℕ, zero, suc, ◌+◌, ◌%◌, List, [], ◌∷◌, Bool, ◌&&◌, ◌||◌, Option, none, some, ◌==◌, ltb,
  if◌then◌else◌,
}
use gthreads.State.{Policy, Mode, Thread, ReplayState, FuzzState, RuntimeState}
use gthreads.Replay.Drive.{replay_next_thread}
use gthreads.Fuzz.Pick.{fuzz_pick_open}
use gthreads.Runtime.{max_threads, thread_at, is_ready}

-- What a choice of a thread gives: a slot, NULL, or a rejection loop that has not ended.
pub data Pick : Type 0 where
  found : ℕ → Pick
  nothing : Pick
  spinning : Pick

abbrev pub of_slot : Option ℕ → Pick
of_slot none = nothing
of_slot (some slot) = found slot

-- The round-robin loop, with `rounds` slots left to look at from offset `i` behind `start`.
unfoldable pub rr_from : RuntimeState → ℕ → ℕ → ℕ → Option ℕ
rr_from s start i zero = none
rr_from s start i (suc rounds) =
    let slot = (start + i) % max_threads in
    let rest = rr_from s start (i + 1) rounds in
    if is_ready (thread_at s slot).state then some slot else rest

-- Whether `candidate` replaces `best`.
unfoldable pub beats : Thread → Thread → Bool
beats candidate best =
    ltb best.priority candidate.priority
    || ((candidate.priority == best.priority) && ltb candidate.tid best.tid)

unfoldable pub better : ℕ → Thread → Option (ℕ × Thread) → Option (ℕ × Thread)
unfolding beats
better i candidate none = some (i, candidate)
better i candidate (some (j, best)) =
    if beats candidate best then some (i, candidate) else some (j, best)

-- The priority loop over the slots from `i` on; `best` is the record beside its slot.
unfoldable pub priority_from : List Thread → ℕ → Option (ℕ × Thread) → Option (ℕ × Thread)
unfolding better
priority_from [] i best = best
priority_from (t ∷ ts) i best =
    priority_from ts (i + 1) (if is_ready t.state then better i t best else best)

abbrev pub slot_of : Option (ℕ × Thread) → Option ℕ
slot_of none = none
slot_of (some (slot, t)) = some slot

unfoldable pub pick_rr : RuntimeState → Option ℕ → RuntimeState × Option ℕ
pick_rr s none = (s, none)
pick_rr s (some slot) = (record s { last_rr_slot = slot }, some slot)

unfoldable pub pick_by : Policy → RuntimeState → RuntimeState × Option ℕ
unfolding rr_from priority_from pick_rr
pick_by Policy.rr s = pick_rr s (rr_from s ((s.last_rr_slot + 1) % max_threads) 0 max_threads)
pick_by _ s = (s, slot_of (priority_from s.threads 0 none))

-- `gth_scheduler_pick_ready_thread`.
unfoldable pub pick_ready_thread : RuntimeState → RuntimeState × Option ℕ
unfolding pick_by
pick_ready_thread s = pick_by s.config.policy s

unfoldable pub perturbed : RuntimeState → Option (FuzzState × ℕ) → RuntimeState × Pick
perturbed s none = (s, spinning)
perturbed s (some (fuzz, slot)) = (record s { fuzz = some fuzz }, found slot)

-- `gth_fuzz_pick_thread`, in fuzz mode with a fuzz state.
unfoldable pub fuzz_pick : ℕ → Option FuzzState → RuntimeState → Option ℕ → RuntimeState × Pick
unfolding perturbed fuzz_pick_open
fuzz_pick fuel fuzz s none = (s, nothing)
fuzz_pick fuel none s (some slot) = (s, found slot)
fuzz_pick fuel (some f) s (some slot) = perturbed s (fuzz_pick_open fuel s.threads f slot)

unfoldable pub pick_in_mode : ℕ → Mode → Option ReplayState → RuntimeState → RuntimeState × Pick
unfolding pick_ready_thread replay_next_thread fuzz_pick
pick_in_mode fuel Mode.replaying (some r) s =
    let (s', slot) = replay_next_thread (some r) s in (s', of_slot slot)
pick_in_mode fuel Mode.fuzzing r s =
    let (s', slot) = pick_ready_thread s in fuzz_pick fuel s'.fuzz s' slot
pick_in_mode fuel _ r s = let (s', slot) = pick_ready_thread s in (s', of_slot slot)

-- `gth_scheduler_pick_ready_thread_mode`.
unfoldable pub pick_ready_thread_mode : ℕ → RuntimeState → RuntimeState × Pick
unfolding pick_in_mode
pick_ready_thread_mode fuel s = pick_in_mode fuel s.mode s.replay s
