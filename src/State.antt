-- ===== src/State.antt =====
-- The state of the runtime (src/internal/runtime_state.h, src/sync/*.c) and the codes of the
-- public header (include/gthreads/gthreads.h).
use gthreads.Base.{ℕ, Bool, Option, List}

-- `gth_status_t`.
pub data Status : Type 0 where
  ok einval enomem estate ebusy etimedout enotfound einternal : Status

-- `gth_sched_policy_t`. The C enum is an int; `other` is any value but the two declared ones.
pub data Policy : Type 0 where
  rr priority : Policy
  other : ℕ → Policy

-- `gth_runtime_config_t`; the two flags are never read by the runtime.
pub record Config : Type 0 where
  pub stack_size_bytes : ℕ
  pub policy : Policy
  pub quantum_us : ℕ
  pub replay_seed : ℕ
  pub enable_deterministic_trace : ℕ
  pub enable_schedule_fuzzing : ℕ

-- `gth_thread_state_t`.
pub data ThreadState : Type 0 where
  empty ready running blocked done canceled : ThreadState

-- `gth_scheduler_mode_t`.
pub data Mode : Type 0 where
  normal recording replaying fuzzing : Mode

-- `gth_stack_allocation_t`; a pointer is its address, NULL is 0.
pub record StackAllocation : Type 0 where
  pub memory : ℕ
  pub total_size : ℕ
  pub stack_size : ℕ
  pub stack_top : ℕ
  pub guard_page : ℕ

-- `gth_ctx_t`: the eight saved registers, whether `fxsave_area` is non-NULL, and the contents of
-- `fxsave_buf` as one number.
pub record Ctx : Type 0 where
  pub rbx : ℕ
  pub rbp : ℕ
  pub r12 : ℕ
  pub r13 : ℕ
  pub r14 : ℕ
  pub r15 : ℕ
  pub rsp : ℕ
  pub rip : ℕ
  pub fxsave_area : Bool
  pub fxsave_buf : ℕ

-- `gth_thread_record_t`.
pub record Thread : Type 0 where
  pub tid : ℕ
  pub fn : ℕ
  pub arg : ℕ
  pub retval : ℕ
  pub priority : ℕ
  pub state : ThreadState
  pub ctx : Ctx
  pub stack : StackAllocation
  pub slot_index : ℕ

-- `gth_trace_record_t`.
pub record TraceRecord : Type 0 where
  pub timestamp : ℕ
  pub type : ℕ
  pub reserved : ℕ
  pub tid : ℕ
  pub slot_index : ℕ
  pub raw : ℕ
  pub pad : ℕ
  pub checksum : ℕ

-- `gth_trace_buffer_t`: `buffer` holds the bytes of the records up to `count`.
pub record TraceBuffer : Type 0 where
  pub buffer : List ℕ
  pub capacity : ℕ
  pub count : ℕ
  pub record_size : ℕ

-- A `FILE` open for writing: its path, and the bytes written so far.
pub record File : Type 0 where
  pub path : List ℕ
  pub bytes : List ℕ

-- `gth_trace_state_t`.
pub record TraceState : Type 0 where
  pub file : Option File
  pub buffer : Option TraceBuffer
  pub event_count : ℕ
  pub timestamp_freq : ℕ
  pub start_time : ℕ
  pub active : Bool

-- `gth_replay_state_t`.
pub record ReplayState : Type 0 where
  pub events : List ℕ
  pub event_count : ℕ
  pub current_idx : ℕ
  pub diverged : Bool
  pub last_timestamp : ℕ

-- `gth_fuzz_state_t`; `state0` and `state1` are the two words of `state`.
pub record FuzzState : Type 0 where
  pub state0 : ℕ
  pub state1 : ℕ
  pub seed : ℕ
  pub decision_count : ℕ
  pub perturbation_rate : ℕ

-- How a call goes on: it returns, it has saved the context of the thread in a slot and left it for
-- the scheduler's, control never comes back to it, or a loop of the model has no fuel left.
pub data Flow : Type 0 where
  returned : Status → Flow
  suspended : ℕ → Flow
  lost : Flow
  out_of_fuel : Flow

-- What the code takes from the C library, the kernel and the processor. Each call is numbered by
-- `calls`, and the functions answer by that number. `cached_page_size` is the static variable of
-- `gth_page_size`; `disk` holds the files that have been closed, the latest first; `words` is the
-- part of the memory that `gth_ctx_make` writes; `regions` holds what `mmap` has mapped and `munmap`
-- has not unmapped; the last two are addresses of code.
pub record World : Type 0 where
  pub calls : ℕ
  pub rdtsc : ℕ → ℕ
  pub fxsave : ℕ → ℕ
  pub realtime_ns : ℕ → Option ℕ
  pub malloc : ℕ → Bool
  pub mmap : ℕ → Option ℕ
  pub mprotect : ℕ → Bool
  pub fopen : ℕ → Bool
  pub fwrite : ℕ → ℕ → ℕ
  pub ftell : ℕ → Bool
  pub fread : ℕ → Bool
  pub sysconf_pagesize : ℕ
  pub cached_page_size : ℕ
  pub disk : List (List ℕ × List ℕ)
  pub words : ℕ → ℕ
  pub regions : List (ℕ × ℕ)
  pub ctx_trampoline : ℕ
  pub thread_trampoline : ℕ

-- `gth_runtime_state_t`, with the world beside it; the contents of `scheduler_ctx` are not
-- modelled.
pub record RuntimeState : Type 0 where
  pub initialized : Bool
  pub shutting_down : Bool
  pub config : Config
  pub next_tid : ℕ
  pub current_tid : ℕ
  pub context_switches : ℕ
  pub runnable_threads : ℕ
  pub blocked_threads : ℕ
  pub finished_threads : ℕ
  pub trace_enabled : Bool
  pub threads : List Thread
  pub last_rr_slot : ℕ
  pub mode : Mode
  pub trace : Option TraceState
  pub replay : Option ReplayState
  pub fuzz : Option FuzzState
  pub world : World
