-- ===== src/Tests/Waits.antt =====
-- The theorems on waits, on the end of a run and on shutdown at concrete systems.
use gthreads.Base.{Option, ℕ, ◌≡◌, ◌≢◌, refl, arith, List, [], ◌∷◌, some, none, true}
use gthreads.State.{Mode, ThreadState, Config, ok, RuntimeState}
use gthreads.Runtime.{find_thread, runtime_init, runtime_shutdown, config_is_valid, fresh_state}
use gthreads.Thread.{thread_self, current_slot_index}
use gthreads.Scheduler.{run_until}
use gthreads.Scheduler.Until.{RanUntil, run_until-RanUntil}
use gthreads.Scheduler.Modes.{set_mode}
use gthreads.Scheduler.Entered.{Entered, set_mode-Entered}
use gthreads.Sync.Mutex.{mutex_lock}
use gthreads.Sync.Mutex.Waits.{Contends, Contended, mutex_lock-Queued}
use gthreads.Sync.Sem.{sem_wait}
use gthreads.Sync.Sem.Takes.{Waited, sem_wait_lem}
use gthreads.Sync.Cond.{cond_signal}
use gthreads.Sync.Cond.Signal.{Signalled, cond_signal_lem}
use gthreads.Replay.Events.{count_records, records_valid, validate_header}
use gthreads.Replay.Loaded.{file_of}
use gthreads.Replay.Rejects.{IsTraceFile, count_records-IsTraceFile}
use gthreads.Trace.Format.{
  EventType, encode, encode_header, decode_header, decode, validate_record, calc_checksum, fnv,
}
use gthreads.Trace.{build_record, payload}
use gthreads.Trace.Session.{make_header}
use gthreads.WaitQueue.{enqueue, init}
use gthreads.Closed.{Refuses, LocksOn, runtime_shutdown-Refuses}
use gthreads.Tests.Data.{booted, config, running}
use gthreads.Tests.Locks.{not_mine, queue-IsValid, queue_contents, only_zero, system}

not_mine-Contends : Contends 100 0 not_mine
unfolding thread_self current_slot_index find_thread enqueue init
not_mine-Contends = record {
  address = omega arith;
  initialized = omega arith;
  held = omega arith;
  not_mine = omega arith;
  valid = queue-IsValid;
  running = refl;
  thread = omega arith;
  found = refl;
  caller = refl;
  inside = omega arith;
}

mutex_lock-Queued_example : Contended 100 0 not_mine (mutex_lock 100 not_mine)
mutex_lock-Queued_example = mutex_lock-Queued 100 0 not_mine not_mine-Contends

sem_wait_lem_example : Waited 100 not_mine (sem_wait 100 not_mine)
sem_wait_lem_example = sem_wait_lem 100 not_mine (omega arith) (omega arith) queue-IsValid

cond_signal_lem_example :
    Signalled 100
      (system ThreadState.blocked)
      (0 ∷ [])
      (cond_signal 100 (system ThreadState.blocked))
cond_signal_lem_example =
    cond_signal_lem 100 (0 ∷ []) (system ThreadState.blocked) (omega arith) (omega arith)
      queue-IsValid queue_contents refl only_zero

-- The thread that runs yields nothing to others.
abbrev still : ℕ → RuntimeState → Option RuntimeState
still slot s = some s

run_until-RanUntil_example : RanUntil 1 running (run_until still 3 1 running)
run_until-RanUntil_example = run_until-RanUntil still 3 1 running

set_mode-Entered_example : Entered Mode.recording none (set_mode Mode.recording booted)
set_mode-Entered_example = set_mode-Entered Mode.recording booted refl

abbrev valid_config : Config
valid_config = record config { quantum_us = 1000 }

valid_config_is_valid : config_is_valid (some valid_config) ≡ true
unfolding config_is_valid
valid_config_is_valid = refl

runtime_shutdown-Refuses_example :
    let (s', status) = runtime_shutdown running in
    (status ≡ ok)
    × Refuses s'
    × LocksOn s'
    × (runtime_init (some valid_config) s' ≡ (fresh_state valid_config s'.world, ok))
runtime_shutdown-Refuses_example =
    runtime_shutdown-Refuses valid_config running refl valid_config_is_valid

-- A file with one record.
abbrev small_file : List ℕ
small_file = file_of none (build_record EventType.runtime_init 0 0 0 7 ∷ [])

small_file_counted : count_records small_file ≢ 0
unfolding count_records records_valid validate_header encode_header decode_header make_header encode
    decode build_record payload validate_record calc_checksum fnv
small_file_counted = omega arith

count_records-IsTraceFile_example : IsTraceFile small_file (count_records small_file)
count_records-IsTraceFile_example = count_records-IsTraceFile small_file small_file_counted
