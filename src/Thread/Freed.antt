-- ===== src/Thread/Freed.antt =====
-- src/runtime/runtime.c, src/thread/thread.c: the memory that is mapped in reachable states and after a shutdown.
use gthreads.Base.{
  ℕ, ◌≡◌, ◌≢◌, refl, sym, ap, ◌∙◌, [], some, none, Option, true, arith, if-cases, get_or-replicate,
  Option-cases, inl, inr,
}
use gthreads.State.{Config, World, Status, File, TraceState, Thread, RuntimeState}
use gthreads.Trace.{flush_trace, fclose}
use gthreads.Trace.Session.{trace_cleanup, close_trace, cleanup_open}
use gthreads.Trace.Ticks.{flush_open-keeps}
use gthreads.Replay.Events.{replay_cleanup}
use gthreads.Fuzz.{fuzz_cleanup}
use gthreads.Runtime.{max_threads, zero_thread, fresh_state, runtime_shutdown, free_stacks}
use gthreads.Runtime.Find.{find_thread-some}
use gthreads.Thread.Live.{IsLive, back}
use gthreads.Thread.Reach.{
  Step, create, cancel, unblock, release, choose, switch, yield, block, finish, Reachable, boot,
  next, Reachable-IsLive,
}
use gthreads.Thread.{yield_in, block_in, thread_cancel}
use gthreads.Thread.Cancel.{thread_cancel_lem}
use gthreads.Thread.Owned.{IsOwned, mapped, mapped-free_stacks, nothing_mapped, same-IsOwned}
use gthreads.Thread.Balance.{
  dispatch-IsOwned, yield_in-IsOwned, block_in-IsOwned, trampoline_exit-IsOwned,
  unblock_slot-IsOwned,
}
use gthreads.Thread.CancelKeeps.{cancel-SameMap, cancel-IsOwned}
use gthreads.Thread.CreateMaps.{thread_create-IsOwned}
use gthreads.Thread.Leaks.{release_slot-IsOwned}

calm : (s s' : RuntimeState) → IsOwned s → s'.threads ≡ s.threads → s'.world ≡ s.world → IsOwned s'
calm s s' v t w =
    same-IsOwned s s' v t
      (record { regions = ap (λ (x : World). x.regions) w; mmap = ap (λ (x : World). x.mmap) w })

Step-IsOwned : {s t : RuntimeState} → Step s t → IsLive s → IsOwned s → IsOwned t
Step-IsOwned (create s has_out priority fn arg room) l v =
    thread_create-IsOwned s has_out priority fn arg v
Step-IsOwned (cancel s tid) l v =
    cancel-IsOwned s tid (thread_cancel tid s) v (thread_cancel_lem s tid l.well_formed)
      (cancel-SameMap tid s)
Step-IsOwned (unblock s slot) l v = unblock_slot-IsOwned s slot v l.well_formed.counted.slots
Step-IsOwned (release s tid slot e ne ended) l v =
    release_slot-IsOwned s slot v (find_thread-some s tid slot e).inside
Step-IsOwned (choose s slot) l v = calm s (record s { last_rr_slot = slot }) v refl refl
Step-IsOwned (switch s slot idle h r) l v =
    dispatch-IsOwned s slot v (omega (arith, l.well_formed.counted.slots))
Step-IsOwned (yield s slot e) l v =
    let s' = (yield_in (some slot) s).0 in
    calm s' (back s') (yield_in-IsOwned s slot v (find_thread-some s s.current_tid slot e).inside)
      refl refl
Step-IsOwned (block s slot e) l v =
    let s' = (block_in (some slot) s).0 in
    calm s' (back s') (block_in-IsOwned s slot v (find_thread-some s s.current_tid slot e).inside)
      refl refl
Step-IsOwned (finish s slot result e) l v =
    trampoline_exit-IsOwned s slot result v (find_thread-some s s.current_tid slot e).inside

-- The world in which a runtime was initialized.
abbrev pub boot_world : {s : RuntimeState} → Reachable s → World
boot_world (boot config w) = w
boot_world (next s t r step) = boot_world r

boot-IsOwned :
    (config : Config) (w : World)
    → w.regions ≡ []
    → ((i : ℕ) → w.mmap i ≢ some 0)
    → IsOwned (fresh_state config w)
boot-IsOwned config w none_mapped nonzero = record {
  clear = λ i z. ap (λ (t : Thread). t.stack) (get_or-replicate max_threads i zero_thread);
  balance = λ a n. ap (mapped a n) none_mapped;
  nonzero = nonzero;
}

-- In every state that calls of the threads and switches of the scheduler reach from the start, if
-- nothing was mapped before and `mmap` does not map the address 0: each region is mapped as often
-- as it is the stack of a thread in the table, and a free slot has no stack.
pub Reachable-IsOwned :
    {s : RuntimeState} (r : Reachable s)
    → (boot_world r).regions ≡ []
    → ((i : ℕ) → (boot_world r).mmap i ≢ some 0)
    → IsOwned s
Reachable-IsOwned (boot config w) e nonzero = boot-IsOwned config w e nonzero
Reachable-IsOwned (next s t r step) e nonzero =
    Step-IsOwned step (Reachable-IsLive r) (Reachable-IsOwned r e nonzero)

regions-fclose : (file : Option File) (w : World) → (fclose file w).regions ≡ w.regions
unfolding fclose
regions-fclose none w = refl
regions-fclose (some file) w = refl

regions-close_trace : (t : TraceState) (w : World) → (close_trace t w).regions ≡ w.regions
unfolding close_trace flush_trace
regions-close_trace t w =
    if-cases (λ (x : World). x.regions ≡ w.regions) t.active
      (λ h.
        regions-fclose _ _
        ∙ flush_open-keeps (λ x. x.regions ≡ w.regions) (λ x e. e) t t.file t.buffer w refl)
      (λ h. regions-fclose t.file w)

regions-trace_cleanup : (s : RuntimeState) → (trace_cleanup s).world.regions ≡ s.world.regions
unfolding trace_cleanup cleanup_open
regions-trace_cleanup s = elim (Option-cases s.trace) [
  | inl e ↦ rw e refl
  | inr (t, e) ↦ rw e (regions-close_trace t s.world)
]

-- If nothing was mapped before the runtime was initialized, and `mmap` does not map the address 0,
-- then after any calls of the threads and switches of the scheduler `gth_runtime_shutdown` leaves
-- nothing mapped: stacks of threads that ended, that were joined, that are ready or blocked, and
-- those of failed creations are each unmapped.
pub runtime_shutdown-Unmaps :
    {s : RuntimeState} (r : Reachable s)
    → (boot_world r).regions ≡ []
    → ((i : ℕ) → (boot_world r).mmap i ≢ some 0)
    → s.initialized ≡ true
    → (runtime_shutdown s).0.world.regions ≡ []
unfolding runtime_shutdown replay_cleanup fuzz_cleanup
runtime_shutdown-Unmaps {s} r e nonzero on =
    let v = Reachable-IsOwned r e nonzero in
    if-cases (λ (x : RuntimeState × Status). x.0.world.regions ≡ []) s.initialized
      (λ h. nothing_mapped (free_stacks s.threads (trace_cleanup s).world).regions (
        mapped-free_stacks s.threads (trace_cleanup s).world
          (λ a n. ap (mapped a n) (regions-trace_cleanup s) ∙ v.balance a n)))
      (λ off. let q = sym on ∙ off in cc)
