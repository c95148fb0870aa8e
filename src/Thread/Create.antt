-- ===== src/Thread/Create.antt =====
-- src/thread/thread.c: `gth_thread_create`.
use gthreads.Base.{ℕ, ◌+◌, Bool, not, ◌||◌, Option, none, some, ◌==◌, if◌then◌else◌, u64}
use gthreads.State.{
  Status, ok, einval, enomem, estate, ThreadState, StackAllocation, Thread, RuntimeState,
}
use gthreads.Trace.{trace_thread_create}
use gthreads.Runtime.{zero_thread, no_ctx, put_thread, alloc_thread_slot}
use gthreads.Context.{stack_allocate, context_init_thread}

-- The new record of `gth_thread_create`, before its stack and context.
abbrev pub new_thread : ℕ → Option ℕ → ℕ → ℕ → RuntimeState → Thread
new_thread slot priority fn arg s = record zero_thread {
  tid = s.next_tid;
  fn = fn;
  arg = arg;
  priority = elim priority [ none ↦ 0 | some p ↦ p ];
  state = ThreadState.ready;
  slot_index = slot;
}

-- The outcome of `gth_stack_allocate` in `gth_thread_create`: on failure the slot is cleared, on
-- success the thread is ready.
unfoldable pub create_on :
    ℕ → Thread → StackAllocation → Status → RuntimeState → RuntimeState × Status × Option ℕ
unfolding context_init_thread
create_on slot t stack ok s =
    let (ctx, w) = context_init_thread no_ctx stack slot s.world in
    let ready = record (put_thread s slot (record t { ctx = ctx; stack = stack })) {
      world = w;
      runnable_threads = u64 (s.runnable_threads + 1);
    } in
    (trace_thread_create t.tid ready, ok, some t.tid)
create_on slot t stack failed s = (put_thread s slot zero_thread, failed, none)

unfoldable pub create_in :
    Option ℕ → Option ℕ → ℕ → ℕ → RuntimeState → RuntimeState × Status × Option ℕ
unfolding create_on stack_allocate
create_in none priority fn arg s = (s, enomem, none)
create_in (some slot) priority fn arg s =
    let (w, stack, status) = stack_allocate s.config.stack_size_bytes s.world in
    create_on slot (new_thread slot priority fn arg s) stack status
      (record s { next_tid = u64 (s.next_tid + 1); world = w })

-- `gth_thread_create`: whether `out_tid` is non-NULL, the priority of the attributes if there are
-- any, the entry point (0 for NULL) and its argument. What goes through `out_tid` stands last.
unfoldable pub thread_create :
    Bool → Option ℕ → ℕ → ℕ → RuntimeState → RuntimeState × Status × Option ℕ
unfolding create_in alloc_thread_slot
thread_create has_out priority fn arg s =
    if not s.initialized
    then (s, estate, none)
    else if not has_out || (fn == 0)
    then (s, einval, none)
    else create_in (alloc_thread_slot s) priority fn arg s
