-- ===== src/Context.antt =====
-- src/context: allocation of stacks (stack.c), contexts of new threads (context.c and
-- `gth_ctx_make` of ctx_x86_64.S), and the end of a thread (context.c).
pub mod Swap
pub mod Mask
pub mod Stack
pub mod Starts
use gthreads.Base.{
  ℕ, ◌+◌, ◌-◌, ◌*◌, ◌/◌, ◌%◌, ◌∷◌, Bool, true, false, not, ◌&&◌, ◌||◌, Option, none, some, ◌==◌,
  ltb, if◌then◌else◌, bit_and, u64,
}
use gthreads.State.{
  Status, ok, einval, enomem, einternal, StackAllocation, Ctx, Thread, ThreadState, World,
  RuntimeState,
}
use gthreads.Trace.Buffer.{tick}
use gthreads.Trace.{trace_thread_exit}
use gthreads.Memory.{unmap, no_stack}
use gthreads.Runtime.{thread_at, put_thread}

-- `GTH_MAX_STACK_SIZE`.
abbrev pub max_stack_size : ℕ
max_stack_size = 67108864

-- `gth_page_size`, with its static cache.
unfoldable pub page_size : World → World × ℕ
page_size w =
    if w.cached_page_size == 0
    then (record w { cached_page_size = w.sysconf_pagesize }, w.sysconf_pagesize)
    else (w, w.cached_page_size)

unfoldable pub is_power_of_two : ℕ → Bool
is_power_of_two value = not (value == 0) && (bit_and value (value - 1) == 0)

-- `gth_align_up`: `& ~(alignment - 1)` on 64 bits.
unfoldable pub align_up : ℕ → ℕ → ℕ
align_up value alignment =
    bit_and (u64 (value + alignment - 1)) (18446744073709551615 - (alignment - 1))

-- The calls of `mmap` and `mprotect`, with the `munmap` of an error.
unfoldable pub map_stack : ℕ → ℕ → Option ℕ → World → World × StackAllocation × Status
unfolding unmap
map_stack aligned page none w = (tick w, no_stack, enomem)
map_stack aligned page (some memory) w =
    let mapped = record (tick w) { regions = (memory, aligned + page) ∷ w.regions } in
    if w.mprotect (tick w).calls
    then (
      tick mapped,
      record {
        memory = memory;
        total_size = aligned + page;
        stack_size = aligned;
        stack_top = u64 (memory + (aligned + page));
        guard_page = memory;
      },
      ok,
    )
    else (
      record (tick mapped) { regions = unmap memory (aligned + page) mapped.regions },
      no_stack,
      einternal,
    )

-- `gth_stack_allocate`; `out_stack` is not NULL at its one call.
unfoldable pub stack_allocate : ℕ → World → World × StackAllocation × Status
unfolding page_size is_power_of_two align_up map_stack
stack_allocate stack_size_bytes w =
    let (w', page) = page_size w in
    let aligned = align_up stack_size_bytes page in
    if (page == 0) || not (is_power_of_two page)
    then (w', no_stack, einternal)
    else if ltb stack_size_bytes 16384 || ltb max_stack_size stack_size_bytes
    then (w', no_stack, einval)
    else if ltb aligned stack_size_bytes
    then (w', no_stack, einval)
    else if ltb (u64 (aligned + page)) aligned
    then (w', no_stack, einval)
    else map_stack aligned page (w'.mmap w'.calls) w'

abbrev pub store : (ℕ → ℕ) → ℕ → ℕ → ℕ → ℕ
store words address value a = if a == address then value else words a

-- `gth_ctx_make`: cleared registers, the entry and its argument on the new stack, and the state of
-- the FPU if the context has a place for it.
unfoldable pub ctx_make : Ctx → ℕ → ℕ → ℕ → World → Ctx × World
ctx_make ctx stack_top entry slot_index w =
    let sp = u64 (stack_top + 18446744073709551616 - 16) in
    let words = store (store w.words sp entry) (u64 (sp + 8)) slot_index in
    let made = record ctx {
      rbx = 0;
      rbp = 0;
      r12 = 0;
      r13 = 0;
      r14 = 0;
      r15 = 0;
      rsp = sp;
      rip = w.ctx_trampoline;
    } in
    if ctx.fxsave_area
    then (record made { fxsave_buf = w.fxsave w.calls }, record (tick w) { words = words })
    else (made, record w { words = words })

-- `gth_context_init_thread`; neither pointer is NULL at its one call.
unfoldable pub context_init_thread : Ctx → StackAllocation → ℕ → World → Ctx × World
unfolding ctx_make
context_init_thread ctx stack slot_index w =
    ctx_make (record ctx { fxsave_area = true; fxsave_buf = 0 }) stack.stack_top w.thread_trampoline
      slot_index w

unfoldable pub finish_thread : Thread → ℕ → Thread
finish_thread t result = elim t.state [
  | ThreadState.canceled ↦ record t { retval = 0 }
  | _ ↦ record t { retval = result; state = ThreadState.done }
]

-- `gth_context_thread_trampoline` from the return of the thread's function on. Control goes to the
-- scheduler's context and never comes back.
unfoldable pub trampoline_exit : ℕ → ℕ → RuntimeState → RuntimeState
unfolding finish_thread
trampoline_exit slot result s =
    let t = finish_thread (thread_at s slot) result in
    let s' = trace_thread_exit t.tid t.retval (put_thread s slot t) in record s' { current_tid = 0 }
