-- ===== src/Thread/CreateMaps.antt =====
-- src/thread/thread.c, src/context/stack.c: the memory that is mapped at a creation.
use gthreads.Base.{
  ℕ, ◌+◌, ◌<◌, ◌≡◌, ◌≢◌, refl, sym, ap, ◌∙◌, List, ◌∷◌, true, arith, Bool, Option, some, none,
  Option-cases, inl, inr, if-cases, not, ◌&&◌, ◌||◌, ◌==◌, ltb, length, set, u64,
}
use gthreads.State.{Status, ok, StackAllocation, Thread, ThreadState, World, RuntimeState}
use gthreads.Memory.{no_stack, unmap}
use gthreads.Runtime.Count.{one_if}
use gthreads.Trace.{trace_record}
use gthreads.Trace.Format.{EventType}
use gthreads.Runtime.{zero_thread, put_thread, thread_at, is_empty, alloc_thread_slot, no_ctx}
use gthreads.Runtime.Find.{alloc_thread_slot-some}
use gthreads.Context.{
  page_size, is_power_of_two, align_up, map_stack, stack_allocate, context_init_thread, ctx_make,
  max_stack_size,
}
use gthreads.Thread.Create.{thread_create, create_in, create_on, new_thread}
use gthreads.Thread.Owned.{
  owns, mapped, owners, owners-set, owners-set_same, set-clear, IsOwned, SameMap, traced-SameMap,
}

-- The region of a new stack, or none.
abbrev Maps : World → World × StackAllocation × Status → Type 0
Maps w (w', stack, ok) =
    (w'.regions ≡ (stack.memory, stack.total_size) ∷ w.regions)
    × (w'.mmap ≡ w.mmap)
    × (stack.memory ≢ 0)
    × (stack.total_size ≢ 0)
Maps w (w', stack, failed) = SameMap w w' × (stack ≡ no_stack)

unmap_first : (a n : ℕ) (regions : List (ℕ × ℕ)) → unmap a n ((a, n) ∷ regions) ≡ regions
unfolding unmap
unmap_first a n regions = ground arith

map_stack-Maps :
    (aligned page : ℕ) (memory : Option ℕ) (w w' : World)
    → page ≢ 0
    → memory ≢ some 0
    → SameMap w w'
    → Maps w (map_stack aligned page memory w')
unfolding map_stack
map_stack-Maps aligned page none w w' h k e = (record { regions = e.regions; mmap = e.mmap }, refl)
map_stack-Maps aligned page (some memory) w w' h k e =
    if-cases (Maps w) (w'.mprotect (w'.calls + 1))
      (λ guarded. (
        ap (λ l. (memory, aligned + page) ∷ l) e.regions,
        e.mmap,
        λ z. k (ap some z),
        λ z. h (omega (arith, z)),
      ))
      (λ refused. (
        record {
          regions = unmap_first memory (aligned + page) w'.regions ∙ e.regions;
          mmap = e.mmap;
        },
        refl,
      ))

page_size-SameMap : (w : World) → SameMap w (page_size w).0
unfolding page_size
page_size-SameMap w =
    if-cases (λ (r : World × ℕ). SameMap w r.0) (w.cached_page_size == 0)
      (λ h. record { regions = refl; mmap = refl }) (λ h. record { regions = refl; mmap = refl })

stack_allocate-Maps :
    (size : ℕ) (w : World) → ((i : ℕ) → w.mmap i ≢ some 0) → Maps w (stack_allocate size w)
unfolding stack_allocate
stack_allocate-Maps size w nonzero =
    let w' = (page_size w).0 in
    let page = (page_size w).1 in
    let aligned = align_up size page in
    let e = page_size-SameMap w in
    let P = Maps w in
    if-cases P ((page == 0) || not (is_power_of_two page)) (λ h. (e, refl))
      (λ h.
        if-cases P (ltb size 16384 || ltb max_stack_size size) (λ h. (e, refl))
          (λ k.
            if-cases P (ltb aligned size) (λ h. (e, refl))
              (λ k.
                if-cases P (ltb (u64 (aligned + page)) aligned) (λ h. (e, refl))
                  (λ k.
                    map_stack-Maps aligned page (w'.mmap w'.calls) w w' (ground (arith, h))
                      (λ z. nonzero w'.calls (ap (λ f. f w'.calls) (sym e.mmap) ∙ z)) e))))

owns-nonzero :
    (a n : ℕ) (stack : StackAllocation)
    → stack.memory ≢ 0
    → stack.total_size ≢ 0
    → owns a n stack ≡ (stack.memory == a) && (stack.total_size == n)
owns-nonzero a n stack h k = ground arith

owned_more :
    (a n slot : ℕ) (stack : StackAllocation) (s : RuntimeState) (t : Thread)
    → IsOwned s
    → slot < length s.threads
    → is_empty (thread_at s slot).state ≡ true
    → t.stack ≡ stack
    → stack.memory ≢ 0
    → stack.total_size ≢ 0
    → mapped a n ((stack.memory, stack.total_size) ∷ s.world.regions)
      ≡ owners a n (set s.threads slot t)
owned_more a n slot stack s t v h free same memory size =
    let old = ap (λ x. one_if (owns a n x)) (v.clear slot free) in
    let new = ap (λ x. one_if (owns a n x)) same ∙ ap one_if (owns-nonzero a n stack memory size) in
    omega (arith, v.balance a n, owners-set a n s.threads slot t h, old, new)

-- A free slot is filled with a thread that has a new stack, or cleared.
create_on-IsOwned :
    (slot : ℕ) (t : Thread) (stack : StackAllocation) (status : Status) (s0 s : RuntimeState)
    → IsOwned s0
    → slot < length s0.threads
    → is_empty (thread_at s0 slot).state ≡ true
    → s.threads ≡ s0.threads
    → t.state ≡ ThreadState.ready
    → Maps s0.world (s.world, stack, status)
    → IsOwned (create_on slot t stack status s).0
unfolding create_on context_init_thread ctx_make trace_record
create_on-IsOwned slot t stack ok s0 s v h free w r m =
    let (ctx, world) = context_init_thread no_ctx stack slot s.world in
    let new = record t { ctx = ctx; stack = stack } in
    let ready = record (put_thread s slot new) {
      world = world;
      runnable_threads = u64 (s.runnable_threads + 1);
    } in
    let e = traced-SameMap EventType.thread_create t.tid 0 0 ready in
    record {
      clear =
          set-clear s0 (create_on slot t stack ok s).0 slot new v h (ap (λ ts. set ts slot new) w)
            (λ z. let q = ap is_empty (sym r) ∙ z in cc);
      balance = λ a n.
          ap (mapped a n) (e.regions ∙ m.0)
          ∙ owned_more a n slot stack s0 new v h free refl m.2 m.3
          ∙ ap (λ ts. owners a n (set ts slot new)) (sym w);
      nonzero = λ i z. v.nonzero i (ap (λ f. f i) (sym (e.mmap ∙ m.1)) ∙ z);
    }
create_on-IsOwned slot t stack _ s0 s v h free w r m = record {
  clear =
      set-clear s0 (put_thread s slot zero_thread) slot zero_thread v h
        (ap (λ ts. set ts slot zero_thread) w) (λ z. refl);
  balance = λ a n.
      ap (mapped a n) m.0.regions
      ∙ v.balance a n
      ∙ sym (owners-set_same a n s0.threads slot zero_thread (sym (v.clear slot free)))
      ∙ ap (λ ts. owners a n (set ts slot zero_thread)) (sym w);
  nonzero = λ i z. v.nonzero i (ap (λ f. f i) (sym m.0.mmap) ∙ z);
}

pub thread_create-IsOwned :
    (s : RuntimeState) (has_out : Bool) (priority : Option ℕ) (fn arg : ℕ)
    → IsOwned s
    → IsOwned (thread_create has_out priority fn arg s).0
unfolding thread_create create_in
thread_create-IsOwned s has_out priority fn arg v =
    let P : RuntimeState × Status × Option ℕ → Type 0 = λ r. IsOwned r.0 in
    if-cases P (not s.initialized) (λ off. v)
      (λ on.
        if-cases P (not has_out || (fn == 0)) (λ bad. v)
          (λ good. elim (Option-cases (alloc_thread_slot s)) [
            | inl e ↦ rw e v
            | inr (slot, e) ↦
                let (w, stack, status) = stack_allocate s.config.stack_size_bytes s.world in
                let numbered = record s { next_tid = u64 (s.next_tid + 1); world = w } in
                let f = alloc_thread_slot-some s slot e in
                rw e (
                  create_on-IsOwned slot (new_thread slot priority fn arg s) stack status s numbered
                    v f.0 f.1 refl refl
                    (stack_allocate-Maps s.config.stack_size_bytes s.world v.nonzero))
          ]))
