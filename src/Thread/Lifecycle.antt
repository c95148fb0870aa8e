-- ===== src/Thread/Lifecycle.antt =====
-- src/thread/thread.c: what creation, cancellation and release do to the table of threads.
use gthreads.Base.{
  ℕ, ◌+◌, ◌<◌, ◌≡◌, ◌≢◌, refl, sym, ap, ◌∙◌, Bool, true, arith, Option, none, some, Option-cases,
  inl, inr, Bool-cases, not, ◌||◌, ◌==◌, get_or, set, get_or-set_self, get_or-set_ne, length-set,
  u64, subst,
}
use gthreads.State.{Status, ok, enomem, ThreadState, Thread, World, StackAllocation, RuntimeState}
use gthreads.Context.{context_init_thread}
use gthreads.Trace.{trace_record}
use gthreads.Runtime.{
  max_threads, zero_thread, no_ctx, thread_at, is_empty, find_thread, alloc_thread_slot,
}
use gthreads.Runtime.Count.{IsCounted}
use gthreads.Runtime.Find.{alloc_thread_slot-some}
use gthreads.Runtime.Table.{
  IsTable, IsTable-next, set-IsTable_empty, set-IsTable_new, find_thread-in_use, find_thread-fresh,
}
use gthreads.Runtime.WellFormed.{IsWellFormed}
use gthreads.Thread.Counted.{create_on-IsCounted}
use gthreads.Thread.Create.{new_thread, create_on, create_in, thread_create}

-- A new thread: its identifier was unknown and is now found, at a slot that was empty and holds a
-- ready thread with the given function and argument; no other slot has changed.
pub record Created (s : RuntimeState) (fn arg : ℕ) (s' : RuntimeState) (tid : ℕ) : Type 0 where
  pub well_formed : IsWellFormed s'
  pub slot : ℕ
  pub unknown : find_thread s tid ≡ none
  pub found : find_thread s' tid ≡ some slot
  pub was_empty : is_empty (thread_at s slot).state ≡ true
  pub ready : (thread_at s' slot).state ≡ ThreadState.ready
  pub runs : ((thread_at s' slot).fn ≡ fn) × ((thread_at s' slot).arg ≡ arg)
  pub others : (j : ℕ) → j ≢ slot → thread_at s' j ≡ thread_at s j

-- What `gth_thread_create` may come to: a new thread and `ok`, or an error and no identifier.
abbrev pub CreateOutcome : RuntimeState → ℕ → ℕ → RuntimeState × Status × Option ℕ → Type 0
CreateOutcome s fn arg (s', status, none) = IsWellFormed s' × (status ≢ ok)
CreateOutcome s fn arg (s', status, some tid) = Created s fn arg s' tid × (status ≡ ok)

module _ (s : RuntimeState) (slot : ℕ) (v : IsWellFormed s) (inside : slot < max_threads)
    (free : is_empty (thread_at s slot).state ≡ true)
    (room : s.next_tid + 1 < 18446744073709551616) where
  -- The state once the identifier has been taken.
  abbrev numbered : World → RuntimeState
  numbered w = record s { next_tid = u64 (s.next_tid + 1); world = w }

  created-IsTable :
      (t : Thread)
      → t.tid ≡ s.next_tid
      → t.slot_index ≡ slot
      → IsTable (set s.threads slot t) (u64 (s.next_tid + 1))
  created-IsTable t e f =
      subst (IsTable (set s.threads slot t)) (omega arith)
        (set-IsTable_new s.threads s.next_tid slot t v.table (omega (arith, v.counted.slots)) e f)

  cleared-IsTable : IsTable (set s.threads slot zero_thread) (u64 (s.next_tid + 1))
  cleared-IsTable = subst (IsTable (set s.threads slot zero_thread)) (omega arith) (
      IsTable-next _ s.next_tid (
        set-IsTable_empty s.threads s.next_tid slot zero_thread v.table
          (omega (arith, v.counted.slots)) refl))

  numbered-IsCounted : (w : World) → IsCounted (numbered w)
  numbered-IsCounted w = record {
    slots = v.counted.slots;
    ready = v.counted.ready;
    blocked = v.counted.blocked;
  }

  create_on-Created :
      (t : Thread) (stack : StackAllocation) (w : World)
      → t.tid ≡ s.next_tid
      → t.slot_index ≡ slot
      → t.state ≡ ThreadState.ready
      → Created s t.fn t.arg (create_on slot t stack ok (numbered w)).0 t.tid
  unfolding create_on trace_record
  create_on-Created t stack w e f r = record {
    well_formed = record {
      counted =
          create_on-IsCounted slot t stack ok (numbered w) (numbered-IsCounted w) inside free r;
      table = after;
    };
    slot = slot;
    unknown = find_thread-fresh s t.tid v.table (omega arith);
    found =
        let s' = (create_on slot t stack ok (numbered w)).0 in
        subst (λ x. find_thread s' x ≡ some slot) (ap (λ x. x.tid) at)
          (find_thread-in_use s' slot after
            (omega (arith, length-set s.threads slot made, v.counted.slots))
            (ap (λ x. is_empty x.state) at ∙ ap is_empty r));
    was_empty = free;
    ready = ap (λ x. x.state) at ∙ r;
    runs = (ap (λ x. x.fn) at, ap (λ x. x.arg) at);
    others = λ j ne. get_or-set_ne s.threads slot j made zero_thread (λ q. ne (sym q));
  }
    where
      made : Thread
      made = record t { ctx = (context_init_thread no_ctx stack slot w).0; stack = stack }

      at : get_or (set s.threads slot made) slot zero_thread ≡ made
      at = get_or-set_self s.threads slot made zero_thread (omega (arith, v.counted.slots))

      after : IsTable (set s.threads slot made) (u64 (s.next_tid + 1))
      after = created-IsTable made e f

  create_on-CreateOutcome :
      (priority : Option ℕ) (fn arg : ℕ) (stack : StackAllocation) (status : Status) (w : World)
      → CreateOutcome s fn arg
          (create_on slot (new_thread slot priority fn arg s) stack status (numbered w))
  unfolding create_on trace_record
  create_on-CreateOutcome priority fn arg stack ok w =
      (create_on-Created (new_thread slot priority fn arg s) stack w refl refl refl, refl)
  create_on-CreateOutcome priority fn arg stack x w = (
    record {
      counted =
          create_on-IsCounted slot (new_thread slot priority fn arg s) stack x (numbered w)
            (numbered-IsCounted w) inside free refl;
      table = cleared-IsTable;
    },
    λ e. cc,
  )

-- `gth_thread_create` on a well-formed runtime whose identifiers have not run out, on every branch:
-- the runtime stays well formed; an error gives no identifier; success gives an identifier that was
-- unknown before and is found afterwards, at a slot that was empty and now holds a ready thread with
-- the given function and argument, and changes no other slot.
pub thread_create_lem :
    (s : RuntimeState) (has_out : Bool) (priority : Option ℕ) (fn arg : ℕ)
    → IsWellFormed s
    → s.next_tid + 1 < 18446744073709551616
    → CreateOutcome s fn arg (thread_create has_out priority fn arg s)
unfolding thread_create create_in
thread_create_lem s has_out priority fn arg v room = elim (Bool-cases (not s.initialized)) [
  | inl off ↦ rw off (v, λ e. cc)
  | inr on ↦ elim (Bool-cases (not has_out || (fn == 0))) [
    | inl bad ↦ rw (on, bad) (v, λ e. cc)
    | inr good ↦
        rw (on, good)
          (elim (Option-cases (alloc_thread_slot s)) [
            | inl e ↦ rw e (v, λ (q : enomem ≡ ok). cc)
            | inr (slot, e) ↦
                let (inside, free) = alloc_thread_slot-some s slot e in
                rw e (
                  create_on-CreateOutcome s slot v (omega (arith, inside, v.counted.slots)) free
                    room priority fn arg _ _ _)
          ])
  ]
]
