-- ===== src/Runtime/Table.antt =====
-- src/runtime/runtime.c, src/thread/thread.c: the identifiers in the table of threads. Those in use
-- are distinct, not 0 and below the next one, and each record knows its slot.
use gthreads.Base.{
  ℕ, ◌+◌, ◌≤◌, ◌<◌, ◌≡◌, ap, ◌∙◌, List, true, false, none, some, ◌==◌, if◌then◌else◌, Option-cases,
  inl, inr, arith, ℕ_discrete, length, get_or, set, length-set, get_or-set_self, get_or-set_ne,
}
use gthreads.State.{Thread, RuntimeState}
use gthreads.Runtime.{zero_thread, is_empty, find_thread, thread_at, put_thread}
use gthreads.Runtime.Find.{has_tid, find_thread-some, find_thread-none}

pub record IsTable (ts : List Thread) (next_tid : ℕ) : Type 0 where
  pub positive : 0 < next_tid
  pub indexed :
      (i : ℕ)
      → i < length ts
      → is_empty (get_or ts i zero_thread).state ≡ false
      → (get_or ts i zero_thread).slot_index ≡ i
  pub fresh :
      (i : ℕ)
      → i < length ts
      → is_empty (get_or ts i zero_thread).state ≡ false
      → (0 < (get_or ts i zero_thread).tid) × ((get_or ts i zero_thread).tid < next_tid)
  pub distinct :
      (i j : ℕ)
      → i < length ts
      → j < length ts
      → is_empty (get_or ts i zero_thread).state ≡ false
      → is_empty (get_or ts j zero_thread).state ≡ false
      → (get_or ts i zero_thread).tid ≡ (get_or ts j zero_thread).tid
      → i ≡ j

-- A record in the table after one write.
pub get_or-set :
    (ts : List Thread) (i j : ℕ) (t : Thread)
    → i < length ts
    → get_or (set ts i t) j zero_thread ≡ (if j == i then t else get_or ts j zero_thread)
get_or-set ts i j t h = elim (ℕ_discrete i j) [
  | yes e ↦ ground (arith, get_or-set_self ts i t zero_thread h)
  | no ne ↦ ground (arith, get_or-set_ne ts i j t zero_thread ne)
]

-- A write that keeps identifier and slot of a record in use keeps the table.
pub set-IsTable_same :
    (ts : List Thread) (n i : ℕ) (t : Thread)
    → IsTable ts n
    → i < length ts
    → is_empty (get_or ts i zero_thread).state ≡ false
    → t.tid ≡ (get_or ts i zero_thread).tid
    → t.slot_index ≡ (get_or ts i zero_thread).slot_index
    → IsTable (set ts i t) n
set-IsTable_same ts n i t v h used e f = record {
  positive = v.positive;
  indexed =
      λ j hj u. ground (arith, get_or-set ts i j t h, v.indexed j, v.indexed i, length-set ts i t);
  fresh = λ j hj u. ground (arith, get_or-set ts i j t h, v.fresh j, v.fresh i, length-set ts i t);
  distinct = λ j k hj hk uj uk q. ground (
    arith,
    get_or-set ts i j t h,
    get_or-set ts i k t h,
    v.distinct j k,
    v.distinct i k,
    v.distinct j i,
    length-set ts i t,
  );
}

pub set-IsTable_empty :
    (ts : List Thread) (n i : ℕ) (t : Thread)
    → IsTable ts n
    → i < length ts
    → is_empty t.state ≡ true
    → IsTable (set ts i t) n
set-IsTable_empty ts n i t v h free = record {
  positive = v.positive;
  indexed = λ j hj u. ground (arith, get_or-set ts i j t h, v.indexed j, length-set ts i t);
  fresh = λ j hj u. ground (arith, get_or-set ts i j t h, v.fresh j, length-set ts i t);
  distinct = λ j k hj hk uj uk q.
      ground
        (arith, get_or-set ts i j t h, get_or-set ts i k t h, v.distinct j k, length-set ts i t);
}

pub set-IsTable_new :
    (ts : List Thread) (n i : ℕ) (t : Thread)
    → IsTable ts n
    → i < length ts
    → t.tid ≡ n
    → t.slot_index ≡ i
    → IsTable (set ts i t) (n + 1)
set-IsTable_new ts n i t v h e f = record {
  positive = omega arith;
  indexed = λ j hj u. ground (arith, get_or-set ts i j t h, v.indexed j, length-set ts i t);
  fresh = λ j hj u. ground (arith, get_or-set ts i j t h, v.fresh j, v.positive, length-set ts i t);
  distinct = λ j k hj hk uj uk q. ground (
    arith,
    get_or-set ts i j t h,
    get_or-set ts i k t h,
    v.distinct j k,
    v.fresh j,
    v.fresh k,
    length-set ts i t,
  );
}

-- In such a table the search for an identifier in use finds the slot that has it.
pub find_thread-in_use :
    (s : RuntimeState) (slot : ℕ)
    → IsTable s.threads s.next_tid
    → slot < length s.threads
    → is_empty (thread_at s slot).state ≡ false
    → find_thread s (thread_at s slot).tid ≡ some slot
find_thread-in_use s slot v h used = elim (Option-cases (find_thread s (thread_at s slot).tid)) [
  | inl e ↦ absurd (missed (find_thread-none s (thread_at s slot).tid e slot h))
  | inr (i, e) ↦
      let f = find_thread-some s (thread_at s slot).tid i e in
      e ∙ ap some (v.distinct i slot f.inside h f.in_use used f.same_tid)
]
  where
    missed : has_tid (thread_at s slot).tid (thread_at s slot) ≡ false → ⊥
    missed e = ground arith

-- An identifier that has not been given out is not found.
pub find_thread-fresh :
    (s : RuntimeState) (tid : ℕ)
    → IsTable s.threads s.next_tid
    → s.next_tid ≤ tid
    → find_thread s tid ≡ none
find_thread-fresh s tid v h = elim (Option-cases (find_thread s tid)) [
  | inl e ↦ e
  | inr (i, e) ↦
      let f = find_thread-some s tid i e in
      absurd (omega (arith, f.same_tid, (v.fresh i f.inside f.in_use).1))
]

-- Once the one slot that has an identifier is empty, the identifier is not found.
pub find_thread-released :
    (s : RuntimeState) (slot : ℕ) (t : Thread)
    → IsTable s.threads s.next_tid
    → slot < length s.threads
    → is_empty (thread_at s slot).state ≡ false
    → is_empty t.state ≡ true
    → find_thread (put_thread s slot t) (thread_at s slot).tid ≡ none
find_thread-released s slot t v h used free =
    elim (Option-cases (find_thread (put_thread s slot t) (thread_at s slot).tid)) [
      | inl e ↦ e
      | inr (i, e) ↦
          let f = find_thread-some (put_thread s slot t) (thread_at s slot).tid i e in
          absurd (
            ground (
              arith,
              f.inside,
              f.in_use,
              f.same_tid,
              get_or-set s.threads slot i t h,
              v.distinct i slot,
              length-set s.threads slot t,
            ))
    ]

pub IsTable-next : (ts : List Thread) (n : ℕ) → IsTable ts n → IsTable ts (n + 1)
IsTable-next ts n v = record {
  positive = omega arith;
  indexed = v.indexed;
  fresh = λ i h u. let f = v.fresh i h u in (f.0, omega (arith, f.1));
  distinct = v.distinct;
}
