-- ===== src/Thread/Join.antt =====
-- src/thread/thread.c: the release of a slot, and `gth_thread_join` on a thread that has ended.
use gthreads.Base.{
  Option, ℕ, ◌<◌, ◌≡◌, ◌≢◌, refl, sym, ap, ◌∙◌, true, false, arith, none, some, ◌==◌, get_or,
  get_or-set_self, subst,
}
use gthreads.State.{ok, RuntimeState, returned}
use gthreads.Runtime.{
  max_threads, zero_thread, thread_at, put_thread, is_empty, is_terminal, find_from, find_thread,
}
use gthreads.Runtime.Find.{find_thread-some}
use gthreads.Runtime.Table.{IsTable, set-IsTable_empty, find_thread-released}
use gthreads.Runtime.WellFormed.{IsWellFormed}
use gthreads.Thread.{join_in, join_release, thread_join}
use gthreads.Thread.Account.{release_slot, leave_state}
use gthreads.Thread.Counted.{release_slot-IsCounted}

pub release_slot-fields :
    (s : RuntimeState) (slot : ℕ)
    → ((release_slot slot s).threads ≡ (put_thread s slot zero_thread).threads)
      × ((release_slot slot s).next_tid ≡ s.next_tid)
unfolding release_slot leave_state
release_slot-fields s slot = ground arith

pub release_slot-IsWellFormed :
    (s : RuntimeState) (slot : ℕ)
    → IsWellFormed s
    → slot < max_threads
    → IsWellFormed (release_slot slot s)
release_slot-IsWellFormed s slot v h = record {
  counted = release_slot-IsCounted s slot v.counted h;
  table =
      let e = release_slot-fields s slot in
      subst (λ n. IsTable (release_slot slot s).threads n) (sym e.1)
        (subst (λ ts. IsTable ts s.next_tid) (sym e.0)
          (set-IsTable_empty s.threads s.next_tid slot zero_thread v.table
            (omega (arith, v.counted.slots)) refl));
}

find_thread_ext :
    (s s' : RuntimeState) (tid : ℕ)
    → s.threads ≡ s'.threads
    → find_thread s tid ≡ find_thread s' tid
unfolding find_thread
find_thread_ext s s' tid e = ap (λ ts. find_from ts 0 tid) e

-- What the end of a join leaves: the identifier is not found any more, and its slot is empty.
pub record Joined (s : RuntimeState) (tid slot : ℕ) (s' : RuntimeState) : Type 0 where
  pub well_formed : IsWellFormed s'
  pub forgotten : find_thread s' tid ≡ none
  pub emptied : is_empty (thread_at s' slot).state ≡ true

release_slot-Joined :
    (s : RuntimeState) (tid slot : ℕ)
    → IsWellFormed s
    → find_thread s tid ≡ some slot
    → Joined s tid slot (release_slot slot s)
release_slot-Joined s tid slot v e =
    let f = find_thread-some s tid slot e in
    let r = release_slot-fields s slot in
    record {
      well_formed = release_slot-IsWellFormed s slot v (omega (arith, f.inside, v.counted.slots));
      forgotten =
          find_thread_ext (release_slot slot s) (put_thread s slot zero_thread) tid r.0
          ∙ subst (λ x. find_thread (put_thread s slot zero_thread) x ≡ none) f.same_tid
              (find_thread-released s slot zero_thread v.table f.inside f.in_use refl);
      emptied =
          ap (λ ts. is_empty (get_or ts slot zero_thread).state) r.0
          ∙ ap (λ t. is_empty t.state)
              (get_or-set_self s.threads slot zero_thread zero_thread f.inside);
    }

-- A join of a thread that has ended, by another one, returns success and the thread's return value
-- and runs no thread; afterwards the identifier is not found, the slot is empty and the runtime is
-- well formed.
pub thread_join-ended :
    (others : ℕ → RuntimeState → Option RuntimeState) (fuel tid slot : ℕ) (s : RuntimeState)
    → IsWellFormed s
    → s.initialized ≡ true
    → tid ≢ s.current_tid
    → find_thread s tid ≡ some slot
    → is_terminal (thread_at s slot).state ≡ true
    → let (s', flow, value) = thread_join others fuel tid s in
      (flow ≡ returned ok) × (value ≡ some (thread_at s slot).retval) × Joined s tid slot s'
unfolding thread_join join_in join_release
thread_join-ended others fuel tid slot s v on ne e ended =
    let f = find_thread-some s tid slot e in
    let p : (tid == 0) ≡ false =
      ground (arith, f.same_tid, (v.table.fresh slot f.inside f.in_use).0) in
    let q : (tid == s.current_tid) ≡ false = ground arith in
    simp (on, p, q, e, ended) (refl, refl, release_slot-Joined s tid slot v e)
