-- ===== src/Thread/Released.antt =====
-- src/thread/thread.c: the release of a slot and a cancellation keep the invariant.
use gthreads.Base.{
  ℕ, ◌≡◌, ◌≢◌, refl, sym, ap, ◌∙◌, subst, arith, Option, some, none, inl, inr, if-cases, not,
  ℕ_discrete, ◌==◌, get_or, set, get_or-set_self, get_or-set_ne,
}
use gthreads.State.{Status, ok, RuntimeState}
use gthreads.Runtime.{zero_thread, thread_at, is_empty, is_ready, is_blocked, find_thread}
use gthreads.Runtime.Find.{Found, find_thread-some}
use gthreads.Runtime.WellFormed.{IsWellFormed}
use gthreads.Thread.{thread_cancel, cancel_in}
use gthreads.Thread.Account.{release_slot, leave_state}
use gthreads.Thread.Cancel.{CancelOutcome, canceled_thread, rest-cancel_in}
use gthreads.Thread.Join.{release_slot-IsWellFormed}
use gthreads.Thread.Live.{Current, IsLive, Current-at, Current-kept}

release_slot-kept :
    (s : RuntimeState) (slot : ℕ)
    → ((release_slot slot s).threads ≡ set s.threads slot zero_thread)
      × ((release_slot slot s).current_tid ≡ s.current_tid)
unfolding release_slot leave_state
release_slot-kept s slot = ground arith

-- A slot of another thread than the current one is released.
pub release_slot-IsLive :
    (s : RuntimeState) (tid slot : ℕ)
    → IsLive s
    → find_thread s tid ≡ some slot
    → tid ≢ s.current_tid
    → IsLive (release_slot slot s)
release_slot-IsLive s tid slot v e ne = record {
  well_formed = w;
  current = elim v.current [
    | inl idle ↦ inl ((release_slot-kept s slot).1 ∙ idle)
    | inr c ↦ inr (
        Current-kept s (release_slot slot s) v.well_formed w c (release_slot-kept s slot).1 (
          ap (λ ts. get_or ts c.slot zero_thread) (release_slot-kept s slot).0
          ∙ get_or-set_ne s.threads slot c.slot zero_thread zero_thread (apart c)))
  ];
}
  where
    f : Found tid s.threads slot
    f = find_thread-some s tid slot e

    w : IsWellFormed (release_slot slot s)
    w =
        release_slot-IsWellFormed s slot v.well_formed
          (omega (arith, f.inside, v.well_formed.counted.slots))

    apart : (c : Current s) → slot ≢ c.slot
    apart c q =
        let g = find_thread-some s s.current_tid c.slot c.found in
        ne (sym f.same_tid ∙ ap (λ x. (thread_at s x).tid) q ∙ g.same_tid)

cancel_in-current :
    (tid : ℕ) (o : Option ℕ) (s : RuntimeState) → (cancel_in tid o s).0.current_tid ≡ s.current_tid
unfolding cancel_in
cancel_in-current tid none s = refl
cancel_in-current tid (some slot) s = (rest-cancel_in tid slot s).2

pub thread_cancel-current :
    (s : RuntimeState) (tid : ℕ) → (thread_cancel tid s).0.current_tid ≡ s.current_tid
unfolding thread_cancel
thread_cancel-current s tid =
    let P : RuntimeState × Status → Type 0 = λ r. r.0.current_tid ≡ s.current_tid in
    if-cases P (not s.initialized) (λ off. refl)
      (λ on. if-cases P (tid == 0) (λ h. refl) (λ h. cancel_in-current tid (find_thread s tid) s))

pub cancel-IsLive :
    (s : RuntimeState) (tid : ℕ) (r : RuntimeState × Status)
    → IsLive s
    → CancelOutcome s tid r
    → r.0.current_tid ≡ s.current_tid
    → IsLive r.0
cancel-IsLive s tid (s', ok) v d e = record {
  well_formed = d.well_formed;
  current = elim v.current [ inl idle ↦ inl (e ∙ idle) | inr c ↦ inr (canceled_current c) ];
}
  where
    at_other : (c : Current s) → d.slot ≢ c.slot → Current s'
    at_other c ne = Current-kept s s' v.well_formed d.well_formed c e (
        ap (λ ts. get_or ts c.slot zero_thread) d.marked
        ∙ get_or-set_ne s.threads d.slot c.slot (canceled_thread (thread_at s d.slot)) zero_thread
            ne)

    f : Found tid s.threads d.slot
    f = find_thread-some s tid d.slot d.found

    at : thread_at s' d.slot ≡ canceled_thread (thread_at s d.slot)
    at =
        ap (λ ts. get_or ts d.slot zero_thread) d.marked
        ∙ get_or-set_self s.threads d.slot (canceled_thread (thread_at s d.slot)) zero_thread
            f.inside

    at_self : (c : Current s) → d.slot ≡ c.slot → Current s'
    at_self c q =
        let g = find_thread-some s s.current_tid c.slot c.found in
        Current-at s' d.slot d.well_formed (omega (arith, f.inside, v.well_formed.counted.slots))
          (ap (λ t. is_empty t.state) at)
          (ap (λ t. t.tid) at ∙ ap (λ x. (thread_at s x).tid) q ∙ g.same_tid ∙ sym e)
          (record {
            not_ready = ap (λ t. is_ready t.state) at;
            not_blocked = ap (λ t. is_blocked t.state) at;
          })

    canceled_current : (c : Current s) → Current s'
    canceled_current c = elim (ℕ_discrete d.slot c.slot) [
      | yes q ↦ at_self c q
      | no ne ↦ at_other c ne
    ]
cancel-IsLive s tid (s', failed) v d e = subst IsLive (sym d) v
