-- ===== src/Thread/Leaks.antt =====
-- src/thread/thread.c: what `gth_thread_release_slot` does to the memory that is mapped.
use gthreads.Base.{ℕ, ◌<◌, ◌≡◌, refl, sym, ap, ◌∙◌, true, arith, length, set}
use gthreads.State.{StackAllocation, World, RuntimeState}
use gthreads.Memory.{stack_free}
use gthreads.Runtime.{zero_thread, thread_at}
use gthreads.Thread.Account.{leave_state, release_slot}
use gthreads.Thread.Owned.{owns, mapped, owners, owners-set, mapped-stack_free, set-clear, IsOwned}

-- What a release does to the table and to the memory.
release-table :
    (s : RuntimeState) (slot : ℕ)
    → ((release_slot slot s).threads ≡ set s.threads slot zero_thread)
      × ((release_slot slot s).world ≡ (stack_free (thread_at s slot).stack s.world).0)
unfolding release_slot leave_state
release-table s slot = ground arith

mmap-stack_free : (stack : StackAllocation) (w : World) → (stack_free stack w).0.mmap ≡ w.mmap
unfolding stack_free
mmap-stack_free stack w = ground arith

pub release_slot-IsOwned :
    (s : RuntimeState) (slot : ℕ)
    → IsOwned s
    → slot < length s.threads
    → IsOwned (release_slot slot s)
release_slot-IsOwned s slot v h = record {
  clear = set-clear s (release_slot slot s) slot zero_thread v h r.0 (λ z. refl);
  balance = λ a n.
      ap (λ (w : World). mapped a n w.regions) r.1
      ∙ mapped-stack_free a n stack s.world (λ e. positive e)
      ∙ omega (arith, owners-set a n s.threads slot zero_thread h, v.balance a n)
      ∙ ap (owners a n) (sym r.0);
  nonzero = λ i z. v.nonzero i (
      sym (ap (λ f. f i) (mmap-stack_free stack s.world))
      ∙ ap (λ (w : World). w.mmap i) (sym r.1)
      ∙ z);
}
  where
    stack : StackAllocation
    stack = (thread_at s slot).stack

    r :
        ((release_slot slot s).threads ≡ set s.threads slot zero_thread)
        × ((release_slot slot s).world ≡ (stack_free (thread_at s slot).stack s.world).0)
    r = release-table s slot

    positive :
        owns stack.memory stack.total_size stack ≡ true
        → 0 < mapped stack.memory stack.total_size s.world.regions
    positive e = ground (
      arith,
      owners-set stack.memory stack.total_size s.threads slot zero_thread h,
      v.balance stack.memory stack.total_size,
      e,
    )
