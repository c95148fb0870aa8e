-- ===== src/Thread/Owned.antt =====
-- src/context/stack.c, src/thread/thread.c: regions of memory and the stacks of threads, and `gth_stack_free`.
use gthreads.Base.{
  ℕ, zero, suc, ◌+◌, ◌-◌, ◌<◌, ◌≡◌, ◌≢◌, refl, sym, ap, ◌∙◌, subst, List, [], ◌∷◌, Bool, true,
  false, arith, some, not, ◌&&◌, ◌||◌, ◌==◌, if◌then◌else◌, length, get_or, set, get_or-set_self,
  get_or-set_ne, ℕ_discrete,
}
use gthreads.State.{StackAllocation, Thread, World, RuntimeState}
use gthreads.Memory.{no_stack, unmap, stack_free}
use gthreads.Runtime.{zero_thread, thread_at, free_stacks, is_empty}
use gthreads.Runtime.Count.{one_if}
use gthreads.Trace.{trace_record}
use gthreads.Trace.Format.{EventType}
use gthreads.Trace.Ticks.{trace_record-keeps}

-- Whether a stack is the region of `n` bytes at `a`, in the sense of `gth_stack_free`.
abbrev pub owns : ℕ → ℕ → StackAllocation → Bool
owns a n stack =
    not ((stack.memory == 0) || (stack.total_size == 0))
    && ((stack.memory == a) && (stack.total_size == n))

-- How many threads own a region, and how often it is mapped.
abbrev pub owners : ℕ → ℕ → List Thread → ℕ
owners a n [] = 0
owners a n (t ∷ ts) = one_if (owns a n t.stack) + owners a n ts

abbrev pub mapped : ℕ → ℕ → List (ℕ × ℕ) → ℕ
mapped a n [] = 0
mapped a n ((b, m) ∷ regions) = one_if ((b == a) && (m == n)) + mapped a n regions

-- An empty slot has no stack, a region is mapped as often as it is a stack, and `mmap` does not map the address 0.
pub record IsOwned (s : RuntimeState) : Type 0 where
  pub clear : (i : ℕ) → is_empty (thread_at s i).state ≡ true → (thread_at s i).stack ≡ no_stack
  pub balance : (a n : ℕ) → mapped a n s.world.regions ≡ owners a n s.threads
  pub nonzero : (i : ℕ) → s.world.mmap i ≢ some 0

pub owners-set :
    (a n : ℕ) (ts : List Thread) (i : ℕ) (t : Thread)
    → i < length ts
    → owners a n (set ts i t) + one_if (owns a n (get_or ts i zero_thread).stack)
      ≡ owners a n ts + one_if (owns a n t.stack)
owners-set a n [] i t h = absurd (omega arith)
owners-set a n (x ∷ ts) zero t h = omega arith
owners-set a n (x ∷ ts) (suc i) t h = omega (arith, owners-set a n ts i t (omega arith))

pub owners-set_same :
    (a n : ℕ) (ts : List Thread) (i : ℕ) (t : Thread)
    → t.stack ≡ (get_or ts i zero_thread).stack
    → owners a n (set ts i t) ≡ owners a n ts
owners-set_same a n [] i t e = refl
owners-set_same a n (x ∷ ts) zero t e = ap (λ k. one_if (owns a n k) + owners a n ts) e
owners-set_same a n (x ∷ ts) (suc i) t e =
    ap (λ k. one_if (owns a n x.stack) + k) (owners-set_same a n ts i t e)

-- One region less, if the stack's is mapped at all.
mapped-unmap :
    (a n memory size : ℕ) (regions : List (ℕ × ℕ))
    → mapped a n (unmap memory size regions)
      ≡ mapped a n regions
        - (if (memory == a) && (size == n)
            then one_if (not (mapped memory size regions == 0))
            else 0)
unfolding unmap
mapped-unmap a n memory size [] = ground arith
mapped-unmap a n memory size ((b, m) ∷ regions) =
    ground (arith, mapped-unmap a n memory size regions)

-- A stack that is mapped, as often as it is owned, is unmapped once.
pub mapped-stack_free :
    (a n : ℕ) (stack : StackAllocation) (w : World)
    → (owns stack.memory stack.total_size stack ≡ true
        → 0 < mapped stack.memory stack.total_size w.regions)
    → mapped a n (stack_free stack w).0.regions ≡ mapped a n w.regions - one_if (owns a n stack)
unfolding stack_free
mapped-stack_free a n stack w h =
    ground (arith, mapped-unmap a n stack.memory stack.total_size w.regions)

owners-cons :
    (t : Thread) (ts : List Thread) (w : World)
    → mapped t.stack.memory t.stack.total_size w.regions
      ≡ owners t.stack.memory t.stack.total_size (t ∷ ts)
    → owns t.stack.memory t.stack.total_size t.stack ≡ true
    → 0 < mapped t.stack.memory t.stack.total_size w.regions
owners-cons t ts w e h = ground (arith, e, h)

-- The loop of `gth_runtime_shutdown` unmaps them all.
pub mapped-free_stacks :
    (ts : List Thread) (w : World)
    → ((a n : ℕ) → mapped a n w.regions ≡ owners a n ts)
    → (a n : ℕ) → mapped a n (free_stacks ts w).regions ≡ 0
unfolding free_stacks
mapped-free_stacks [] w h a n = h a n
mapped-free_stacks (t ∷ ts) w h a n =
    let m = t.stack.memory in
    let k = t.stack.total_size in
    mapped-free_stacks ts (stack_free t.stack w).0
      (λ b j. omega (arith, mapped-stack_free b j t.stack w (owners-cons t ts w (h m k)), h b j)) a
      n

pub nothing_mapped : (regions : List (ℕ × ℕ)) → ((a n : ℕ) → mapped a n regions ≡ 0) → regions ≡ []
nothing_mapped [] h = refl
nothing_mapped ((a, n) ∷ regions) h = absurd (ground (arith, h a n))

-- The memory that is mapped, and the answers of `mmap`, are as before.
pub record SameMap (w w' : World) : Type 0 where
  pub regions : w'.regions ≡ w.regions
  pub mmap : w'.mmap ≡ w.mmap

pub traced-SameMap :
    (type : EventType) (tid data1 data2 : ℕ) (s : RuntimeState)
    → SameMap s.world (trace_record type tid data1 data2 s).world
traced-SameMap type tid data1 data2 s =
    trace_record-keeps (SameMap s.world) (λ w e. record { regions = e.regions; mmap = e.mmap }) type
      tid data1 data2 s (record { regions = refl; mmap = refl })

-- After a write, empty slots have no stack if this holds of the written record.
pub set-clear :
    (s s' : RuntimeState) (slot : ℕ) (t : Thread)
    → IsOwned s
    → slot < length s.threads
    → s'.threads ≡ set s.threads slot t
    → (is_empty t.state ≡ true → t.stack ≡ no_stack)
    → (i : ℕ) → is_empty (thread_at s' i).state ≡ true
    → (thread_at s' i).stack ≡ no_stack
set-clear s s' slot t v h w c i z = elim (ℕ_discrete slot i) [
  | yes q ↦
      let at =
        ap (λ ts. get_or ts i zero_thread) w
        ∙ subst (λ j. get_or (set s.threads slot t) j zero_thread ≡ t) q
            (get_or-set_self s.threads slot t zero_thread h) in
      ap (λ (x : Thread). x.stack) at ∙ c (ap (λ (x : Thread). is_empty x.state) (sym at) ∙ z)
  | no ne ↦
      let at =
        ap (λ ts. get_or ts i zero_thread) w ∙ get_or-set_ne s.threads slot i t zero_thread ne in
      ap (λ (x : Thread). x.stack) at
      ∙ v.clear i (ap (λ (x : Thread). is_empty x.state) (sym at) ∙ z)
]

-- A write of a record in use that keeps its stack.
pub kept-IsOwned :
    (s s' : RuntimeState) (slot : ℕ) (t : Thread)
    → IsOwned s
    → slot < length s.threads
    → s'.threads ≡ set s.threads slot t
    → t.stack ≡ (thread_at s slot).stack
    → is_empty t.state ≡ false
    → SameMap s.world s'.world
    → IsOwned s'
kept-IsOwned s s' slot t v h w e used same = record {
  clear = set-clear s s' slot t v h w (λ z. cc);
  balance = λ a n.
      ap (mapped a n) same.regions
      ∙ v.balance a n
      ∙ sym (owners-set_same a n s.threads slot t e)
      ∙ ap (owners a n) (sym w);
  nonzero = λ i z. v.nonzero i (ap (λ f. f i) (sym same.mmap) ∙ z);
}

pub same-IsOwned :
    (s s' : RuntimeState)
    → IsOwned s
    → s'.threads ≡ s.threads
    → SameMap s.world s'.world
    → IsOwned s'
same-IsOwned s s' v w same = record {
  clear = λ i z.
      let at = ap (λ ts. get_or ts i zero_thread) w in
      ap (λ (x : Thread). x.stack) at
      ∙ v.clear i (ap (λ (x : Thread). is_empty x.state) (sym at) ∙ z);
  balance = λ a n. ap (mapped a n) same.regions ∙ v.balance a n ∙ ap (owners a n) (sym w);
  nonzero = λ i z. v.nonzero i (ap (λ f. f i) (sym same.mmap) ∙ z);
}
