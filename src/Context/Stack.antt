-- ===== src/Context/Stack.antt =====
-- src/context/stack.c, src/context/context.c: the stack of a new thread and the context on it.
use mathlib.Core.Path.{subst₂}
use gthreads.Base.{
  ℕ, ◌+◌, ◌-◌, ◌*◌, ◌<◌, ◌≤◌, ◌≡◌, refl, true, false, arith, Option, some, none, Bool, ◌⊎◌, not,
  ◌||◌, ◌==◌, ltb, if-cases, u64,
}
use gthreads.State.{Status, ok, einval, enomem, einternal, StackAllocation, World}
use gthreads.Runtime.{no_stack}
use gthreads.Context.{
  max_stack_size, page_size, is_power_of_two, align_up, map_stack, stack_allocate,
}
use gthreads.Context.Mask.{
  pow2, positive-pow2, pow2-le, Floor, is_power_of_two-pow2, align_up-Floor,
}

-- A mapped stack of at least `size` bytes, whole pages, behind a guard page at its low end.
pub record Mapped (size page : ℕ) (stack : StackAllocation) : Type 0 where
  pub least : 16384 ≤ size
  pub most : size ≤ max_stack_size
  pub enough : size ≤ stack.stack_size
  pub close : stack.stack_size < size + page
  pub pages : ℕ
  pub whole : stack.stack_size ≡ pages * page
  pub total : stack.total_size ≡ stack.stack_size + page
  pub guard : stack.guard_page ≡ stack.memory
  pub top : stack.stack_top ≡ u64 (stack.memory + stack.total_size)

-- The outcome by the status, for the answers of `mmap` and of `mprotect`.
abbrev pub Allocated : ℕ → ℕ → Option ℕ → Bool → World × StackAllocation × Status → Type 0
Allocated size page memory guarded (w, stack, ok) =
    (memory ≡ some stack.memory) × (guarded ≡ true) × Mapped size page stack
Allocated size page memory guarded (w, stack, einval) =
    ((size < 16384) ⊎ (max_stack_size < size)) × (stack ≡ no_stack)
Allocated size page memory guarded (w, stack, enomem) = (memory ≡ none) × (stack ≡ no_stack)
Allocated size page memory guarded (w, stack, einternal) = (guarded ≡ false) × (stack ≡ no_stack)
Allocated size page memory guarded (w, stack, _) = ⊥

map_stack-Allocated :
    (size page aligned : ℕ) (memory : Option ℕ) (w : World)
    → 16384 ≤ size
    → size ≤ max_stack_size
    → Floor page (size + page - 1) aligned
    → 0 < page
    → Allocated size page memory (w.mprotect (w.calls + 1)) (map_stack aligned page memory w)
unfolding map_stack
map_stack-Allocated size page aligned none w lo hi f positive = (refl, refl)
map_stack-Allocated size page aligned (some memory) w lo hi f positive =
    if-cases (Allocated size page (some memory) (w.mprotect (w.calls + 1)))
      (w.mprotect (w.calls + 1)) (λ guarded. (refl, guarded, mapped)) (λ refused. (refused, refl))
  where
    mapped : Mapped size page (record {
      memory = memory;
      total_size = aligned + page;
      stack_size = aligned;
      stack_top = u64 (memory + (aligned + page));
      guard_page = memory;
    })
    mapped = record {
      least = lo;
      most = hi;
      enough = omega (arith, f.close);
      close = omega (arith, f.below);
      pages = f.quotient;
      whole = f.multiple;
      total = refl;
      guard = refl;
      top = refl;
    }

page_size-answers :
    (w : World)
    → let w' = (page_size w).0 in
      (w'.mmap w'.calls ≡ w.mmap w.calls) × (w'.mprotect (w'.calls + 1) ≡ w.mprotect (w.calls + 1))
unfolding page_size
page_size-answers w =
    let P : World × ℕ → Type 0 = λ r.
      (r.0.mmap r.0.calls ≡ w.mmap w.calls)
      × (r.0.mprotect (r.0.calls + 1) ≡ w.mprotect (w.calls + 1)) in
    if-cases P (w.cached_page_size == 0) (λ h. (refl, refl)) (λ h. (refl, refl))

-- `gth_stack_allocate` with a page size that is a power of two below 2 ^ 32. It fails with EINVAL
-- only for a size out of its limits, with ENOMEM only when `mmap` fails and with EINTERNAL only when
-- `mprotect` does, and gives no stack then; otherwise it succeeds with the mapped memory as a stack
-- of at least the size asked for and less than a page more, in whole pages behind a guard page.
pub stack_allocate-Allocated :
    (k size : ℕ) (w : World)
    → k < 32
    → (page_size w).1 ≡ pow2 k
    → Allocated size (pow2 k) (w.mmap w.calls) (w.mprotect (w.calls + 1)) (stack_allocate size w)
unfolding stack_allocate
stack_allocate-Allocated k size w small e =
    let p = pow2 k in
    let w' = (page_size w).0 in
    let positive = positive-pow2 k in
    let few = pow2-le k small in
    let answers = page_size-answers w in
    let P = Allocated size p (w.mmap w.calls) (w.mprotect (w.calls + 1)) in
    let power = is_power_of_two-pow2 k in
    rw e (
      if-cases P ((p == 0) || not (is_power_of_two p))
        (λ h. absurd (ground (arith, h, power, positive)))
        (λ h.
          if-cases P (ltb size 16384 || ltb max_stack_size size) (λ h. (out_of_limits h, refl))
            (λ range.
              let lo : 16384 ≤ size = ground (arith, range) in
              let hi : size ≤ max_stack_size = ground (arith, range) in
              let f = align_up-Floor size k small (omega (arith, hi, few)) in
              if-cases P (ltb (align_up size p) size) (λ h. absurd (ground (arith, h, f.close)))
                (λ h.
                  if-cases P (ltb (u64 (align_up size p + p)) (align_up size p))
                    (λ h. absurd (ground (arith, h, f.below, hi, few)))
                    (λ h.
                      subst₂
                        (λ m g.
                          Allocated size p m g
                            (map_stack (align_up size p) p (w'.mmap w'.calls) w'))
                        answers.0 answers.1
                        (map_stack-Allocated size p (align_up size p) (w'.mmap w'.calls) w' lo hi f
                          positive))))))
  where
    out_of_limits :
        (ltb size 16384 || ltb max_stack_size size) ≡ true
        → (size < 16384) ⊎ (max_stack_size < size)
    out_of_limits h = ground (arith, h)
