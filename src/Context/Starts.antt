-- ===== src/Context/Starts.antt =====
-- src/context/context.c, src/context/ctx_x86_64.S: the first switch to a new thread.
use gthreads.Base.{ℕ, ◌+◌, ◌-◌, ◌<◌, ◌≤◌, ◌≡◌, refl, sym, ap, ◌∙◌, arith, u64}
use gthreads.State.{StackAllocation, Ctx, World}
use gthreads.Context.{store, ctx_make, context_init_thread}
use gthreads.Context.Stack.{Mapped}
use gthreads.Context.Swap.{Cpu, swap, restore}

-- The processor behind a switch to a new context.
pub record Starts (page slot : ℕ) (stack : StackAllocation) (w w' : World) (cpu : Cpu)
    : Type 0 where
  pub entry : cpu.rip ≡ w.ctx_trampoline
  pub above_guard : stack.guard_page + page ≤ cpu.rsp
  pub top : cpu.rsp + 16 ≡ stack.memory + stack.total_size
  pub trampoline : w'.words cpu.rsp ≡ w.thread_trampoline
  pub argument : w'.words (cpu.rsp + 8) ≡ slot

store_self : (words : ℕ → ℕ) (address value : ℕ) → store words address value address ≡ value
store_self words address value = ground arith

store_other :
    (words : ℕ → ℕ) (address value : ℕ) → store words (address + 8) value address ≡ words address
store_other words address value = ground arith

-- A thread on a mapped stack whose memory lies below 2 ^ 64: the first switch to its context goes
-- on at the context's trampoline, with the two words that it pops, the thread's trampoline and the slot, at the
-- stack pointer, 16 bytes below the top of the stack and above its guard page, whatever context the
-- switch comes from.
pub swap-Starts :
    (size page slot label : ℕ) (stack : StackAllocation) (ctx from : Ctx) (cpu : Cpu) (w : World)
    → Mapped size page stack
    → stack.memory + stack.total_size < 18446744073709551616
    → let (made, w') = context_init_thread ctx stack slot w in
      Starts page slot stack w w' (swap label cpu from made).1
unfolding context_init_thread ctx_make swap restore
swap-Starts size page slot label stack ctx from cpu w m fits = record {
  entry = refl;
  above_guard = omega (arith, sp, m.guard, m.total, m.enough, m.least);
  top = omega (arith, sp, m.total, m.enough, m.least);
  trampoline = top_word ∙ store_self w.words at w.thread_trampoline;
  argument =
      ap (λ x. store (store w.words at w.thread_trampoline) (u64 (at + 8)) slot x) (sym next)
      ∙ store_self (store w.words at w.thread_trampoline) (u64 (at + 8)) slot;
}
  where
    at : ℕ
    at = u64 (stack.stack_top + 18446744073709551616 - 16)

    sp : at + 16 ≡ stack.memory + stack.total_size
    sp = omega (arith, m.top, m.total, m.enough, m.least)

    next : u64 (at + 8) ≡ at + 8
    next = omega (arith, sp)

    top_word :
        store (store w.words at w.thread_trampoline) (u64 (at + 8)) slot at
        ≡ store w.words at w.thread_trampoline at
    top_word =
        ap (λ x. store (store w.words at w.thread_trampoline) x slot at) next
        ∙ store_other (store w.words at w.thread_trampoline) at slot
