-- ===== src/Context/Swap.antt =====
-- src/context/ctx_x86_64.S: `gth_ctx_swap` on the registers of the processor.
use gthreads.Base.{ℕ, if◌then◌else◌}
use gthreads.State.{Ctx}

-- The registers that `gth_ctx_swap` saves, and the state of the FPU as one number.
pub record Cpu : Type 0 where
  pub rbx : ℕ
  pub rbp : ℕ
  pub r12 : ℕ
  pub r13 : ℕ
  pub r14 : ℕ
  pub r15 : ℕ
  pub rsp : ℕ
  pub rip : ℕ
  pub fpu : ℕ

-- The first half of `gth_ctx_swap`: the registers go to `from`, with the address of label 1 (of
-- the final `ret`) as the place to resume.
unfoldable pub save : ℕ → Cpu → Ctx → Ctx
save label cpu from = record {
  rbx = cpu.rbx;
  rbp = cpu.rbp;
  r12 = cpu.r12;
  r13 = cpu.r13;
  r14 = cpu.r14;
  r15 = cpu.r15;
  rsp = cpu.rsp;
  rip = label;
  fxsave_area = from.fxsave_area;
  fxsave_buf = if from.fxsave_area then cpu.fpu else from.fxsave_buf;
}

-- The second half: the registers come from `to`, the FPU too if it has a place for it.
unfoldable pub restore : Cpu → Ctx → Cpu
restore cpu to = record {
  rbx = to.rbx;
  rbp = to.rbp;
  r12 = to.r12;
  r13 = to.r13;
  r14 = to.r14;
  r15 = to.r15;
  rsp = to.rsp;
  rip = to.rip;
  fpu = if to.fxsave_area then to.fxsave_buf else cpu.fpu;
}

-- `gth_ctx_swap(from, to)` at two distinct contexts: what is left in `from`, and the processor.
unfoldable pub swap : ℕ → Cpu → Ctx → Ctx → Ctx × Cpu
unfolding save restore
swap label cpu from to = (save label cpu from, restore cpu to)
