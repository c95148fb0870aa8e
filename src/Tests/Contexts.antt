-- ===== src/Tests/Contexts.antt =====
-- The theorems on stacks and contexts at concrete sizes and addresses.
use gthreads.Base.{◌≡◌, refl, arith, some, true}
use gthreads.State.{StackAllocation}
use gthreads.Runtime.{no_ctx}
use gthreads.Context.{page_size, stack_allocate, context_init_thread}
use gthreads.Context.Swap.{Cpu, swap}
use gthreads.Context.Stack.{Mapped, Allocated, stack_allocate-Allocated}
use gthreads.Context.Starts.{Starts, swap-Starts}
use gthreads.Tests.Data.{machine}

machine_page : (page_size machine).1 ≡ 4096
unfolding page_size
machine_page = refl

-- 20000 bytes need five pages of 4096.
stack_allocate-Allocated_example :
    Allocated 20000 4096 (some 1048576) true (stack_allocate 20000 machine)
stack_allocate-Allocated_example =
    stack_allocate-Allocated 12 20000 machine (omega arith) machine_page

abbrev five_pages : StackAllocation
five_pages = record {
  memory = 1048576;
  total_size = 24576;
  stack_size = 20480;
  stack_top = 1073152;
  guard_page = 1048576;
}

five_pages-Mapped : Mapped 20000 4096 five_pages
five_pages-Mapped = record {
  least = omega arith;
  most = omega arith;
  enough = omega arith;
  close = omega arith;
  pages = 5;
  whole = refl;
  total = refl;
  guard = refl;
  top = refl;
}

-- The processor while the scheduler runs.
abbrev busy_cpu : Cpu
busy_cpu = record {
  rbx = 1;
  rbp = 2;
  r12 = 3;
  r13 = 4;
  r14 = 5;
  r15 = 6;
  rsp = 7;
  rip = 8;
  fpu = 9;
}

swap-Starts_example :
    let (made, w') = context_init_thread no_ctx five_pages 3 machine in
    Starts 4096 3 five_pages machine w' (swap 100 busy_cpu no_ctx made).1
swap-Starts_example =
    swap-Starts 20000 4096 3 100 five_pages no_ctx no_ctx busy_cpu machine five_pages-Mapped
      (omega arith)
