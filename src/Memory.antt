-- ===== src/Memory.antt =====
-- src/context/stack.c: the release of stacks. The memory that the process has mapped is the list of
-- its regions, each an address and a size.
use gthreads.Base.{ℕ, List, [], ◌∷◌, ◌&&◌, ◌||◌, ◌==◌, if◌then◌else◌}
use gthreads.State.{StackAllocation, World}

-- The stack that `gth_stack_clear` leaves.
abbrev pub no_stack : StackAllocation
no_stack = record { memory = 0; total_size = 0; stack_size = 0; stack_top = 0; guard_page = 0 }

-- `munmap` of a whole region.
unfoldable pub unmap : ℕ → ℕ → List (ℕ × ℕ) → List (ℕ × ℕ)
unmap memory size [] = []
unmap memory size ((a, n) ∷ regions) =
    let rest = unmap memory size regions in
    if (a == memory) && (n == size) then regions else (a, n) ∷ rest

-- `gth_stack_free`: what it leaves of the world, and the cleared stack.
unfoldable pub stack_free : StackAllocation → World → World × StackAllocation
unfolding unmap
stack_free stack w =
    if (stack.memory == 0) || (stack.total_size == 0)
    then (w, no_stack)
    else (record w { regions = unmap stack.memory stack.total_size w.regions }, no_stack)
