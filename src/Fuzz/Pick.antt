-- ===== src/Fuzz/Pick.antt =====
-- src/trace/fuzz.c: the perturbed choice of a thread. The first number of each function bounds the
-- rounds of the rejection loop; `none` says that they were not enough.
use gthreads.Base.{ℕ, ◌+◌, List, [], ◌∷◌, not, Option, none, some, ◌==◌, leb, if◌then◌else◌}
use gthreads.State.{Thread, FuzzState}
use gthreads.Runtime.{is_ready}
use gthreads.Fuzz.{random_range, should_perturb}

-- `gth_fuzz_count_ready_threads`.
unfoldable pub count_ready : List Thread → ℕ
count_ready [] = 0
count_ready (t ∷ ts) = let rest = count_ready ts in if is_ready t.state then 1 + rest else rest

-- The loop of `gth_fuzz_pick_alternative` over the slots from `i` on: the ready thread that has
-- `target - current` ready ones other than `exclude` before it.
unfoldable pub pick_from : List Thread → ℕ → ℕ → ℕ → ℕ → Option ℕ
pick_from [] i exclude target current = none
pick_from (t ∷ ts) i exclude target current =
    let next = pick_from ts (i + 1) exclude target current in
    let later = pick_from ts (i + 1) exclude target (current + 1) in
    if not (is_ready t.state)
    then next
    else if i == exclude
    then next
    else if current == target
    then some i
    else later

unfoldable pub pick_drawn : List Thread → ℕ → Option (FuzzState × ℕ) → Option (FuzzState × ℕ)
unfolding pick_from
pick_drawn ts exclude none = none
pick_drawn ts exclude (some (fuzz, target)) =
    some (fuzz, elim (pick_from ts 0 exclude target 0) [ none ↦ exclude | some slot ↦ slot ])

-- `gth_fuzz_pick_alternative`.
unfoldable pub pick_alternative : ℕ → List Thread → FuzzState → ℕ → Option (FuzzState × ℕ)
unfolding count_ready random_range pick_drawn
pick_alternative fuel ts fuzz exclude =
    if leb (count_ready ts) 1
    then some (fuzz, exclude)
    else pick_drawn ts exclude (random_range fuel fuzz (count_ready ts))

-- `gth_fuzz_pick_thread` behind its NULL checks.
unfoldable pub fuzz_pick_open : ℕ → List Thread → FuzzState → ℕ → Option (FuzzState × ℕ)
unfolding should_perturb pick_alternative
fuzz_pick_open fuel ts fuzz normal_choice =
    let (fuzz', perturb) = should_perturb fuzz in
    if perturb then pick_alternative fuel ts fuzz' normal_choice else some (fuzz', normal_choice)
