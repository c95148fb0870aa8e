-- ===== src/Fuzz.antt =====
-- src/trace/fuzz.c: the generator, the decision to perturb, and the life of the fuzz state.
pub mod Pick
pub mod Range
pub mod Stats
use gthreads.Base.{
  ℕ, zero, suc, ◌+◌, ◌-◌, ◌*◌, ◌%◌, Bool, false, Option, none, some, ◌==◌, ltb, leb, if◌then◌else◌,
  bit_and, bit_or, bit_xor, u64, shl64, shr,
}
use gthreads.State.{Status, ok, einval, enomem, estate, FuzzState, RuntimeState}
use gthreads.Trace.Buffer.{tick}

abbrev xshift_plus : ℕ
xshift_plus = 0x9E3779B97F4A7C15

abbrev pub default_rate : ℕ
default_rate = 10

abbrev pub warmup_decisions : ℕ
warmup_decisions = 5

-- `gth_fuzz_seed`.
unfoldable pub seed_state : FuzzState → ℕ → FuzzState
seed_state fuzz seed =
    let z = u64 (seed + xshift_plus) in
    let s0 = u64 (bit_xor z (shr z 30) * 0xBF58476D1CE4E5B9) in
    record fuzz { state0 = bit_xor s0 (shr z 33); state1 = u64 (s0 + xshift_plus) }

-- `gth_fuzz_xorshift128plus`: the new state, and the value.
unfoldable pub xorshift : FuzzState → FuzzState × ℕ
xorshift fuzz =
    let s1 = bit_xor fuzz.state1 (shl64 fuzz.state1 23) in
    let new1 = bit_xor (bit_xor fuzz.state1 (shr fuzz.state1 26)) (bit_xor s1 (shr s1 17)) in
    (record fuzz { state0 = s1; state1 = new1 }, u64 (new1 + fuzz.state0))

unfoldable pub init_fuzz : Option FuzzState → ℕ → RuntimeState → RuntimeState × Status
unfolding seed_state
init_fuzz (some f) seed s = (s, estate)
init_fuzz none seed s =
    let fresh : FuzzState = record {
      state0 = 0;
      state1 = 0;
      seed = seed;
      decision_count = 0;
      perturbation_rate = default_rate;
    } in
    if s.world.malloc s.world.calls
    then (record s { fuzz = some (seed_state fresh seed); world = tick s.world }, ok)
    else (record s { world = tick s.world }, enomem)

-- `gth_fuzz_init`.
unfoldable pub fuzz_init : ℕ → RuntimeState → RuntimeState × Status
unfolding init_fuzz
fuzz_init seed s = if s.initialized then init_fuzz s.fuzz seed s else (s, estate)

-- `gth_fuzz_cleanup`.
unfoldable pub fuzz_cleanup : RuntimeState → RuntimeState
fuzz_cleanup s = record s { fuzz = none }

-- The smallest number of ones that covers `max - 1`, as the source spreads its bits.
unfoldable pub spread : ℕ → ℕ
spread max =
    let m0 = max - 1 in
    let m1 = bit_or m0 (shr m0 1) in
    let m2 = bit_or m1 (shr m1 2) in
    let m4 = bit_or m2 (shr m2 4) in
    let m8 = bit_or m4 (shr m4 8) in let m16 = bit_or m8 (shr m8 16) in bit_or m16 (shr m16 32)

-- The rejection loop of `gth_fuzz_random_range`; `none` when the fuel runs out.
unfoldable pub draw : ℕ → FuzzState → ℕ → ℕ → Option (FuzzState × ℕ)
unfolding xorshift
draw zero fuzz mask max = none
draw (suc fuel) fuzz mask max =
    let (fuzz', value) = xorshift fuzz in
    let result = bit_and value mask in
    let again = draw fuel fuzz' mask max in if leb max result then again else some (fuzz', result)

-- `gth_fuzz_random_range`.
unfoldable pub random_range : ℕ → FuzzState → ℕ → Option (FuzzState × ℕ)
unfolding draw spread
random_range fuel fuzz max = if max == 0 then some (fuzz, 0) else draw fuel fuzz (spread max) max

-- `gth_fuzz_should_perturb` on the fuzz state.
unfoldable pub should_perturb : FuzzState → FuzzState × Bool
unfolding xorshift
should_perturb fuzz =
    let counted = record fuzz { decision_count = u64 (fuzz.decision_count + 1) } in
    let (fuzz', value) = xorshift counted in
    if leb counted.decision_count warmup_decisions
    then (counted, false)
    else (fuzz', ltb (value % 100) fuzz.perturbation_rate)

unfoldable pub set_rate_open : Option FuzzState → ℕ → RuntimeState → RuntimeState × Status
set_rate_open none rate s = (s, estate)
set_rate_open (some f) rate s =
    if ltb 100 rate
    then (s, einval)
    else (record s { fuzz = some (record f { perturbation_rate = rate }) }, ok)

-- `gth_fuzz_set_rate`.
unfoldable pub fuzz_set_rate : ℕ → RuntimeState → RuntimeState × Status
unfolding set_rate_open
fuzz_set_rate rate s = if s.initialized then set_rate_open s.fuzz rate s else (s, estate)
