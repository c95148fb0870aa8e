-- ===== src/Fuzz/Stats.antt =====
-- src/trace/fuzz.c: random numbers and statistics for the user.
use gthreads.Base.{ℕ, Bool, true, false, Option, none, some, if◌then◌else◌}
use gthreads.State.{Status, ok, einval, estate, FuzzState, RuntimeState}
use gthreads.Fuzz.{xorshift}

unfoldable pub random_open : Option FuzzState → RuntimeState → RuntimeState × ℕ
unfolding xorshift
random_open none s = (s, 0)
random_open (some f) s = let (f', value) = xorshift f in (record s { fuzz = some f' }, value)

-- `gth_fuzz_random`.
unfoldable pub fuzz_random : RuntimeState → RuntimeState × ℕ
unfolding random_open
fuzz_random s = random_open s.fuzz s

-- `gth_fuzz_stats_t`.
pub record FuzzStats : Type 0 where
  pub decision_count : ℕ
  pub perturbation_rate : ℕ

unfoldable pub fuzz_stats_of : Option FuzzState → Status × Option FuzzStats
fuzz_stats_of none = (estate, none)
fuzz_stats_of (some f) = (
  ok,
  some (record { decision_count = f.decision_count; perturbation_rate = f.perturbation_rate }),
)

-- `gth_fuzz_get_stats`; the flag says whether `out_stats` is non-NULL.
unfoldable pub fuzz_get_stats : Bool → RuntimeState → Status × Option FuzzStats
unfolding fuzz_stats_of
fuzz_get_stats false s = (einval, none)
fuzz_get_stats true s = if s.initialized then fuzz_stats_of s.fuzz else (estate, none)
