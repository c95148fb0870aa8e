-- ===== src/Replay/Stats.antt =====
-- src/trace/replay.c: what a user may ask about a replay.
use gthreads.Base.{ℕ, Bool, true, false, Option, none, some, if◌then◌else◌}
use gthreads.State.{Status, ok, einval, estate, ReplayState, RuntimeState}

-- `gth_replay_has_diverged`.
unfoldable pub replay_has_diverged : Option ReplayState → Bool
replay_has_diverged none = false
replay_has_diverged (some r) = r.diverged

-- `gth_replay_stats_t`.
pub record ReplayStats : Type 0 where
  pub event_count : ℕ
  pub current_idx : ℕ
  pub diverged : Bool

unfoldable pub stats_of : Option ReplayState → Status × Option ReplayStats
stats_of none = (estate, none)
stats_of (some r) = (
  ok,
  some (record { event_count = r.event_count; current_idx = r.current_idx; diverged = r.diverged }),
)

-- `gth_replay_get_stats`; the flag says whether `out_stats` is non-NULL.
unfoldable pub replay_get_stats : Bool → RuntimeState → Status × Option ReplayStats
unfolding stats_of
replay_get_stats false s = (einval, none)
replay_get_stats true s = if s.initialized then stats_of s.replay else (estate, none)
