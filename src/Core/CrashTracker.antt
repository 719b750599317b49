-- ===== src/Core/CrashTracker.antt =====
-- crates/anyclaw-core/src/backoff.rs: `CrashTracker`. An `Instant` is its distance from the
-- clock's origin in nanoseconds, so that `duration_since` is subtraction stopping at 0, as the
-- standard library saturates it; the current instant is an argument of each call.
pub mod History
use protoclaw.Base.{
  ℕ, ◌+◌, ◌-◌, Bool, true, List, [], ◌∷◌, ◌++◌, if◌then◌else◌, ltb, leb, retain, count_where,
}
use protoclaw.Core.Backoff.{u32, from_secs}

-- crates/anyclaw-core/src/constants.rs
abbrev pub default_crash_max : ℕ
default_crash_max = 5

abbrev pub default_crash_window_secs : ℕ
default_crash_window_secs = 60

abbrev pub default_crash_long_max : ℕ
default_crash_long_max = 10

abbrev pub default_crash_long_window_secs : ℕ
default_crash_long_window_secs = 3600

pub record CrashTracker : Type 0 where
  pub timestamps : List ℕ
  pub max_crashes : ℕ
  pub window : ℕ
  pub long_max_crashes : ℕ
  pub long_window : ℕ
  pub total_crashes : ℕ

unfoldable pub new : ℕ → ℕ → CrashTracker
new max_crashes window = record {
  timestamps = [];
  max_crashes = max_crashes;
  window = window;
  long_max_crashes = default_crash_long_max;
  long_window = from_secs default_crash_long_window_secs;
  total_crashes = 0;
}

unfoldable pub default : CrashTracker
unfolding new
default = new default_crash_max (from_secs default_crash_window_secs)

unfoldable pub with_long_horizon : ℕ → ℕ → CrashTracker → CrashTracker
with_long_horizon max_crashes window c = record c {
  long_max_crashes = max_crashes;
  long_window = window;
}

-- `now.duration_since(t) < window`.
abbrev pub within : ℕ → ℕ → ℕ → Bool
within window now t = ltb (now - t) window

unfoldable pub record_crash : ℕ → CrashTracker → CrashTracker
record_crash now c = record c {
  timestamps = retain (within c.long_window now) c.timestamps ++ now ∷ [];
  total_crashes = u32 (c.total_crashes + 1);
}

unfoldable pub is_crash_loop : ℕ → CrashTracker → Bool
is_crash_loop now c =
    let short_recent = count_where (within c.window now) c.timestamps in
    let long_recent = count_where (within c.long_window now) c.timestamps in
    if leb c.max_crashes short_recent then true else leb c.long_max_crashes long_recent

unfoldable pub reset : CrashTracker → CrashTracker
reset c = record c { timestamps = []; total_crashes = 0 }
