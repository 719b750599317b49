-- ===== src/Core/Backoff.antt =====
-- crates/anyclaw-core/src/backoff.rs: `ExponentialBackoff`. A `Duration` is its number of
-- nanoseconds; `none` is the panic of `Duration * 2`; a `u32` counter wraps around.
pub mod Delays
use protoclaw.Base.{ℕ, ◌+◌, ◌*◌, ◌%◌, ◌^◌, min, Option, some, none, if◌then◌else◌, leb}

-- `Duration::MAX`: 2^64 - 1 seconds and 999,999,999 nanoseconds.
abbrev pub duration_max : ℕ
duration_max = 18446744073709551615999999999

abbrev pub u32 : ℕ → ℕ
u32 n = n % 4294967296

-- crates/anyclaw-core/src/constants.rs
abbrev pub default_backoff_base_ms : ℕ
default_backoff_base_ms = 100

abbrev pub default_backoff_max_secs : ℕ
default_backoff_max_secs = 30

abbrev pub from_millis : ℕ → ℕ
from_millis ms = ms * 1000000

abbrev pub from_secs : ℕ → ℕ
from_secs s = s * 1000000000

pub record ExponentialBackoff : Type 0 where
  pub current : ℕ
  pub max : ℕ
  pub base : ℕ
  pub attempts : ℕ

unfoldable pub new : ℕ → ℕ → ExponentialBackoff
new base max = record { current = base; max = max; base = base; attempts = 0 }

unfoldable pub default : ExponentialBackoff
unfolding new
default = new (from_millis default_backoff_base_ms) (from_secs default_backoff_max_secs)

-- `self.current * 2`, which panics beyond `Duration::MAX`.
abbrev double : ℕ → Option ℕ
double d = if leb (d * 2) duration_max then some (d * 2) else none

infixl 5 ◌>>=◌
abbrev ◌>>=◌ : {A B : Type 0} → Option A → (A → Option B) → Option B
none >>= f = none
some a >>= f = f a

unfoldable pub next_delay : ExponentialBackoff → Option (ExponentialBackoff × ℕ)
next_delay b = do
  doubled ← double b.current
  some (record b { current = min doubled b.max; attempts = u32 (b.attempts + 1) }, b.current)

unfoldable pub reset : ExponentialBackoff → ExponentialBackoff
reset b = record b { current = b.base; attempts = 0 }
