-- ===== src/Core/Backoff/Delays.antt =====
-- The sequence of delays that `next_delay` hands out.
use native.Mathlib.Nat.{pow-suc}
use protoclaw.Base.{ℕ, zero, suc, ◌*◌, ◌^◌, ◌≤◌, min, ◌≡◌, refl, ap, Option, some, none, arith}
use protoclaw.Core.Backoff.{ExponentialBackoff, duration_max, u32, new, next_delay, reset}

-- The state after `k` calls of `next_delay`.
unfoldable pub after_delays : ℕ → ExponentialBackoff → Option ExponentialBackoff
after_delays zero b = some b
after_delays (suc k) b = elim (after_delays k b) [
  | none ↦ none
  | some b' ↦ elim (next_delay b') [ none ↦ none | some (b'', d) ↦ some b'' ]
]

-- The delay of call number `k`: the base first, then doubled each time and capped.
abbrev pub delay_at : ℕ → ℕ → ℕ → ℕ
delay_at base max zero = base
delay_at base max (suc k) = min (base * 2 ^ suc k) max

abbrev pub state_at : ℕ → ℕ → ℕ → ExponentialBackoff
state_at base max k = record {
  current = delay_at base max k;
  max = max;
  base = base;
  attempts = u32 k;
}

delay_at-suc : (base max k : ℕ) → min (delay_at base max k * 2) max ≡ delay_at base max (suc k)
delay_at-suc base max zero = refl
delay_at-suc base max (suc k) = omega (arith, ap (λ (t : ℕ). base * t) (pow-suc 2 (suc k)))

delay_at-le :
    (base max k : ℕ)
    → base * 2 ≤ duration_max
    → max * 2 ≤ duration_max
    → delay_at base max k * 2 ≤ duration_max
delay_at-le base max zero h g = h
delay_at-le base max (suc k) h g = omega arith

pub next_delay-state_at :
    (base max k : ℕ)
    → base * 2 ≤ duration_max
    → max * 2 ≤ duration_max
    → next_delay (state_at base max k) ≡ some (state_at base max (suc k), delay_at base max k)
unfolding next_delay
next_delay-state_at base max k h g = ground (arith, delay_at-le base max k, delay_at-suc base max k)

after_delays-new :
    (base max k : ℕ)
    → base * 2 ≤ duration_max
    → max * 2 ≤ duration_max
    → after_delays k (new base max) ≡ some (state_at base max k)
unfolding after_delays new
after_delays-new base max zero h g = refl
after_delays-new base max (suc k) h g =
    rw (after_delays-new base max k h g, after_delays)
      (rw (next_delay-state_at base max k h g) refl)

-- A backoff whose base and cap can be doubled never panics: after any number `k` of calls the
-- next call succeeds and returns the base delay doubled `k` times, cut at the cap (the first
-- delay is the base itself); the attempts are counted modulo 2^32, and `reset` starts afresh.
pub next_delay-after_delays :
    (base max k : ℕ)
    → base * 2 ≤ duration_max
    → max * 2 ≤ duration_max
    → (b b' : ExponentialBackoff) × (after_delays k (new base max) ≡ some b)
      × (next_delay b ≡ some (b', delay_at base max k))
      × (b'.attempts ≡ u32 (suc k))
      × (reset b' ≡ new base max)
unfolding reset new
next_delay-after_delays base max k h g = (
  state_at base max k,
  state_at base max (suc k),
  after_delays-new base max k h g,
  next_delay-state_at base max k h g,
  refl,
  refl,
)
