-- ===== src/Core/SlotLifecycle/Doubles.antt =====
-- Backoffs whose delays never leave the range of `Duration`: no crash panics.
use protoclaw.Base.{
  ◌≡◌, refl, ◌⊎◌, inl, inr, ℕ, ◌*◌, ◌+◌, ◌≤◌, min, true, some, leb, Bool-cases, arith,
}
use protoclaw.Core.Backoff.{ExponentialBackoff, duration_max, u32, next_delay, reset}
use protoclaw.Core.CrashTracker.{record_crash, is_crash_loop}
use protoclaw.Core.SlotLifecycle.{SlotLifecycle, CrashAction, restart_after, record_crash_and_check}

-- Doubling the delay of the backoff never leaves the range of `Duration`.
abbrev pub Doubles : ExponentialBackoff → Type 0
Doubles b =
    (b.current * 2 ≤ duration_max) × (b.base * 2 ≤ duration_max) × (b.max * 2 ≤ duration_max)

pub reset-Doubles : (b : ExponentialBackoff) → Doubles b → Doubles (reset b)
unfolding reset
reset-Doubles b (c, d, x) = (d, d, x)

next_delay-Doubles :
    (b : ExponentialBackoff)
    → Doubles b
    → (b' : ExponentialBackoff) × (delay : ℕ) × (next_delay b ≡ some (b', delay)) × Doubles b'
unfolding next_delay
next_delay-Doubles b (c, d, x) =
    let fits : leb (b.current * 2) duration_max ≡ true = ground (arith, c) in
    (
      record b { current = min (b.current * 2) b.max; attempts = u32 (b.attempts + 1) },
      b.current,
      rw (next_delay, fits) refl,
      (omega (arith, x, c), d, x),
    )

-- A crash disables the slot, or hands out a delay.
pub record_crash-cases :
    {Token : Type 0} (now later : ℕ) (l : SlotLifecycle Token)
    → Doubles l.backoff
    → ((l' : SlotLifecycle Token) × (record_crash_and_check now later l
          ≡ some (l', CrashAction.disabled))
        × (l'.disabled ≡ true)
        × Doubles l'.backoff)
      ⊎ ((l' : SlotLifecycle Token) × (delay : ℕ) × (record_crash_and_check now later l
            ≡ some (l', restart_after delay))
          × (l'.disabled ≡ l.disabled)
          × Doubles l'.backoff)
unfolding record_crash_and_check
record_crash-cases now later l d =
    let tracker = record_crash now l.crash_tracker in
    let (b, delay, e, d') = next_delay-Doubles l.backoff d in
    elim (Bool-cases (is_crash_loop later tracker)) [
      | inl t ↦ inl (
        record l { crash_tracker = tracker; disabled = true },
        rw (record_crash_and_check, t) refl,
        refl,
        d,
      )
      | inr f ↦ inr (
        record l { crash_tracker = tracker; backoff = b },
        delay,
        rw (record_crash_and_check, f, e) refl,
        refl,
        d',
      )
    ]

pub record_crash-Doubles :
    {Token : Type 0} (now later : ℕ) (l : SlotLifecycle Token)
    → Doubles l.backoff
    → (l' : SlotLifecycle Token) × (action : CrashAction) × (record_crash_and_check now later l
        ≡ some (l', action))
      × Doubles l'.backoff
record_crash-Doubles now later l d = elim (record_crash-cases now later l d) [
  | inl (l', e, b, d') ↦ (l', CrashAction.disabled, e, d')
  | inr (l', delay, e, b, d') ↦ (l', restart_after delay, e, d')
]
