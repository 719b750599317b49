-- ===== src/Core/SlotLifecycle/Burst.antt =====
-- A slot that crashes again and again: exponential delays first, then it is disabled.
use mathlib.Core.List.{append_assoc, append-nil}
use protoclaw.Base.{
  ℕ, suc, ◌+◌, ◌*◌, ◌≤◌, ◌<◌, ◌≡◌, refl, ap, Bool, true, false, ◌||◌, Option, none, some, List, [],
  ◌∷◌, ◌++◌, arith, length, leb, count_where, length-append, if◌then◌else◌,
}
use protoclaw.Core.Backoff.{ExponentialBackoff, duration_max}
use protoclaw.Core.Backoff
use protoclaw.Core.Backoff.Delays.{delay_at, state_at, next_delay-state_at}
use protoclaw.Core.CrashTracker.{
  CrashTracker, within, record_crash, with_long_horizon, is_crash_loop,
}
use protoclaw.Core.CrashTracker
use protoclaw.Core.CrashTracker.History.{
  record_all, AllUntil, few_crashes, is_crash_loop-record_all,
}
use protoclaw.Core.SlotLifecycle.{
  SlotLifecycle, CrashAction, restart_after, new, record_crash_and_check,
}

-- The slot after a list of crashes, each with the instant of its check, and the actions taken.
unfoldable pub run_crashes :
    {Token : Type 0}
    → List (ℕ × ℕ)
    → SlotLifecycle Token
    → Option (SlotLifecycle Token × List CrashAction)
run_crashes [] l = some (l, [])
run_crashes ((now, later) ∷ cs) l = elim (record_crash_and_check now later l) [
  | none ↦ none
  | some (l', a) ↦ elim (run_crashes cs l') [
    | none ↦ none
    | some (l'', rest) ↦ some (l'', a ∷ rest)
  ]
]

-- Each check follows its crash, and each crash the check before it.
abbrev pub Chronological : ℕ → List (ℕ × ℕ) → Type 0
Chronological prev [] = Unit {0}
Chronological prev ((now, later) ∷ cs) = (prev ≤ now) × (now ≤ later) × Chronological later cs

abbrev pub instants : List (ℕ × ℕ) → List ℕ
instants [] = []
instants ((now, later) ∷ cs) = now ∷ instants cs

-- The delays of the attempts from number `k` on.
abbrev pub restarts : ℕ → ℕ → ℕ → List (ℕ × ℕ) → List CrashAction
restarts base max k [] = []
restarts base max k (c ∷ cs) = restart_after (delay_at base max k) ∷ restarts base max (suc k) cs

record_all-snoc :
    (ts : List ℕ) (now : ℕ) (c : CrashTracker)
    → record_all (ts ++ now ∷ []) c ≡ record_crash now (record_all ts c)
unfolding record_all
record_all-snoc [] now c = refl
record_all-snoc (t ∷ ts) now c = record_all-snoc ts now (record_crash t c)

AllUntil-snoc :
    (prev later now : ℕ) (ts : List ℕ)
    → AllUntil prev ts
    → prev ≤ later
    → now ≤ later
    → AllUntil later (ts ++ now ∷ [])
AllUntil-snoc prev later now [] a h g = (g, tt)
AllUntil-snoc prev later now (t ∷ ts) a h g = (omega arith, AllUntil-snoc prev later now ts a.1 h g)

length-instants : (cs : List (ℕ × ℕ)) → length (instants cs) ≡ length cs
length-instants [] = refl
length-instants ((now, later) ∷ cs) = ap suc (length-instants cs)

length-snoc : (ts : List ℕ) (now : ℕ) → length (ts ++ now ∷ []) ≡ suc (length ts)
length-snoc ts now = omega (arith, length-append ts (now ∷ []))

-- The new `disabled` flag and the action, if the call did not panic.
abbrev pub outcome :
    {Token : Type 0} → Option (SlotLifecycle Token × CrashAction) → Option (Bool × CrashAction)
outcome none = none
outcome (some (l, a)) = some (l.disabled, a)

module _ {Token : Type 0} (child_token : Token → Token) (parent : Token)
    (base cap max window long_max long_window : ℕ) where
  abbrev pub tracker : CrashTracker
  tracker = with_long_horizon long_max long_window (CrashTracker.new max window)

  abbrev pub slot : SlotLifecycle Token
  slot = new child_token parent (Backoff.new base cap) tracker

  -- The slot after restarts at the crashes `ts`.
  abbrev slot_at : List ℕ → SlotLifecycle Token
  slot_at ts = record {
    cancel_token = child_token parent;
    backoff = state_at base cap (length ts);
    crash_tracker = record_all ts tracker;
    disabled = false;
  }

  module _ (base_fits : base * 2 ≤ duration_max) (cap_fits : cap * 2 ≤ duration_max)
      (short_first : window ≤ long_window) where
    step-slot_at :
        (ts : List ℕ) (now later : ℕ)
        → is_crash_loop later (record_all (ts ++ now ∷ []) tracker) ≡ false
        → record_crash_and_check now later (slot_at ts)
          ≡ some (slot_at (ts ++ now ∷ []), restart_after (delay_at base cap (length ts)))
    unfolding record_crash_and_check
    step-slot_at ts now later h = ground (
      arith,
      record_all-snoc ts now tracker,
      length-snoc ts now,
      next_delay-state_at base cap (length ts) base_fits cap_fits,
    )

    outcome-slot_at :
        (ts : List ℕ) (now later : ℕ)
        → outcome (record_crash_and_check now later (slot_at ts)) ≡ (
            if is_crash_loop later (record_all (ts ++ now ∷ []) tracker)
            then some (true, CrashAction.disabled)
            else some (false, restart_after (delay_at base cap (length ts))))
    unfolding record_crash_and_check
    outcome-slot_at ts now later = ground (
      arith,
      record_all-snoc ts now tracker,
      next_delay-state_at base cap (length ts) base_fits cap_fits,
    )

    run_crashes-slot_at :
        (cs : List (ℕ × ℕ)) (ts : List ℕ) (prev : ℕ)
        → AllUntil prev ts
        → Chronological prev cs
        → length ts + length cs < max
        → length ts + length cs < long_max
        → run_crashes cs (slot_at ts)
          ≡ some (slot_at (ts ++ instants cs), restarts base cap (length ts) cs)
    unfolding run_crashes
    run_crashes-slot_at [] ts prev a c p q = rw append-nil
    run_crashes-slot_at ((now, later) ∷ cs) ts prev a c p q =
        let ts' = ts ++ now ∷ [] in
        let upto : AllUntil later ts' = AllUntil-snoc prev later now ts a (omega arith) c.1 in
        let quiet =
          few_crashes max window later ts' long_max long_window short_first upto
            (omega (arith, length-snoc ts now)) (omega (arith, length-snoc ts now)) in
        let rest =
          run_crashes-slot_at cs ts' later upto c.2 (omega (arith, length-snoc ts now))
            (omega (arith, length-snoc ts now)) in
        rw (step-slot_at ts now later quiet, run_crashes)
          (rw (rest, run_crashes) (rw (append_assoc, length-snoc) refl))

    -- Crashes that stay below both limits are each answered by a restart, after the base delay
    -- doubled for each crash before it and cut at the cap. The next crash disables the slot
    -- exactly when the crashes so far, itself included, reach the limit of the short window or
    -- that of the long one; otherwise it too is answered by the restart that is due. For checks
    -- in chronological order, delays that can be doubled and a short window within the long one.
    pub burst :
        (cs : List (ℕ × ℕ)) (now later : ℕ)
        → Chronological 0 cs
        → AllUntil later (instants cs ++ now ∷ [])
        → length cs < max
        → length cs < long_max
        → (l : SlotLifecycle Token) × (run_crashes cs slot ≡ some (l, restarts base cap 0 cs))
          × (l.disabled ≡ false)
          × (outcome (record_crash_and_check now later l) ≡ (
              if leb max (count_where (within window later) (instants cs ++ now ∷ []))
                || leb long_max (count_where (within long_window later) (instants cs ++ now ∷ []))
              then some (true, CrashAction.disabled)
              else some (false, restart_after (delay_at base cap (length cs)))))
    unfolding new Backoff.new record_all
    burst cs now later c u p q = (
      slot_at (instants cs),
      run_crashes-slot_at cs [] 0 tt c (omega arith) (omega arith),
      refl,
      rw (outcome-slot_at (instants cs) now later, length-instants cs)
          (rw (
            is_crash_loop-record_all max window long_max long_window later (instants cs ++ now ∷ [])
              short_first u)),
    )
