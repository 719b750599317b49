-- ===== src/Core/Tests.antt =====
-- Tests of the restart delays, the crash counting and the slot lifecycle, and instances of
-- their theorems.
use protoclaw.Base.{ℕ, ◌≡◌, refl, true, false, some, List, [], ◌∷◌, arith}
use protoclaw.Core.Backoff.Delays.{delay_at}
use protoclaw.Core.CrashTracker.{within, with_long_horizon, is_crash_loop}
use protoclaw.Core.CrashTracker
use protoclaw.Core.CrashTracker.History.{record_all, is_crash_loop-record_all}
use protoclaw.Core.SlotLifecycle.{SlotLifecycle, CrashAction, record_crash_and_check}
use protoclaw.Core.SlotLifecycle.Burst.{run_crashes, slot, restarts, outcome, burst}

-- The ninth delay of a default backoff, 100 ms doubled eight times, is 25.6 s; the tenth is the cap.
ninth_delay : delay_at 100000000 30000000000 8 ≡ 25600000000
ninth_delay = refl

tenth_delay : delay_at 100000000 30000000000 9 ≡ 30000000000
tenth_delay = refl

abbrev three_crashes : List ℕ
three_crashes = 10 ∷ 50 ∷ 70 ∷ []

is_crash_loop-record_all_example :
    is_crash_loop 80 (record_all three_crashes (with_long_horizon 3 100 (CrashTracker.new 3 60)))
    ≡ true
is_crash_loop-record_all_example =
    is_crash_loop-record_all 3 60 3 100 80 three_crashes (omega arith) (omega arith)

burst_example :
    (l : SlotLifecycle ℕ) × (run_crashes
        ((10, 11) ∷ (20, 21) ∷ [])
        (slot (λ t. t) 0 100 1000 3 60 10 3600)
      ≡ some (l, restarts 100 1000 0 ((10, 11) ∷ (20, 21) ∷ [])))
    × (l.disabled ≡ false)
    × (outcome (record_crash_and_check 30 31 l) ≡ some (true, CrashAction.disabled))
burst_example =
    burst (λ t. t) 0 100 1000 3 60 10 3600 (omega arith) (omega arith) (omega arith)
      ((10, 11) ∷ (20, 21) ∷ []) 30 31 (omega arith) (omega arith) (omega arith) (omega arith)
