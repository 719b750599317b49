-- ===== src/Supervisor/Tests.antt =====
-- Tests of the supervisor: a boot, the crash of the agents manager until it trips, and a shutdown.
-- Tokens are numbers, a child is the next number, and a cancelled token is 0.
use protoclaw.Base.{
  ◌≡◌, refl, ◌≢◌, ℕ, suc, ◌/◌, ◌≤◌, Bool, true, false, Option, none, some, List, [], ◌∷◌, map, any,
  arith,
}
use protoclaw.Base.Text.{bytes}
use protoclaw.Core.Backoff.{from_secs}
use protoclaw.Core.Backoff
use protoclaw.Core.CrashTracker
use protoclaw.Core.SlotLifecycle.{SlotLifecycle, record_crash_and_check}
use protoclaw.Supervisor.{
  Name, tools, agents, channels, Manager, clean, error, running, finished, Supervisor, Answer,
  ManagerSlot, check_slot,
}
use protoclaw.Supervisor.Boot.{
  booted, boot_managers, new_supervisor, Input, exited, tick, run_checks,
}
use protoclaw.Supervisor.Restarts.{run_checks-tripped}
use protoclaw.Supervisor.Restarts.Recreated.{HasSender}
use protoclaw.Supervisor.Restarts.Checked.{tripped, Sound, AllSound}
use protoclaw.Supervisor.Wiring.{slot_of, restart-unwired}
use protoclaw.Supervisor.Shutdown.{
  Stop, stops, never, cancellations, awaited, Down, backwards, has_task, shutdown_ordered,
  shutdown_ordered-Down,
}
use protoclaw.Supervisor.Health.{degraded, refresh_health_snapshot}

abbrev lifecycle : SlotLifecycle ℕ
lifecycle = record {
  cancel_token = 2;
  backoff = record { current = 100; max = 800; base = 100; attempts = 0 };
  crash_tracker = record {
    timestamps = [];
    max_crashes = 2;
    window = 60;
    long_max_crashes = 50;
    long_window = 3600;
    total_crashes = 0;
  };
  disabled = false;
}

abbrev Slots : Type 0
Slots = List (ManagerSlot suc 1)

abbrev slot : Name → Manager → ManagerSlot suc 1
slot name m = slot_of suc 1 name (some (running m)) lifecycle

abbrev slots : Slots
slots =
    slot tools
      (record { command_rx = 0; tools_tx = none; agents_cmd_tx = none; channel_events = false })
    ∷ slot agents
        (record { command_rx = 2; tools_tx = some 0; agents_cmd_tx = none; channel_events = true })
    ∷ slot channels
        (record { command_rx = 3; tools_tx = none; agents_cmd_tx = some 2; channel_events = true })
    ∷ []

abbrev supervisor : Supervisor
supervisor = record {
  tools_tx = some 0;
  agents_cmd_tx = some 2;
  next_channel = 4;
  root_cancelled = false;
}

abbrev booting : Slots
booting = map (λ name. slot_of suc 1 name none lifecycle) (tools ∷ agents ∷ channels ∷ [])

boot_test :
    boot_managers suc 1 (λ name. true) booting new_supervisor ≡ some (booted (slots, supervisor))
unfolding boot_managers
boot_test = refl

abbrev answer : Name → Answer
answer name = record { now = 5; later = 5; started = true }

abbrev crash : Input suc 1
crash = exited agents (error (bytes "e"))

abbrev inputs : List (Input suc 1)
inputs = crash ∷ tick answer ∷ crash ∷ tick answer ∷ []

sound : (name : Name) (m : Manager) → Sound suc 1 (slot name m)
sound name m = ((λ t. absurd (ground (arith, t))), (omega arith, omega arith, omega arith))

run_checks-tripped_example :
    (slots' : Slots) × (s' : Supervisor) × (run_checks suc 1 inputs slots supervisor
      ≡ some (slots', s'))
    × AllSound suc 1 slots'
    × HasSender s'
    × (s'.root_cancelled ≡ any (tripped suc 1) slots')
unfolding tripped
run_checks-tripped_example =
    run_checks-tripped suc 1 inputs slots supervisor
      (sound tools _, (sound agents _, (sound channels _, tt))) (2, refl) refl

root_of : Option (Slots × Supervisor) → Option Bool
root_of none = none
root_of (some (slots', s)) = some s.root_cancelled

-- The second crash is a loop.
trip_test : root_of (run_checks suc 1 inputs slots supervisor) ≡ some true
unfolding root_of run_checks CrashTracker.is_crash_loop CrashTracker.record_crash Backoff.next_delay
trip_test = refl

abbrev restarting : SlotLifecycle ℕ
restarting = record lifecycle {
  backoff = record { current = 200; max = 800; base = 100; attempts = 1 };
  crash_tracker = record lifecycle.crash_tracker { timestamps = 5 ∷ []; total_crashes = 1 };
}

restart-unwired_example :
    (la : SlotLifecycle ℕ) × (lc : SlotLifecycle ℕ) × (s1 : Supervisor) × (s2 : Supervisor)
    × (ma : Manager) × (mc : Manager) × (check_slot suc 1
          (answer agents)
          (slot_of suc 1 agents (some (finished (error (bytes "e")))) lifecycle)
          supervisor
        ≡ some (slot_of suc 1 agents (some (running ma)) la, s1))
    × (check_slot suc 1
          (answer channels)
          (slot_of suc 1 channels (some (finished (error (bytes "f")))) lifecycle)
          s1
        ≡ some (slot_of suc 1 channels (some (running mc)) lc, s2))
    × (ma.channel_events ≡ false)
    × (mc.channel_events ≡ false)
    × (mc.agents_cmd_tx ≢ some ma.command_rx)
unfolding record_crash_and_check CrashTracker.is_crash_loop CrashTracker.record_crash
    Backoff.next_delay
restart-unwired_example =
    restart-unwired suc 1 (answer agents) (answer channels) (bytes "e") (bytes "f") lifecycle
      restarting lifecycle restarting 100 100 2 supervisor refl refl refl refl refl (omega arith)

abbrev stop : Name → Stop
stop tools = stops 5 clean
stop agents = never
stop channels = stops 3000000000 clean

shutdown_ordered-Down_example :
    let (slots', log, time) = shutdown_ordered suc 1 true (from_secs (10 / 3)) stop slots in
    Down suc 1 slots slots'
    × (cancellations log ≡ [])
    × (awaited log ≡ backwards suc 1 (has_task suc 1) slots)
    × (time ≤ from_secs 10)
shutdown_ordered-Down_example = shutdown_ordered-Down suc 1 true 10 stop slots (omega arith)

-- A configured agent without its manager.
health_test : (refresh_health_snapshot suc 1 (bytes "a" ∷ []) [] [] booting).status ≡ degraded
unfolding refresh_health_snapshot
health_test = refl
