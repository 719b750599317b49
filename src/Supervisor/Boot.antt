-- ===== src/Supervisor/Boot.antt =====
-- crates/anyclaw-supervisor/src/lib.rs: the boot of the managers and the supervisor's loop.
use protoclaw.Base.{
  ℕ, suc, Bool, true, false, not, Option, none, some, List, [], ◌∷◌, map, if◌then◌else◌,
}
use protoclaw.Supervisor.{
  Name, tools, agents, channels, manager_order, Manager, Exit, Task, running, finished, Supervisor,
  Answer, create_manager, ManagerSlot, new_slot, check_and_restart_managers,
}

-- `booted` says whether all managers have started; the first that fails ends the boot.
pub data Booted (A : Type 0) : Type 0 where
  booted : A → Booted A
  boot_failure : Name → A → Booted A

-- The command sender of an agents manager that has been made.
unfoldable pub keep_sender : Name → Manager → Supervisor → Supervisor
keep_sender agents m s = record s { agents_cmd_tx = some m.command_rx }
keep_sender _ m s = s

is_tools : Name → Bool
is_tools tools = true
is_tools _ = false

-- The first manager of the boot takes the receiver of the tools' channel; the ends of the channel
-- of events go to the agents and the channels manager.
unfoldable pub boot_manager : Name → ℕ → Supervisor → Option Manager
unfolding create_manager is_tools
boot_manager name tools_tx s =
    create_manager name s.next_channel tools_tx (if is_tools name then some tools_tx else none)
      s.agents_cmd_tx true true

unfoldable pub counted : Supervisor → Supervisor
counted s = record s { next_channel = suc s.next_channel }

unfoldable pub is_name : Name → Name → Bool
is_name tools tools = true
is_name agents agents = true
is_name channels channels = true
is_name _ _ = false

unfoldable pub task_exit : Exit → Option Task → Option Task
task_exit e (some (running m)) = some (finished e)
task_exit e other = other

abbrev pub new_supervisor : Supervisor
new_supervisor = record {
  tools_tx = none;
  agents_cmd_tx = none;
  next_channel = 0;
  root_cancelled = false;
}

module _ {Token : Type 0} (child_token : Token → Token) (root : Token) where
  abbrev Slots : Type 0
  Slots = List (ManagerSlot child_token root)

  unfoldable pub started : Manager → ManagerSlot child_token root → ManagerSlot child_token root
  started m slot = record slot { join_handle = some (running m) }

  unfoldable pub boot_rest :
      (Name → Bool) → ℕ → Slots → Supervisor → Option (Booted (Slots × Supervisor))
  unfolding boot_manager keep_sender counted started
  boot_rest starts tools_tx [] s = some (booted ([], s))
  boot_rest starts tools_tx (slot ∷ slots) s = elim (boot_manager slot.name tools_tx s) [
    | none ↦ none
    | some m ↦
        let s' = keep_sender slot.name m (counted s) in
        if not (starts slot.name)
        then some (boot_failure slot.name (slot ∷ slots, s'))
        else elim (boot_rest starts tools_tx slots s') [
          | none ↦ none
          | some (booted (slots', s'')) ↦ some (booted (started m slot ∷ slots', s''))
          | some (boot_failure name (slots', s'')) ↦
              some (boot_failure name (started m slot ∷ slots', s''))
        ]
  ]

  unfoldable pub boot_managers :
      (Name → Bool) → Slots → Supervisor → Option (Booted (Slots × Supervisor))
  unfolding boot_rest counted
  boot_managers starts slots s =
      boot_rest starts s.next_channel slots (counted (record s { tools_tx = some s.next_channel }))

  unfoldable pub new_slots : (max_restarts restart_window : ℕ) → Slots
  unfolding new_slot
  new_slots max_restarts restart_window =
      map (new_slot child_token root max_restarts restart_window) manager_order

  -- What happens between two waits of the supervisor: a task ends, or the check is due.
  pub data Input : Type 0 where
    exited : Name → Exit → Input
    tick : (Name → Answer) → Input

  unfoldable pub exit_slot :
      Name → Exit → ManagerSlot child_token root → ManagerSlot child_token root
  unfolding task_exit is_name
  exit_slot name e slot = record slot {
    join_handle = if is_name name slot.name then task_exit e slot.join_handle else slot.join_handle;
  }

  unfoldable pub step : Input → Slots → Supervisor → Option (Slots × Supervisor)
  unfolding exit_slot check_and_restart_managers
  step (exited name e) slots s = some (map (exit_slot name e) slots, s)
  step (tick answers) slots s = check_and_restart_managers child_token root answers slots s

  unfoldable pub run_checks : List Input → Slots → Supervisor → Option (Slots × Supervisor)
  unfolding step
  run_checks [] slots s = some (slots, s)
  run_checks (input ∷ inputs) slots s = elim (step input slots s) [
    | none ↦ none
    | some (slots', s') ↦ run_checks inputs slots' s'
  ]
