-- ===== src/Supervisor.antt =====
-- crates/anyclaw-supervisor/src: the three managers, their boot (lib.rs), what is given to a manager
-- (factory.rs), and the check that restarts them (health.rs). Tokio's channels are numbers, taken
-- in the order in which the channels are made; a task is running or has finished. Tokens and
-- `child_token` are parameters; the starts of the managers are answers. `none` is a panic.
pub mod Boot
pub mod Restarts
mod Tests
pub mod Health
pub mod Shutdown
pub mod Wiring
use protoclaw.Base.{
  ℕ, suc, Bool, true, false, not, ◌||◌, Option, none, some, List, [], ◌∷◌, if◌then◌else◌,
}
use protoclaw.Base.Text.{Text}
use protoclaw.Core.Backoff
use protoclaw.Core.CrashTracker
use protoclaw.Core.SlotLifecycle.{
  SlotLifecycle, CrashAction, restart_after, record_crash_and_check, new as new_lifecycle,
}

pub data Name : Type 0 where
  tools agents channels : Name

-- The order of the boot.
abbrev pub manager_order : List Name
manager_order = tools ∷ agents ∷ channels ∷ []

-- What a manager holds: the channel that its commands arrive on, the channels that it sends to,
-- and its end of the channel of events.
pub record Manager : Type 0 where
  pub command_rx : ℕ
  pub tools_tx : Option ℕ
  pub agents_cmd_tx : Option ℕ
  pub channel_events : Bool

pub data Exit : Type 0 where
  clean : Exit
  error : Text → Exit
  panicked : Text → Exit

pub data Task : Type 0 where
  running : Manager → Task
  finished : Exit → Task

-- The supervisor between two checks: the senders that it keeps, the number of the next channel,
-- and whether the root token is cancelled.
pub record Supervisor : Type 0 where
  pub tools_tx : Option ℕ
  pub agents_cmd_tx : Option ℕ
  pub next_channel : ℕ
  pub root_cancelled : Bool

-- The answers for one manager: the instants that its crash is recorded and looked at, and whether
-- it starts.
pub record Answer : Type 0 where
  pub now : ℕ
  pub later : ℕ
  pub started : Bool

unfoldable pub is_critical : Name → Bool
is_critical tools = false
is_critical agents = true
is_critical channels = true

-- A manager that gets no receiver makes the channel of its commands itself, as number `own`.
unfoldable pub create_manager :
    Name
    → (own tools_tx : ℕ) → (tools_rx agents_cmd_tx : Option ℕ) → (events_tx events_rx : Bool)
    → Option Manager
create_manager tools own tools_tx none agents_cmd_tx events_tx events_rx = none
create_manager tools own tools_tx (some rx) agents_cmd_tx events_tx events_rx =
    some (record { command_rx = rx; tools_tx = none; agents_cmd_tx = none; channel_events = false })
create_manager agents own tools_tx tools_rx agents_cmd_tx events_tx events_rx = some (record {
  command_rx = own;
  tools_tx = some tools_tx;
  agents_cmd_tx = none;
  channel_events = events_tx;
})
create_manager channels own tools_tx tools_rx none events_tx events_rx = none
create_manager channels own tools_tx tools_rx (some tx) events_tx events_rx = some (record {
  command_rx = own;
  tools_tx = none;
  agents_cmd_tx = some tx;
  channel_events = events_rx;
})

-- The sender that is kept, or one of a new channel without a receiver; with the next number.
unfoldable pub sender_or_new : Option ℕ → ℕ → ℕ × ℕ
sender_or_new none n = (n, suc n)
sender_or_new (some tx) n = (tx, n)

module _ {Token : Type 0} (child_token : Token → Token) (root : Token) where
  pub record ManagerSlot : Type 0 where
    pub name : Name
    pub join_handle : Option Task
    pub lifecycle : SlotLifecycle Token

  unfoldable pub new_slot : (max_restarts restart_window : ℕ) → Name → ManagerSlot
  unfolding new_lifecycle Backoff.default CrashTracker.new
  new_slot max_restarts restart_window name = record {
    name = name;
    join_handle = none;
    lifecycle =
        new_lifecycle child_token root Backoff.default
          (CrashTracker.new max_restarts restart_window);
  }

  -- The tools manager gets a new channel for its commands, which the supervisor keeps the sender
  -- of; no restarted manager gets an end of the channel of events.
  unfoldable pub recreate : Name → Supervisor → Supervisor × Option Manager
  unfolding create_manager sender_or_new
  recreate name s =
      let (tools_tx, n) = sender_or_new s.tools_tx s.next_channel in
      elim name [
        | tools ↦ (
          record s { tools_tx = some n; next_channel = suc n },
          create_manager tools n tools_tx (some n) s.agents_cmd_tx false false,
        )
        | agents ↦ (
          record s { next_channel = suc n },
          create_manager agents n tools_tx none s.agents_cmd_tx false false,
        )
        | channels ↦ (
          record s { next_channel = suc n },
          create_manager channels n tools_tx none s.agents_cmd_tx false false,
        )
      ]

  -- A manager that starts runs as a new task under a new token; another one is left as it is.
  unfoldable pub restarted :
      Bool → ManagerSlot → Supervisor × Option Manager → Option (ManagerSlot × Supervisor)
  restarted started slot (s, none) = none
  restarted false slot (s, some m) = some (slot, s)
  restarted true slot (s, some m) = some (
    record slot {
      join_handle = some (running m);
      lifecycle = record slot.lifecycle { cancel_token = child_token root };
    },
    s,
  )

  -- After a crash, with the slot's new lifecycle. A crash loop of a critical manager cancels the
  -- root token.
  unfoldable pub after_crash :
      Bool → ManagerSlot → CrashAction → Supervisor → Option (ManagerSlot × Supervisor)
  unfolding restarted recreate is_critical
  after_crash started slot CrashAction.disabled s =
      some (slot, record s { root_cancelled = s.root_cancelled || is_critical slot.name })
  after_crash started slot (restart_after delay) s = restarted started slot (recreate slot.name s)

  unfoldable pub crashed : Answer → ManagerSlot → Supervisor → Option (ManagerSlot × Supervisor)
  unfolding record_crash_and_check after_crash
  crashed a slot s = elim (record_crash_and_check a.now a.later slot.lifecycle) [
    | none ↦ none
    | some (l, action) ↦
        after_crash a.started (record slot { join_handle = none; lifecycle = l }) action s
  ]

  unfoldable pub check_slot : Answer → ManagerSlot → Supervisor → Option (ManagerSlot × Supervisor)
  unfolding crashed
  check_slot a slot s = elim slot.join_handle [
    | none ↦ some (slot, s)
    | some (running m) ↦ some (slot, s)
    | some (finished clean) ↦ some (record slot { join_handle = none }, s)
    | some (finished (error e)) ↦ crashed a slot s
    | some (finished (panicked e)) ↦ crashed a slot s
  ]

  unfoldable pub check_and_restart_managers :
      (Name → Answer) → List ManagerSlot → Supervisor → Option (List ManagerSlot × Supervisor)
  unfolding check_slot
  check_and_restart_managers answers [] s = some ([], s)
  check_and_restart_managers answers (slot ∷ slots) s =
      elim (check_slot (answers slot.name) slot s) [
        | none ↦ none
        | some (slot', s') ↦ elim (check_and_restart_managers answers slots s') [
          | none ↦ none
          | some (slots', s'') ↦ some (slot' ∷ slots', s'')
        ]
      ]
