-- ===== src/Agents/Slot.antt =====
-- crates/anyclaw-agents/src/slot.rs: the session state of one agent. The connection is a
-- parameter; of the configuration only the name is read here. JSON values are a parameter too.
use protoclaw.Base.{
  ℕ, ◌+◌, Bool, false, Option, none, some, List, [], ◌∷◌, if◌then◌else◌, ◌=?◌, nat_eq, list_eq,
}
use protoclaw.Base.Map.{Map, Set}
use protoclaw.Base.Text.{Text}
use protoclaw.SdkTypes.SessionKey.{SessionKey}
use protoclaw.Core.SlotLifecycle.{SlotLifecycle}

-- The capabilities of an initialized agent that the manager asks for.
pub record Capabilities : Type 0 where
  pub resume : Bool
  pub load_session : Bool
  pub fork : Bool

-- crates/anyclaw-agents/src/error.rs. An error that another crate defines is its text; a timeout
-- is in nanoseconds.
pub data AgentsError : Type 0 where
  spawn_failed : Text → AgentsError
  process_exited : Text → AgentsError
  protocol : Text → AgentsError
  timeout : ℕ → AgentsError
  connection_closed : AgentsError
  io : Text → AgentsError
  json : Text → AgentsError
  agent_not_found : Text → AgentsError
  capability_not_supported : Text → AgentsError
  docker_error : Text → AgentsError
  image_pull_failed : Text → Text → AgentsError

pub data Result {ℓ} (A : Type ℓ) : Type ℓ where
  ok : A → Result A
  err : AgentsError → Result A

-- What the session code needs from outside: connections, cancellation tokens, JSON values and
-- pending permission requests.
pub record Outside : Type 1 where
  pub Connection : Type 0
  pub Token : Type 0
  pub Value : Type 0
  pub Permission : Type 0

module _ (out : Outside) where
  open out use {Connection, Token, Value, Permission}

  pub record AgentSlot : Type 0 where
    pub name : Text
    pub connection : Option Connection
    pub lifecycle : SlotLifecycle Token
    pub agent_capabilities : Option Capabilities
    pub session_map : Map SessionKey Text
    pub reverse_map : Map Text SessionKey
    pub pending_permissions : Map Text Permission
    pub stale_sessions : Map SessionKey Text
    pub awaiting_first_prompt : Set Text
    pub last_available_commands : Option Value
    pub tool_context : Option Text
    pub tool_context_sent : Set Text
    pub active_prompts : Set Text

  -- An initialized agent has a capability. Before the handshake it has none.
  unfoldable pub has_session_capability : (Capabilities → Bool) → AgentSlot → Bool
  has_session_capability check slot = elim slot.agent_capabilities [
    | none ↦ false
    | some c ↦ check c
  ]

  -- The index of the first slot of the name.
  unfoldable pub find_slot_by_name : Text → List AgentSlot → Option ℕ
  find_slot_by_name name [] = none
  find_slot_by_name name (s ∷ slots) =
      let later = find_slot_by_name name slots in
      if s.name =? name then some 0 else elim later [ none ↦ none | some i ↦ some (i + 1) ]
