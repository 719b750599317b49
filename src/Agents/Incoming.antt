-- ===== src/Agents/Incoming.antt =====
-- crates/anyclaw-agents/src/incoming.rs and the permission command of commands.rs: what a message
-- of an agent changes, and what is sent to the channels manager or back to the agent. The JSON
-- of an update is a value that has been stamped and normalized already.
pub mod Permissions
use protoclaw.Base.{
  Bool, true, false, Option, none, some, List, [], ◌∷◌, if◌then◌else◌, is_empty, nat_eq, list_eq,
}
use protoclaw.Base.Map.{Map, get, insert, remove, contains}
use protoclaw.Base.Text.{Text, bytes}
use protoclaw.SdkTypes.SessionKey.{SessionKey}
use protoclaw.Agents.Slot.{Outside, AgentSlot}

-- A request for a permission: the id in its parameters, the id of the JSON-RPC request as text,
-- the session, and the ids of the options that the user may choose.
pub record PermissionRequest (Permission : Type 0) : Type 0 where
  pub param_request_id : Option Text
  pub rpc_id : Option Text
  pub session_id : Text
  pub options : List Text
  pub pending : Permission

module _ (out : Outside) where
  open out use {Connection, Value, Permission}

  pub record Update : Type 0 where
    pub session_id : Text
    pub is_result : Bool
    pub is_commands : Bool
    pub content : Value

  -- The message delivered to a channel, and the session whose result has been streamed.
  pub record Forwarded : Type 0 where
    pub slot : AgentSlot out
    pub delivered : Option (SessionKey × Value)
    pub completed : Option SessionKey

  -- `sender` tells whether a channels manager is connected.
  unfoldable pub forward_session_update : Bool → Update → AgentSlot out → Forwarded
  forward_session_update sender u slot =
      let slot' =
        if u.is_commands then record slot { last_available_commands = some u.content } else slot in
      if contains u.session_id slot.awaiting_first_prompt
      then record { slot = slot'; delivered = none; completed = none }
      else elim (get u.session_id slot.reverse_map) [
        | none ↦ record { slot = slot'; delivered = none; completed = none }
        | some key ↦
            if sender
            then record {
              slot = slot';
              delivered = some (key, u.content);
              completed = if u.is_result then some key else none;
            }
            else record { slot = slot'; delivered = none; completed = none }
      ]

  -- `params.requestId` if it is a string that is not empty, or else the id of the request.
  unfoldable pub permission_request_id : PermissionRequest Permission → Text
  permission_request_id p =
      let rpc : Text = elim p.rpc_id [ none ↦ [] | some t ↦ t ] in
      elim p.param_request_id [ none ↦ rpc | some t ↦ if is_empty t then rpc else t ]

  -- What goes out: a question to the channel of the session, or an answer to the agent, which
  -- carries the request's id and the option chosen.
  pub data Outgoing : Type 0 where
    route_permission : SessionKey → Text → List Text → Outgoing
    answer : Text → Text → Outgoing
    nothing : Outgoing

  unfoldable pub auto_option : List Text → Text
  auto_option [] = bytes "once"
  auto_option (o ∷ options) = o

  unfoldable pub auto_approve :
      PermissionRequest Permission → Text → AgentSlot out → AgentSlot out × Outgoing
  unfolding auto_option
  auto_approve p request_id slot = elim slot.connection [
    | none ↦ (slot, nothing)
    | some c ↦ (slot, answer request_id (auto_option p.options))
  ]

  -- `sender` is none with no channels manager, and tells else whether the event could be sent.
  unfoldable pub handle_permission_request :
      Option Bool → PermissionRequest Permission → AgentSlot out → AgentSlot out × Outgoing
  unfolding auto_approve permission_request_id
  handle_permission_request sender p slot =
      let request_id = permission_request_id p in
      elim (get p.session_id slot.reverse_map) [
        | none ↦ auto_approve p request_id slot
        | some key ↦ elim sender [
          | none ↦ auto_approve p request_id slot
          | some false ↦ auto_approve p request_id slot
          | some true ↦ (
            record slot {
              pending_permissions = insert request_id p.pending slot.pending_permissions;
            },
            route_permission key request_id p.options,
          )
        ]
      ]

  -- `AgentsCommand::RespondPermission`: the first slot in which the request is pending answers.
  -- The pending request comes back with the option, if its agent is connected.
  unfoldable pub respond_permission :
      Text → Text → List (AgentSlot out) → List (AgentSlot out) × Option (Permission × Text)
  respond_permission request_id option_id [] = ([], none)
  respond_permission request_id option_id (slot ∷ slots) =
      let (slots', sent) = respond_permission request_id option_id slots in
      elim (get request_id slot.pending_permissions) [
        | none ↦ (slot ∷ slots', sent)
        | some perm ↦ (
          record slot { pending_permissions = remove request_id slot.pending_permissions } ∷ slots,
          elim slot.connection [ none ↦ none | some c ↦ some (perm, option_id) ],
        )
      ]
