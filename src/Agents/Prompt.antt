-- ===== src/Agents/Prompt.antt =====
-- crates/anyclaw-agents/src/commands.rs: sending a message of a user to an agent, and the platform
-- commands. The agent's slot has been found by its name; there is one queue for all sessions.
pub mod Context
pub mod Sessions
pub mod ToolContext
pub mod Waiting
use protoclaw.Base.{
  ℕ, Bool, true, false, not, Option, none, some, List, [], ◌∷◌, ◌++◌, map, if◌then◌else◌, nat_eq,
  list_eq,
}
use protoclaw.Base.Map.{get, contains, add, discard}
use protoclaw.Base.Text.{Text, bytes}
use protoclaw.SdkTypes.SessionKey.{SessionKey}
use protoclaw.SdkTypes.Message.{ContentPart, text, MessageMetadata, StopReason, cancelled}
use protoclaw.Agents.SessionQueue.{
  SessionQueue, RichPayload, push, push_only, flush_pending, mark_idle, is_active,
}
use protoclaw.Agents.Slot.{AgentsError, connection_closed, Result, ok, err, Outside, AgentSlot}
use protoclaw.Agents.Sessions.{Replies, Stored, heal_session, new_conversation, cancel_session}
use protoclaw.Agents.Prompt.Context.{
  PlatformCommand, new_command, cancel_command, platform_command, build_reply_context,
}

-- The JSON content of a message for a channel, as far as the manager makes it.
pub data Content : Type 0 where
  message_chunk : Text → Content
  empty_result : Content
  error_result : Text → Content
  stopped_result : Text → StopReason → Content

-- What goes out: events for the channels, requests to the agent, records for the store.
pub data Sent : Type 0 where
  dispatch_started : SessionKey → Sent
  deliver_message : SessionKey → Content → Sent
  session_complete : SessionKey → StopReason → Sent
  session_prompt : Text → List ContentPart → Sent
  session_cancel : Text → Sent
  upsert_session : Stored → Sent

abbrev pub Queue : Type 0
Queue = SessionQueue SessionKey ContentPart MessageMetadata

-- The answers during one call: those of the sessions' requests, whether session/cancel and
-- session/prompt could be sent, and whether a channels manager is connected.
pub record Answers : Type 0 where
  pub replies : Replies
  pub cancel_sent : Result (Unit {0})
  pub prompt_sent : Result (Unit {0})
  pub sender : Bool

abbrev pub send_synthetic_chunk : Bool → SessionKey → Text → List Sent
send_synthetic_chunk false key message = []
send_synthetic_chunk true key message =
    dispatch_started key ∷ deliver_message key (message_chunk message) ∷ []

abbrev send_synthetic_response : Bool → SessionKey → Text → StopReason → List Sent
send_synthetic_response false key message reason = []
send_synthetic_response true key message reason =
    send_synthetic_chunk true key message
    ++ (deliver_message key empty_result ∷ session_complete key reason ∷ [])

unfoldable pub reply_context : Option MessageMetadata → List ContentPart
reply_context none = []
reply_context (some m) = elim (build_reply_context m) [ none ↦ [] | some t ↦ text t ∷ [] ]

abbrev pub announce : Answers → SessionKey → List Sent
announce a key = if a.sender then dispatch_started key ∷ [] else []

module _ (out : Outside) where
  pub record Desk : Type 0 where
    pub slot : AgentSlot out
    pub queue : Queue

  abbrev pub Outcome : Type 0
  Outcome = Desk × List Sent × Result (Unit {0})

  unfoldable pub run_new : Answers → SessionKey → Desk → Outcome
  run_new a key d =
      let (slot', result, stored) = new_conversation out key a.replies d.slot in
      elim result [
        | err e ↦ (record d { slot = slot' }, map upsert_session stored, err e)
        | ok id ↦ (
          record { slot = slot'; queue = (mark_idle key d.queue).0 },
          map upsert_session stored
              ++ send_synthetic_chunk a.sender key (bytes "New conversation started."),
          ok tt,
        )
      ]

  unfoldable pub run_cancel : Answers → SessionKey → Desk → Outcome
  run_cancel a key d = elim (cancel_session out key a.cancel_sent d.slot) [
    | err e ↦ (
      d,
      send_synthetic_response a.sender key (bytes "No active operation to cancel.") cancelled,
      ok tt,
    )
    | ok id ↦ (
      record d { queue = (mark_idle key d.queue).0 },
      session_cancel id ∷ send_synthetic_chunk a.sender key (bytes "Operation cancelled."),
      ok tt,
    )
  ]

  unfoldable pub handle_platform_command : PlatformCommand → Answers → SessionKey → Desk → Outcome
  unfolding run_new run_cancel
  handle_platform_command new_command a key d = run_new a key d
  handle_platform_command cancel_command a key d = run_cancel a key d

  -- The tool context goes before the first prompt of an ACP session.
  unfoldable pub add_tool_context : Text → AgentSlot out → AgentSlot out × List ContentPart
  add_tool_context id slot =
      if contains id slot.tool_context_sent then (slot, []) else elim slot.tool_context [
        | none ↦ (slot, [])
        | some ctx ↦
            (record slot { tool_context_sent = add id slot.tool_context_sent }, text ctx ∷ [])
      ]

  -- session/prompt is sent for the ACP id.
  unfoldable pub pass_prompt :
      Answers
      → Text
      → List ContentPart
      → AgentSlot out
      → AgentSlot out × List Sent × Result (Unit {0})
  pass_prompt a id prompt_parts slot = elim slot.connection [
    | none ↦ (slot, [], err connection_closed)
    | some c ↦ elim a.prompt_sent [
      | err e ↦ (slot, [], err e)
      | ok u ↦ (
        record slot { active_prompts = add id slot.active_prompts },
        session_prompt id prompt_parts ∷ [],
        ok tt,
      )
    ]
  ]

  -- From its first prompt on, the session's updates are no longer held back.
  unfoldable pub send_prompt :
      Answers
      → Text
      → RichPayload ContentPart MessageMetadata
      → AgentSlot out
      → AgentSlot out × List Sent × Result (Unit {0})
  unfolding pass_prompt
  send_prompt a id (content, metadata) slot =
      let (slot', context) =
        add_tool_context id
          (record slot { awaiting_first_prompt = discard id slot.awaiting_first_prompt }) in
      pass_prompt a id (context ++ (reply_context metadata ++ content)) slot'

  -- The open session's ACP id is prompted.
  prompt_open :
      Answers
      → SessionKey
      → RichPayload ContentPart MessageMetadata
      → AgentSlot out
      → AgentSlot out × List Sent × Result (Unit {0})
  unfolding send_prompt
  prompt_open a key payload slot = elim (get key slot.session_map) [
    | none ↦ (slot, [], err connection_closed)
    | some id ↦ send_prompt a id payload slot
  ]

  -- A session that is not open is healed first.
  unfoldable pub prompt_agent :
      Answers
      → SessionKey
      → RichPayload ContentPart MessageMetadata
      → AgentSlot out
      → AgentSlot out × List Sent × Result (Unit {0})
  unfolding prompt_open
  prompt_agent a key payload slot = elim (get key slot.session_map) [
    | some id ↦ send_prompt a id payload slot
    | none ↦
        let (healed, result, stored) = heal_session out key a.replies slot in
        elim result [
          | err e ↦ (healed, map upsert_session stored, err e)
          | ok u ↦
              let (slot', sent, result') = prompt_open a key payload healed in
              (slot', map upsert_session stored ++ sent, result')
        ]
  ]

  unfoldable pub prompt_session :
      Answers → SessionKey → RichPayload ContentPart MessageMetadata → Desk → Outcome
  unfolding handle_platform_command prompt_agent
  prompt_session a key payload d = elim (platform_command payload.0) [
    | some cmd ↦ handle_platform_command cmd a key d
    | none ↦
        let (slot', sent, result) = prompt_agent a key payload d.slot in
        (record d { slot = slot' }, sent, result)
  ]

  unfoldable pub flush_and_dispatch : Answers → SessionKey → Desk → Outcome
  unfolding prompt_session
  flush_and_dispatch a key d =
      let (queue', batch) = flush_pending key d.queue in
      elim batch [
        | none ↦ (record d { queue = queue' }, [], ok tt)
        | some payload ↦
            let (d', sent, result) = prompt_session a key payload (record d { queue = queue' }) in
            (d', announce a key ++ sent, result)
      ]

  -- `AgentsCommand::EnqueueMessage`.
  unfoldable pub enqueue_message :
      Answers → SessionKey → RichPayload ContentPart MessageMetadata → Desk → Outcome
  unfolding handle_platform_command flush_and_dispatch
  enqueue_message a key payload d = elim (platform_command payload.0) [
    | some cmd ↦ handle_platform_command cmd a key d
    | none ↦
        if is_active key d.queue
        then (record d { queue = (push key payload d.queue).0 }, [], ok tt)
        else flush_and_dispatch a key (record d { queue = (push_only key payload d.queue).0 })
  ]
