-- ===== src/Agents/Completion.antt =====
-- The end of a prompt: `handle_prompt_completion` of crates/anyclaw-agents/src/incoming.rs, with
-- `cancel_session_by_key` of commands.rs. The messages of the agent that it handles first are
-- steps of their own.
pub mod Expiry
pub mod Next
pub mod Untold
use protoclaw.Base.{
  Bool, true, false, not, Option, none, some, List, [], ◌∷◌, ◌++◌, map, if◌then◌else◌, ◌=?◌, nat_eq,
  list_eq, is_empty,
}
use protoclaw.Base.Map.{Set, get, contains, discard}
use protoclaw.Base.Text.{Text}
use protoclaw.SdkTypes.SessionKey.{SessionKey}
use protoclaw.SdkTypes.Message.{ContentPart, MessageMetadata, StopReason}
use protoclaw.Agents.SessionQueue.{RichPayload}
use protoclaw.Agents.SessionQueue.Dispatch.{complete}
use protoclaw.Agents.Slot.{Result, ok, err, Outside, AgentSlot}
use protoclaw.Agents.Sessions.{expire_session}
use protoclaw.Agents.Prompt.{
  Answers, Queue, Sent, deliver_message, session_complete, session_cancel, error_result,
  stopped_result, announce, prompt_session,
}

pub record PromptCompletion : Type 0 where
  pub session_key : SessionKey
  pub session_expired : Bool
  pub idle_timed_out : Bool
  pub error_message : Option Text
  pub stop_reason : StopReason

module _ (out : Outside) where
  pub record AgentsManager : Type 0 where
    pub slots : List (AgentSlot out)
    pub queue : Queue
    pub streaming_completed : Set SessionKey

  -- The first slot that has the session.
  unfoldable pub find_session : SessionKey → List (AgentSlot out) → Option (AgentSlot out × Text)
  find_session key [] = none
  find_session key (slot ∷ slots) =
      let later = find_session key slots in
      elim (get key slot.session_map) [ none ↦ later | some id ↦ some (slot, id) ]

  unfoldable pub cancel_session_by_key :
      Result (Unit {0}) → SessionKey → List (AgentSlot out) → List Sent
  unfolding find_session
  cancel_session_by_key sent key slots = elim (find_session key slots) [
    | none ↦ []
    | some (slot, id) ↦ elim slot.connection [
      | none ↦ []
      | some c ↦ elim sent [ ok u ↦ session_cancel id ∷ [] | err e ↦ [] ]
    ]
  ]

  -- The result for the channel, unless the agent has streamed one: its error, or the reason why
  -- the prompt stopped, with the ACP id if the session still has one.
  unfoldable pub final_result : PromptCompletion → List (AgentSlot out) → List Sent
  unfolding find_session
  final_result c slots = elim c.error_message [
    | some e ↦ deliver_message c.session_key (error_result e) ∷ []
    | none ↦
        let id : Text = elim (find_session c.session_key slots) [
          | none ↦ []
          | some (slot, id) ↦ id
        ] in
        deliver_message c.session_key (stopped_result id c.stop_reason) ∷ []
  ]

  unfoldable pub report_completion :
      Bool → PromptCompletion → Set SessionKey → List (AgentSlot out) → List Sent
  unfolding final_result
  report_completion sender c streamed slots =
      if sender
      then (if contains c.session_key streamed then [] else final_result c slots)
        ++ (session_complete c.session_key c.stop_reason ∷ [])
      else []

  -- `prompt_session` for the first slot of the name.
  unfoldable pub prompt_slot :
      Answers
      → Text
      → SessionKey
      → RichPayload ContentPart MessageMetadata
      → List (AgentSlot out)
      → Queue
      → List (AgentSlot out) × Queue × List Sent
  prompt_slot a name key payload [] queue = ([], queue, [])
  prompt_slot a name key payload (slot ∷ slots) queue =
      let (later, queue', sent) = prompt_slot a name key payload slots queue in
      if slot.name =? name
      then (let (d, sent', result) =
            prompt_session out a key payload (record { slot = slot; queue = queue }) in
          (d.slot ∷ slots, d.queue, sent'))
      else (slot ∷ later, queue', sent)

  -- The next messages go to the agent whose slot has the session.
  unfoldable pub dispatch_next :
      Answers
      → SessionKey
      → Option (RichPayload ContentPart MessageMetadata)
      → List (AgentSlot out)
      → Queue
      → List (AgentSlot out) × Queue × List Sent
  unfolding find_session prompt_slot
  dispatch_next a key none slots queue = (slots, queue, [])
  dispatch_next a key (some payload) slots queue = elim (find_session key slots) [
    | none ↦ (slots, queue, [])
    | some (slot, id) ↦
        if is_empty slot.name
        then (slots, queue, [])
        else (let (slots', queue', sent) = prompt_slot a slot.name key payload slots queue in
            (slots', queue', announce a key ++ sent))
  ]

  unfoldable pub handle_prompt_completion :
      Answers → PromptCompletion → AgentsManager → AgentsManager × List Sent
  unfolding cancel_session_by_key report_completion dispatch_next
  handle_prompt_completion a c m =
      let key = c.session_key in
      let cancelled =
        if c.idle_timed_out then cancel_session_by_key a.cancel_sent key m.slots else [] in
      let kept = if c.session_expired then map (expire_session out key) m.slots else m.slots in
      let reported = report_completion a.sender c m.streaming_completed kept in
      let (queue', next) = complete key m.queue in
      let (slots', queue'', sent) = dispatch_next a key next kept queue' in
      (
        record {
          slots = slots';
          queue = queue'';
          streaming_completed = discard key m.streaming_completed;
        },
        cancelled ++ (reported ++ sent),
      )
