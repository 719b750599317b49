-- ===== src/Channels/Manager/Forward.antt =====
-- crates/anyclaw-channels/src/manager.rs: what the channels manager asks of the agents manager for
-- a message: a session, and to enqueue the message.
use protoclaw.Base.{
  ℕ, Bool, true, false, ◌&&◌, Option, none, some, List, [], ◌∷◌, ◌++◌, if◌then◌else◌, nat_eq,
  list_eq,
}
use protoclaw.Base.Map.{get, insert}
use protoclaw.Base.Text.{Text, bytes}
use protoclaw.SdkTypes.SessionKey.{SessionKey}
use protoclaw.Channels.Manager.{
  ChannelSendMessage, RoutingEntry, Outside, ChannelSlot, deliver_message, error_result,
  session_created, create_session, enqueue_message, respond_permission, Sent, to_agents,
  ChannelsManager, Outcome, notify, on_entry,
}
use protoclaw.Channels.Manager.Messages.{build_session_key}

-- How a request to the agents manager ends.
pub data Reply (A : Type 0) : Type 0 where
  send_failed : Reply A
  answered : A → Reply A
  failed : Text → Reply A
  dropped : Reply A

-- The answers of the context store and of the agents manager while one message is handled, and
-- the time in seconds. An operation of the store that fails changes no row.
pub record Answers : Type 0 where
  pub now : ℕ
  pub store_failed : Bool
  pub take_failed : Bool
  pub created : Reply Text
  pub enqueued : Reply (Unit {0})
  pub responded : Bool

module _ (out : Outside) where
  open out use {json}

  -- Whether the session is there, made by the agents manager if it is not.
  unfoldable pub ensure_session_created :
      Reply Text
      → ℕ
      → ChannelSlot out
      → SessionKey
      → ChannelSendMessage
      → ChannelsManager out
      → Bool × ChannelsManager out × List (Sent out)
  unfolding notify
  ensure_session_created created slot_index slot key msg m = elim (get key m.routing_table) [
    | some entry ↦ (true, m, [])
    | none ↦
        let request = to_agents (create_session slot.agent key) in
        elim created [
          | send_failed ↦ (false, m, [])
          | answered id ↦
              let entry : RoutingEntry = record {
                channel_id = slot.channel_id;
                acp_session_id = id;
                slot_index = slot_index;
                agent_name = slot.agent;
              } in
              (
                true,
                record m { routing_table = insert key entry m.routing_table },
                request ∷ notify out slot (session_created id msg.peer_info),
              )
          | failed e ↦ (
            false,
            m,
            request
                ∷ notify out slot
                    (deliver_message [] (error_result (bytes "Failed to create session: " ++ e))),
          )
          | dropped ↦ (
            false,
            m,
            request
                ∷ notify out slot (
                    deliver_message [] (
                      error_result
                        (bytes "Failed to create session: internal error (reply dropped)"))),
          )
        ]
  ]

  -- Only called where there is a handle of the agents manager.
  unfoldable pub enqueue_to_agent :
      Reply (Unit {0})
      → SessionKey
      → ChannelSendMessage
      → Text
      → ChannelsManager out
      → Option (List (Sent out))
  unfolding on_entry notify
  enqueue_to_agent reply key msg agent m =
      let request = to_agents (enqueue_message agent key msg.content msg.metadata) in
      elim reply [
        | send_failed ↦ some []
        | answered u ↦ some (request ∷ [])
        | failed e ↦
            elim (on_entry out m key (λ entry slot. notify out slot (
              deliver_message entry.acp_session_id
                (error_result (bytes "Session recovery failed: " ++ e))))) [
                  | none ↦ none
                  | some sent ↦ some (request ∷ sent)
                ]
        | dropped ↦ some (request ∷ [])
      ]

  -- Goes no further without a handle of the agents manager, then without a session.
  unfoldable pub finish :
      (handle ready : Bool)
      → ChannelsManager out
      → ChannelsManager out × List (Sent out)
      → Option (List (Sent out))
      → Outcome out
  finish false ready m after enqueued = some (m, [])
  finish true false m after enqueued = some after
  finish true true m after none = none
  finish true true m (m', sent) (some sent') = some (m', sent ++ sent')

  unfoldable pub forward :
      Answers → ℕ → ChannelSlot out → ChannelSendMessage → ChannelsManager out → Outcome out
  unfolding finish ensure_session_created enqueue_to_agent build_session_key
  forward a slot_index slot msg m =
      let key = build_session_key msg in
      let (ready, m', sent) = ensure_session_created a.created slot_index slot key msg m in
      finish m.agents_handle ready m (m', sent) (enqueue_to_agent a.enqueued key msg slot.agent m')

  unfoldable pub handle_respond_permission :
      Bool → json.Value → ChannelsManager out → List (Sent out)
  handle_respond_permission responded params m = elim (out.respond_permission params) [
    | none ↦ []
    | some resp ↦
        if m.agents_handle && responded
        then to_agents (respond_permission resp.request_id resp.option_id) ∷ []
        else []
  ]
