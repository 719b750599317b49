-- ===== src/Channels/Manager/Collect.antt =====
-- crates/anyclaw-channels/src/manager.rs: a message of a channel, from its frame to the commands
-- for the agents manager.
pub mod Gate
pub mod Routing
pub mod Runs
use protoclaw.Base.{
  ℕ, Bool, true, false, not, ◌&&◌, Option, none, some, List, [], ◌∷◌, ◌++◌, get_elem?, is_empty,
  if◌then◌else◌, ltb, ◌=?◌, nat_eq, list_eq,
}
use protoclaw.Base.Map.{get, insert}
use protoclaw.Base.Text.{Text, bytes}
use protoclaw.SdkTypes.SessionKey.{SessionKey}
use protoclaw.SdkTypes.Message.{ContentPart, text, MessageMetadata}
use protoclaw.Channels.AccessControl.{
  AccessConfig, AccessDecision, allow, deny, skip_no_mention, unwrap_or, evaluate_access,
  should_suppress_reply_context,
}
use protoclaw.Channels.AccessControl.Options.{from_options, ◌>>=◌}
use protoclaw.Channels.Context.{store_context, take_context}
use protoclaw.Channels.Manager.{
  ChannelSendMessage, ChannelRespondPermission, RoutingEntry, Outside, ChannelSlot, deliver_message,
  error_result, session_created, create_session, enqueue_message, respond_permission, Sent,
  to_agents, ChannelsManager, Outcome, notify, on_entry,
}
use protoclaw.Channels.Manager.Messages.{
  format_context_block, build_session_key, is_group, bot_mentioned, identity, chat_id,
  context_message, reply_identity,
}
use protoclaw.Channels.Manager.Forward.{Reply, Answers, forward, handle_respond_permission}

module _ (out : Outside) where
  open out use {json}

  unfoldable pub history_limit : json.Value → ℕ
  history_limit options =
      unwrap_or (json.field (bytes "context_history_limit") options >>= out.as_u64) 50

  unfoldable pub remembers : Answers → json.Value → Bool
  unfolding history_limit
  remembers a options = ltb 0 (history_limit options) && not a.store_failed

  -- Keeps a message that does not mention the bot, if the limit of the options is not 0.
  unfoldable pub remember :
      Answers → json.Value → ChannelSendMessage → ChannelsManager out → ChannelsManager out
  unfolding context_message store_context remembers history_limit
  remember a options msg m =
      if remembers a options
      then record m {
        context_store =
            store_context (context_message a.now msg) (history_limit options) m.context_store;
      }
      else m

  -- The messages kept for the group, in front of the content of a message that mentions the bot.
  unfoldable pub with_context :
      Answers → ChannelSendMessage → ChannelsManager out → ChannelSendMessage × ChannelsManager out
  unfolding is_group bot_mentioned take_context format_context_block
  with_context a msg m =
      if is_group msg && bot_mentioned msg && not a.take_failed
      then (let (messages, rows) = take_context msg.peer_info.peer_id m.context_store in
          (
            if is_empty messages
                then msg
                else record msg { content = text (format_context_block messages) ∷ msg.content },
            record m { context_store = rows },
          ))
      else (msg, m)

  -- Without the metadata of a reply to someone who may not write in the group.
  unfoldable pub suppressed : AccessConfig → ChannelSendMessage → ChannelSendMessage
  unfolding is_group should_suppress_reply_context chat_id reply_identity
  suppressed cfg msg = elim msg.metadata [
    | none ↦ msg
    | some meta ↦
        if is_group msg
          && should_suppress_reply_context cfg (chat_id msg) (reply_identity meta) true
        then record msg { metadata = none }
        else msg
  ]

  -- The decision on a message, from the options of its channel.
  unfoldable pub decision : json.Value → ChannelSendMessage → AccessDecision
  unfolding evaluate_access from_options chat_id identity is_group bot_mentioned
  decision options msg =
      evaluate_access (from_options json out.to_lowercase options) (chat_id msg)
        (identity msg.sender_info) (is_group msg) (bot_mentioned msg)

  unfoldable pub gated :
      Answers
      → ℕ
      → ChannelSlot out
      → json.Value
      → ChannelSendMessage
      → ChannelsManager out
      → AccessDecision
      → Outcome out
  unfolding remember with_context suppressed forward from_options
  gated a slot_index slot options msg m (deny reason) = some (m, [])
  gated a slot_index slot options msg m skip_no_mention = some (remember a options msg m, [])
  gated a slot_index slot options msg m allow =
      let (msg', m') = with_context a msg m in
      let cfg = from_options json out.to_lowercase options in
      forward out a slot_index slot (suppressed cfg msg') m'

  unfoldable pub collect_parsed :
      Answers → ℕ → ChannelSlot out → ChannelSendMessage → ChannelsManager out → Outcome out
  unfolding gated decision forward
  collect_parsed a slot_index slot msg m =
      let options = out.to_value slot.options in
      elim (json.field (bytes "access_control") options) [
        | none ↦ forward out a slot_index slot msg m
        | some ac ↦ gated a slot_index slot options msg m (decision options msg)
      ]

  unfoldable pub collect_send_message : Answers → ℕ → json.Value → ChannelsManager out → Outcome out
  unfolding collect_parsed
  collect_send_message a slot_index params m = elim (out.send_message params) [
    | none ↦ some (m, [])
    | some msg ↦ elim (get_elem? m.slots slot_index) [
      | none ↦ none
      | some slot ↦ collect_parsed a slot_index slot msg m
    ]
  ]

  -- A request and a notification are handled alike: by the method and the parameters.
  unfoldable pub collect_channel_message :
      Answers → ℕ → Text → Option json.Value → ChannelsManager out → Outcome out
  unfolding collect_send_message handle_respond_permission
  collect_channel_message a slot_index method params m = elim (get_elem? m.slots slot_index) [
    | none ↦ none
    | some slot ↦
        let value = unwrap_or params out.null in
        if method =? bytes "channel/sendMessage"
        then collect_send_message a slot_index value m
        else if method =? bytes "channel/respondPermission"
        then some (m, handle_respond_permission out a.responded value m)
        else some (m, [])
  ]
