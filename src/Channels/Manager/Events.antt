-- ===== src/Channels/Manager/Events.antt =====
-- crates/anyclaw-channels/src/manager.rs: what the agents manager and the supervisor ask for, the
-- events of crates/anyclaw-sdk-types/src/channel_event.rs and the commands. The options of a
-- permission stand as the JSON value that they are serialized to.
pub mod View
pub mod Steps
pub mod Turns
use protoclaw.Base.{
  Bool, true, false, Option, none, some, List, [], ◌∷◌, ◌++◌, map, get_elem?, if◌then◌else◌, nat_eq,
  list_eq,
}
use protoclaw.Base.Map.{get, contains, add, discard}
use protoclaw.Base.Text.{Text, bytes}
use protoclaw.SdkTypes.SessionKey.{SessionKey}
use protoclaw.SdkTypes.Message.{StopReason}
use protoclaw.Channels.Manager.{
  RoutingEntry, Outside, ChannelSlot, Notification, deliver_message, forwarded, response_started,
  response_completed, typing_indicator, request_permission, AgentsCommand, respond_permission, Sent,
  ChannelsManager, Outcome, notify, on_entry, send_ack_to_channel,
}

abbrev pub or_panic : {A B : Type 0} → (A → B) → Option A → Option B
or_panic f none = none
or_panic f (some a) = some (f a)

module _ (out : Outside) where
  open out use {json}

  pub data ChannelEvent : Type 0 where
    deliver : SessionKey → json.Value → ChannelEvent
    session_complete : SessionKey → StopReason → ChannelEvent
    route_permission : SessionKey → Text → Text → json.Value → ChannelEvent
    ack : SessionKey → Text → Text → Option Text → ChannelEvent
    dispatch_started : SessionKey → ChannelEvent

  pub data ChannelsCommand : Type 0 where
    deliver_to_channel : Text → json.Value → ChannelsCommand
    permission_to_channel : Text → Text → Text → json.Value → ChannelsCommand
    shutdown : ChannelsCommand

  -- The content, and before the first one since the dispatch that the response has started.
  unfoldable pub handle_deliver_message :
      SessionKey → json.Value → ChannelsManager out → Outcome out
  unfolding notify
  handle_deliver_message key content m = elim (get key m.routing_table) [
    | none ↦ some (m, [])
    | some entry ↦ elim (get_elem? m.slots entry.slot_index) [
      | none ↦ none
      | some slot ↦
          let sent = notify out slot (deliver_message entry.acp_session_id (forwarded content)) in
          if contains key m.acked_sessions
          then some (m, sent)
          else some (
            record m { acked_sessions = add key m.acked_sessions },
            notify out slot (response_started entry.acp_session_id) ++ sent,
          )
    ]
  ]

  unfoldable pub handle_session_complete :
      SessionKey → StopReason → ChannelsManager out → Outcome out
  unfolding notify on_entry
  handle_session_complete key reason m =
      or_panic (λ sent. (m, sent))
        (on_entry out m key
          (λ entry slot. notify out slot (response_completed entry.acp_session_id reason)))

  unfoldable pub handle_dispatch_started : SessionKey → ChannelsManager out → Outcome out
  unfolding notify on_entry send_ack_to_channel
  handle_dispatch_started key m =
      let m' : ChannelsManager out = record m { acked_sessions = discard key m.acked_sessions } in
      elim (send_ack_to_channel out m' key) [
        | none ↦ none
        | some acked ↦
            or_panic (λ sent. (m', acked ++ sent))
              (on_entry out m' key
                (λ entry slot. notify out slot (typing_indicator entry.acp_session_id slot.name)))
      ]

  unfoldable pub route_permission_event :
      SessionKey → Text → Text → json.Value → ChannelsManager out → Outcome out
  unfolding notify on_entry
  route_permission_event key id description options m =
      or_panic (λ sent. (m, sent))
        (on_entry out m key (λ entry slot.
          notify out slot (request_permission id entry.acp_session_id description options)))

  unfoldable pub handle_channel_event : ChannelEvent → ChannelsManager out → Outcome out
  unfolding handle_deliver_message handle_session_complete route_permission_event
      handle_dispatch_started
  handle_channel_event (deliver key content) m = handle_deliver_message key content m
  handle_channel_event (session_complete key reason) m = handle_session_complete key reason m
  handle_channel_event (route_permission key id description options) m =
      route_permission_event key id description options m
  handle_channel_event (ack key name peer id) m = some (m, [])
  handle_channel_event (dispatch_started key) m = handle_dispatch_started key m

  -- How the wait for the answer to a permission request ends; `elapsed` only where the manager has
  -- a time limit.
  pub data Wait : Type 0 where
    answered : Option json.Value → Wait
    closed : Wait
    elapsed : Wait

  unfoldable pub option_id : Option json.Value → Text
  option_id none = bytes "once"
  option_id (some result) = elim (json.field (bytes "optionId") result) [
    | none ↦ bytes "once"
    | some value ↦ elim (json.as_str value) [ none ↦ bytes "once" | some id ↦ id ]
  ]

  -- The task that waits for the answer, with a handle of the agents manager.
  unfoldable pub permission_answer : Text → Wait → AgentsCommand out
  unfolding option_id
  permission_answer id (answered result) = respond_permission id (option_id result)
  permission_answer id closed = respond_permission id (bytes "denied")
  permission_answer id elapsed = respond_permission id (bytes "denied")

  unfoldable pub shutdown_slot : (out.Token → out.Token) → ChannelSlot out → ChannelSlot out
  shutdown_slot cancel slot = record slot {
    lifecycle = record slot.lifecycle { cancel_token = cancel slot.lifecycle.cancel_token };
    connection = none;
  }

  -- Cancels each token and takes each connection down.
  unfoldable pub shutdown_all :
      (out.Token → out.Token) → List (ChannelSlot out) → List (ChannelSlot out)
  unfolding shutdown_slot
  shutdown_all cancel slots = map (shutdown_slot cancel) slots

  -- With the answer whether the manager stops. A key is taken as it is, as `From<&str>` does.
  unfoldable pub handle_command :
      (out.Token → out.Token)
      → ChannelsCommand
      → ChannelsManager out
      → Option (ChannelsManager out × List (Sent out) × Bool)
  unfolding notify on_entry shutdown_all
  handle_command cancel (deliver_to_channel key content) m =
      or_panic (λ sent. (m, sent, false))
        (on_entry out m key (λ entry slot.
          notify out slot (deliver_message entry.acp_session_id (forwarded content))))
  handle_command cancel (permission_to_channel key id description options) m =
      or_panic (λ sent. (m, sent, false))
        (on_entry out m key (λ entry slot.
          notify out slot (request_permission id entry.acp_session_id description options)))
  handle_command cancel shutdown m =
      some (record m { slots = shutdown_all cancel m.slots }, [], true)
