-- ===== src/Channels/Manager/Events/View.antt =====
-- The events of the agents manager in a sequence, and what a single session makes of its own
-- events.
use protoclaw.Base.{
  Bool, true, false, Option, none, some, List, [], ◌∷◌, ◌++◌, if◌then◌else◌, ◌=?◌, nat_eq, list_eq,
}
use protoclaw.Base.Text.{Text}
use protoclaw.SdkTypes.SessionKey.{SessionKey}
use protoclaw.Channels.Manager.{
  Outside, Notification, deliver_message, forwarded, response_started, response_completed,
  ack_message, typing_indicator, request_permission, after_colons, Sent, ChannelsManager,
}
use protoclaw.Channels.Manager.Events.{
  ChannelEvent, deliver, session_complete, route_permission, ack, dispatch_started,
  handle_channel_event,
}

module _ (out : Outside) where
  unfoldable pub key_of : ChannelEvent out → SessionKey
  key_of (deliver key content) = key
  key_of (session_complete key reason) = key
  key_of (route_permission key id description options) = key
  key_of (ack key name peer id) = key
  key_of (dispatch_started key) = key

  -- The events in their order, with what each of them sends.
  unfoldable pub run_events :
      List (ChannelEvent out)
      → ChannelsManager out
      → Option (ChannelsManager out × List (SessionKey × List (Sent out)))
  unfolding handle_channel_event key_of
  run_events [] m = some (m, [])
  run_events (event ∷ events) m = elim (handle_channel_event out event m) [
    | none ↦ none
    | some (m', sent) ↦ elim (run_events events m') [
      | none ↦ none
      | some (m'', more) ↦ some (m'', (key_of event, sent) ∷ more)
    ]
  ]

  unfoldable pub sent_for : SessionKey → List (SessionKey × List (Sent out)) → List (Sent out)
  sent_for key [] = []
  sent_for key ((k, sent) ∷ more) =
      let rest = sent_for key more in if k =? key then sent ++ rest else rest

  unfoldable pub events_of : SessionKey → List (ChannelEvent out) → List (ChannelEvent out)
  unfolding key_of
  events_of key [] = []
  events_of key (event ∷ events) =
      let rest = events_of key events in if key_of event =? key then event ∷ rest else rest

  -- What one session of the ACP id `id` and the slot's name sends for its events alone:
  -- `started` says whether the response has started since the last dispatch.
  unfoldable pub session_view :
      SessionKey → Text → Text → Bool → List (ChannelEvent out) → List (Notification out)
  unfolding after_colons
  session_view key id name started [] = []
  session_view key id name true (deliver k content ∷ events) =
      deliver_message id (forwarded content) ∷ session_view key id name true events
  session_view key id name false (deliver k content ∷ events) =
      response_started id
      ∷ deliver_message id (forwarded content)
      ∷ session_view key id name true events
  session_view key id name started (session_complete k reason ∷ events) =
      response_completed id reason ∷ session_view key id name started events
  session_view key id name started (route_permission k request description options ∷ events) =
      request_permission request id description options ∷ session_view key id name started events
  session_view key id name started (ack k channel peer message ∷ events) =
      session_view key id name started events
  session_view key id name started (dispatch_started k ∷ events) =
      ack_message id name (after_colons 2 key)
      ∷ typing_indicator id name
      ∷ session_view key id name false events
