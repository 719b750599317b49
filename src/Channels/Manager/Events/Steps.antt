-- ===== src/Channels/Manager/Events/Steps.antt =====
-- What one event changes and sends.
use protoclaw.Base.{
  ◌≡◌, refl, Bool, true, false, none, some, List, [], ◌∷◌, ◌++◌, map, if◌then◌else◌, ◌=?◌, nat_eq,
  list_eq, eq_self, Bool-cases, inl, inr, arith,
}
use protoclaw.Base.Map.{Set, get, contains, add, discard, contains-add, contains-discard}
use protoclaw.Base.Text.{Text}
use protoclaw.SdkTypes.SessionKey.{SessionKey}
use protoclaw.Channels.Manager.{
  RoutingEntry, Outside, ChannelSlot, deliver_message, forwarded, response_started,
  response_completed, ack_message, typing_indicator, request_permission, after_colons, Sent,
  to_channel, ChannelsManager, notify, on_entry, send_ack_to_channel,
}
use protoclaw.Channels.Manager.Routes.{Routable, Found, route-cases, on_entry-none, on_entry-Found}
use protoclaw.Channels.Manager.Events.{
  ChannelEvent, deliver, session_complete, route_permission, ack, dispatch_started,
  handle_deliver_message, handle_session_complete, handle_dispatch_started, route_permission_event,
  handle_channel_event,
}
use protoclaw.Channels.Manager.Events.View.{key_of, session_view}

module _ (out : Outside) where
  unfoldable pub next_acked : ChannelEvent out → ChannelsManager out → Set SessionKey
  next_acked (deliver key content) m = elim (get key m.routing_table) [
    | none ↦ m.acked_sessions
    | some entry ↦
        if contains key m.acked_sessions then m.acked_sessions else add key m.acked_sessions
  ]
  next_acked (dispatch_started key) m = discard key m.acked_sessions
  next_acked _ m = m.acked_sessions

  unfoldable pub after : ChannelEvent out → ChannelsManager out → ChannelsManager out
  unfolding next_acked
  after event m = record m { acked_sessions = next_acked event m }

  dispatch_runs :
      (key : SessionKey) (m : ChannelsManager out) (acked typing : List (Sent out))
      → send_ack_to_channel out (after (dispatch_started key) m) key ≡ some acked
      → on_entry out
          (after (dispatch_started key) m)
          key
          (λ entry slot. notify out slot (typing_indicator entry.acp_session_id slot.name))
        ≡ some typing
      → handle_dispatch_started out key m ≡ some (after (dispatch_started key) m, acked ++ typing)
  unfolding handle_dispatch_started after next_acked
  dispatch_runs key m acked typing a t = rw (handle_dispatch_started, a, t) refl

  -- No event panics, and only the set of started responses changes.
  pub event_runs :
      (event : ChannelEvent out) (m : ChannelsManager out)
      → Routable out m
      → (sent : List (Sent out)) × (handle_channel_event out event m ≡ some (after event m, sent))
  unfolding handle_channel_event handle_deliver_message handle_session_complete
      route_permission_event handle_dispatch_started send_ack_to_channel after next_acked
  event_runs (deliver key content) m r = elim (route-cases out m key r) [
    | inl n ↦ ([], rw (handle_deliver_message, next_acked, n) refl)
    | inr (entry, slot, (e, s)) ↦ elim (Bool-cases (contains key m.acked_sessions)) [
      | inl t ↦ (
        notify out slot (deliver_message entry.acp_session_id (forwarded content)),
        rw (handle_deliver_message, next_acked, e, s, t) refl,
      )
      | inr f ↦ (
        notify out slot (response_started entry.acp_session_id)
            ++ notify out slot (deliver_message entry.acp_session_id (forwarded content)),
        rw (handle_deliver_message, next_acked, e, s, f) refl,
      )
    ]
  ]
  event_runs (session_complete key reason) m r = elim (route-cases out m key r) [
    | inl n ↦ ([], rw (on_entry-none out m key _ n) refl)
    | inr (entry, slot, f) ↦ (
      notify out slot (response_completed entry.acp_session_id reason),
      rw (on_entry-Found out m key _ entry slot f) refl,
    )
  ]
  event_runs (route_permission key id description options) m r = elim (route-cases out m key r) [
    | inl n ↦ ([], rw (on_entry-none out m key _ n) refl)
    | inr (entry, slot, f) ↦ (
      notify out slot (request_permission id entry.acp_session_id description options),
      rw (on_entry-Found out m key _ entry slot f) refl,
    )
  ]
  event_runs (ack key name peer id) m r = ([], refl)
  event_runs (dispatch_started key) m r =
      let m' = after (dispatch_started key) m in
      elim (route-cases out m key r) [
        | inl n ↦ (
          [],
          dispatch_runs key m [] [] (on_entry-none out m' key _ n) (on_entry-none out m' key _ n),
        )
        | inr (entry, slot, f) ↦ (
          notify out slot (ack_message entry.acp_session_id slot.name (after_colons 2 key))
              ++ notify out slot (typing_indicator entry.acp_session_id slot.name),
          dispatch_runs key m _ _ (on_entry-Found out m' key _ entry slot f)
              (on_entry-Found out m' key _ entry slot f),
        )
      ]

  unfoldable pub started_after : ChannelEvent out → Bool → Bool
  started_after (deliver key content) started = true
  started_after (dispatch_started key) started = false
  started_after _ started = started

  pub session_view-cons :
      (key : SessionKey) (id name : Text) (started : Bool) (event : ChannelEvent out)
      (events : List (ChannelEvent out))
      → session_view out key id name started (event ∷ events)
        ≡ session_view out key id name started (event ∷ [])
          ++ session_view out key id name (started_after event started) events
  unfolding session_view started_after
  session_view-cons key id name true (deliver k content) events = refl
  session_view-cons key id name false (deliver k content) events = refl
  session_view-cons key id name started (session_complete k reason) events = refl
  session_view-cons key id name started (route_permission k request description options) events =
      refl
  session_view-cons key id name started (ack k channel peer message) events = refl
  session_view-cons key id name started (dispatch_started k) events = refl

  pub own_sent :
      (event : ChannelEvent out) (m : ChannelsManager out) (entry : RoutingEntry)
      (slot : ChannelSlot out) (c : out.Connection)
      → Found out m (key_of out event) entry slot
      → slot.connection ≡ some c
      → handle_channel_event out event m
        ≡ some (
          after event m,
          map (to_channel c) (
              session_view out
                (key_of out event)
                entry.acp_session_id
                slot.name
                (contains (key_of out event) m.acked_sessions)
                (event ∷ [])),
        )
  unfolding handle_channel_event handle_deliver_message handle_session_complete
      route_permission_event handle_dispatch_started send_ack_to_channel after next_acked key_of
      session_view notify on_entry
  own_sent (deliver key content) m entry slot c (e, s) h =
      elim (Bool-cases (contains key m.acked_sessions)) [
        | inl t ↦ rw (handle_deliver_message, next_acked, notify, e, s, t, h) refl
        | inr f ↦ rw (handle_deliver_message, next_acked, notify, e, s, f, h) refl
      ]
  own_sent (session_complete key reason) m entry slot c (e, s) h =
      rw (handle_session_complete, on_entry, notify, e, s, h) refl
  own_sent (route_permission key id description options) m entry slot c (e, s) h =
      rw (route_permission_event, on_entry, notify, e, s, h) refl
  own_sent (ack key name peer id) m entry slot c f h = refl
  own_sent (dispatch_started key) m entry slot c (e, s) h =
      rw
        (
          handle_dispatch_started, send_ack_to_channel, on_entry, notify, e, s, h, on_entry, notify,
          e, s, h,
        )
        refl

  pub own_started :
      (event : ChannelEvent out) (m : ChannelsManager out) (entry : RoutingEntry)
      → get (key_of out event) m.routing_table ≡ some entry
      → contains (key_of out event) (next_acked event m)
        ≡ started_after event (contains (key_of out event) m.acked_sessions)
  unfolding next_acked started_after key_of
  own_started (deliver key content) m entry e =
      ground (arith, e, contains-add key key m.acked_sessions, eq_self key)
  own_started (session_complete key reason) m entry e = refl
  own_started (route_permission key id description options) m entry e = refl
  own_started (ack key name peer id) m entry e = refl
  own_started (dispatch_started key) m entry e =
      ground (arith, contains-discard key key m.acked_sessions, eq_self key)

  pub other_started :
      (key : SessionKey) (event : ChannelEvent out) (m : ChannelsManager out)
      → (key_of out event =? key) ≡ false
      → contains key (next_acked event m) ≡ contains key m.acked_sessions
  unfolding next_acked key_of
  other_started key (deliver k content) m d = ground (arith, d, contains-add k key m.acked_sessions)
  other_started key (session_complete k reason) m d = refl
  other_started key (route_permission k id description options) m d = refl
  other_started key (ack k name peer id) m d = refl
  other_started key (dispatch_started k) m d =
      ground (arith, contains-discard k key m.acked_sessions, d)
