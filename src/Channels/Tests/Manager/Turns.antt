-- ===== src/Channels/Tests/Manager/Turns.antt =====
-- Instances of the theorems on messages and events.
use protoclaw.Base.{◌≡◌, refl, ℕ, false, some, List, [], ◌∷◌, map, nat_eq, list_eq, list_eqb, arith}
use protoclaw.Base.Map.{get, insert, contains}
use protoclaw.Base.Text.{Text, bytes}
use protoclaw.SdkTypes.SessionKey.{SessionKey, new}
use protoclaw.SdkTypes.Message.{end_turn}
use protoclaw.Channels.AccessControl.{deny, dm_sender_not_allowed, matches, matches_any}
use protoclaw.Channels.AccessControl.Options.{parse_allowlist}
use protoclaw.Channels.Manager.Messages.{build_session_key}
use protoclaw.Channels.Manager.{
  ack_message, typing_indicator, response_started, deliver_message, response_completed, forwarded,
  ChannelSlot, ChannelsManager, Sent, to_channel,
}
use protoclaw.Channels.Manager.Events.{ChannelEvent, deliver, dispatch_started, session_complete}
use protoclaw.Channels.Manager.Events.View.{run_events, sent_for, events_of, session_view}
use protoclaw.Channels.Manager.Events.Turns.{run_events_refine}
use protoclaw.Channels.Manager.Collect.{decision, collect_send_message}
use protoclaw.Channels.Manager.Collect.Routing.{routed, new_entry, routed-Routable}
use protoclaw.Channels.Manager.Replies.{first_sent, admitted, collect-run_events}
use protoclaw.Channels.Tests.Manager.{
  null, hello, access, strict, field_of, as_array_of, value_of, message, message_of, outside,
  channel, key, other_key, with_other, with_other-Routable, answers,
}

abbrev events : List (ChannelEvent outside)
events =
    dispatch_started key
    ∷ deliver other_key null
    ∷ deliver key hello
    ∷ deliver key null
    ∷ session_complete key end_turn
    ∷ []

abbrev both : ChannelsManager outside
both = routed outside with_other key (new_entry outside 1 (channel (bytes "tg") 8) (bytes "s1"))

abbrev Forwarded : ChannelsManager outside → Text → Text → ℕ → Type 0
Forwarded m id name c =
    (m' : ChannelsManager outside) × (sent : List (SessionKey × List (Sent outside))) × (run_events
        outside events m
      ≡ some (m', sent))
    × (sent_for outside key sent
        ≡ map (to_channel c)
            (session_view outside key id name false (events_of outside key events)))

run_events_refine_example : Forwarded both (bytes "s1") (bytes "tg") 8
unfolding get insert contains list_eqb
run_events_refine_example =
    run_events_refine outside key events both
      (new_entry outside 1 (channel (bytes "tg") 8) (bytes "s1")) (channel (bytes "tg") 8) 8
      (routed-Routable outside with_other key
        (new_entry outside 1 (channel (bytes "tg") 8) (bytes "s1")) with_other-Routable
        (omega arith))
      refl refl refl

abbrev closed_channel : ChannelSlot outside
closed_channel = record (channel (bytes "tg") 8) { options = (bytes "access_control", strict) ∷ [] }

nobody-denied :
    decision outside (value_of closed_channel.options) message ≡ deny dm_sender_not_allowed
unfolding decision value_of field_of as_array_of list_eqb matches_any parse_allowlist
nobody-denied = refl

session_view_example :
    session_view outside key (bytes "s1") (bytes "tg") false (events_of outside key events)
    ≡ ack_message (bytes "s1") (bytes "tg") (bytes "tg:5")
      ∷ typing_indicator (bytes "s1") (bytes "tg")
      ∷ response_started (bytes "s1")
      ∷ deliver_message (bytes "s1") (forwarded hello)
      ∷ deliver_message (bytes "s1") (forwarded null)
      ∷ response_completed (bytes "s1") end_turn
      ∷ []
unfolding session_view events_of list_eqb
session_view_example = refl

collect-run_events_example :
    (m' : ChannelsManager outside) × (m'' : ChannelsManager outside) × (sent : List
      (SessionKey × List (Sent outside)))
    × (collect_send_message outside answers 1 hello with_other
        ≡ some (
          m',
          first_sent outside
              (bytes "a")
              message.peer_info
              (bytes "s1")
              8
              (admitted outside answers (channel (bytes "tg") 8) message with_other),
        ))
    × (run_events outside events m' ≡ some (m'', sent))
    × (sent_for outside key sent
        ≡ map (to_channel 8) (
            session_view outside key
              (bytes "s1")
              (bytes "tg")
              false
              (events_of outside key events)))
unfolding value_of field_of as_array_of message_of decision list_eqb get insert contains matches_any
    matches build_session_key new
collect-run_events_example =
    collect-run_events outside answers 1 hello (channel (bytes "tg") 8) message with_other 8
      (bytes "s1") tt access events with_other-Routable refl refl refl refl refl refl refl refl refl
