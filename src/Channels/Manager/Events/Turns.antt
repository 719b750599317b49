-- ===== src/Channels/Manager/Events/Turns.antt =====
-- What a channel sees of the events of one session, whatever events of other sessions come
-- between them.
use mathlib.Core.List.{map-append}
use protoclaw.Base.{
  ◌≡◌, refl, subst, Bool, true, false, some, List, [], ◌∷◌, ◌++◌, map, get_elem?, if◌then◌else◌,
  ◌=?◌, nat_eq, list_eq, list_eqb_iff, eq_self, Bool-cases, inl, inr,
}
use protoclaw.Base.Map.{get, contains}
use protoclaw.SdkTypes.SessionKey.{SessionKey}
use protoclaw.Channels.Manager.{
  RoutingEntry, Outside, ChannelSlot, Sent, to_channel, ChannelsManager,
}
use protoclaw.Channels.Manager.Routes.{Routable, Found}
use protoclaw.Channels.Manager.Events.{ChannelEvent, handle_channel_event}
use protoclaw.Channels.Manager.Events.View.{key_of, run_events, sent_for, events_of, session_view}
use protoclaw.Channels.Manager.Events.Steps.{
  after, started_after, event_runs, session_view-cons, own_sent, own_started, other_started,
}

if-append :
    {A : Type 0} (b : Bool) (xs ys : List A)
    → (if b then xs ++ ys else ys) ≡ (if b then xs else []) ++ ys
if-append true xs ys = refl
if-append false xs ys = refl

module _ (out : Outside) where
  -- What one event sends for the session, and whether its response has started afterwards.
  record Step (key : SessionKey) (event : ChannelEvent out) (m : ChannelsManager out)
      (entry : RoutingEntry) (slot : ChannelSlot out) (c : out.Connection) : Type 0 where
    sent : List (Sent out)
    runs : handle_channel_event out event m ≡ some (after out event m, sent)
    view :
        (events : List (ChannelEvent out))
        → (if key_of out event =? key then sent else [])
            ++ map (to_channel c) (
                session_view out key entry.acp_session_id slot.name
                  (contains key (after out event m).acked_sessions)
                  (events_of out key events))
          ≡ map (to_channel c) (
              session_view out key entry.acp_session_id slot.name
                (contains key m.acked_sessions)
                (events_of out key (event ∷ events)))

  own_step :
      (event : ChannelEvent out) (m : ChannelsManager out) (entry : RoutingEntry)
      (slot : ChannelSlot out) (c : out.Connection)
      → Found out m (key_of out event) entry slot
      → slot.connection ≡ some c
      → Step (key_of out event) event m entry slot c
  unfolding after events_of
  own_step event m entry slot c f h = record {
    sent = map (to_channel c) (
        session_view out (key_of out event) entry.acp_session_id slot.name
          (contains (key_of out event) m.acked_sessions) (event ∷ []));
    runs = own_sent out event m entry slot c f h;
    view = λ events.
        let own = events_of out (key_of out event) events in
        let started = contains (key_of out event) m.acked_sessions in
        rw
          (
            events_of,
            eq_self (key_of out event),
            own_started out event m entry f.0,
            session_view-cons out (key_of out event) entry.acp_session_id slot.name started event
                own,
            map-append (to_channel c)
                (session_view out (key_of out event) entry.acp_session_id slot.name started
                  (event ∷ []))
                (session_view out (key_of out event) entry.acp_session_id slot.name
                  (started_after out event started) own),
          )
          refl;
  }

  other_step :
      (key : SessionKey) (event : ChannelEvent out) (m : ChannelsManager out) (entry : RoutingEntry)
      (slot : ChannelSlot out) (c : out.Connection)
      → Routable out m
      → (key_of out event =? key) ≡ false
      → Step key event m entry slot c
  unfolding after events_of
  other_step key event m entry slot c r d = record {
    sent = (event_runs out event m r).0;
    runs = (event_runs out event m r).1;
    view = λ events. rw (events_of, d, other_started out key event m d) refl;
  }

  step :
      (key : SessionKey) (event : ChannelEvent out) (m : ChannelsManager out) (entry : RoutingEntry)
      (slot : ChannelSlot out) (c : out.Connection)
      → Routable out m
      → Found out m key entry slot
      → slot.connection ≡ some c
      → Step key event m entry slot c
  step key event m entry slot c r f h = elim (Bool-cases (key_of out event =? key)) [
    | inr d ↦ other_step key event m entry slot c r d
    | inl e ↦
        subst (λ k. Found out m k entry slot → Step k event m entry slot c)
          ((list_eqb_iff (key_of out event) key).1 e) (λ own. own_step event m entry slot c own h) f
  ]

  -- Where every route leads to a slot, the events of the agents manager never panic on an index.
  -- For a session whose channel is connected, what the manager sends for the session's events is
  -- what that session alone would send: for each dispatch an ack and a typing indicator, before
  -- the first content since the dispatch one notice that the response has started, then the
  -- contents, the permission requests and the ends of responses in their order, all of them on
  -- the connection of the session's own channel and under its own ACP id, whatever events of
  -- other sessions come between.
  pub run_events_refine :
      (key : SessionKey) (events : List (ChannelEvent out)) (m : ChannelsManager out)
      (entry : RoutingEntry) (slot : ChannelSlot out) (c : out.Connection)
      → Routable out m
      → get key m.routing_table ≡ some entry
      → get_elem? m.slots entry.slot_index ≡ some slot
      → slot.connection ≡ some c
      → (m' : ChannelsManager out) × (sent : List (SessionKey × List (Sent out))) × (run_events out
            events m
          ≡ some (m', sent))
        × (sent_for out key sent
            ≡ map (to_channel c) (
                session_view out key entry.acp_session_id slot.name
                  (contains key m.acked_sessions)
                  (events_of out key events)))
  unfolding run_events sent_for session_view events_of after
  run_events_refine key [] m entry slot c r e s h = (m, [], refl, refl)
  run_events_refine key (event ∷ events) m entry slot c r e s h =
      let one = step key event m entry slot c r (e, s) h in
      let (m', sent, runs, view) =
        run_events_refine key events (after out event m) entry slot c r e s h in
      (
        m',
        (key_of out event, one.sent) ∷ sent,
        rw (run_events, one.runs, runs) refl,
        rw (sent_for, view, if-append (key_of out event =? key) one.sent _) (one.view events),
      )
