-- ===== src/Channels/Manager/Replies.antt =====
-- From the first message of a conversation to the replies of the agent.
use protoclaw.Base.{
  ◌≡◌, refl, subst, ap, ◌∙◌, inl, inr, ℕ, Bool, true, false, none, some, List, [], ◌∷◌, map,
  get_elem?, if◌then◌else◌, is_empty, ◌&&◌, not, nat_eq, list_eq, eq_self, Bool-cases, Option-cases,
  arith,
}
use protoclaw.Base.Map.{get, contains, get-insert}
use protoclaw.Base.Text.{Text, bytes}
use protoclaw.SdkTypes.SessionKey.{SessionKey, new}
use protoclaw.SdkTypes.Message.{text}
use protoclaw.Channels.AccessControl.{AccessConfig, allow, should_suppress_reply_context}
use protoclaw.Channels.AccessControl.Options.{from_options}
use protoclaw.Channels.Context.{Rows, take_context}
use protoclaw.Channels.Manager.{
  ChannelSendMessage, PeerInfo, Outside, ChannelSlot, Sent, to_agents, to_channel, create_session,
  enqueue_message, session_created, ChannelsManager, notify,
}
use protoclaw.Channels.Manager.Routes.{Routable, get_elem?-lt}
use protoclaw.Channels.Manager.Events.{ChannelEvent}
use protoclaw.Channels.Manager.Events.View.{run_events, sent_for, events_of, session_view}
use protoclaw.Channels.Manager.Events.Turns.{run_events_refine}
use protoclaw.Channels.Manager.Messages.{
  build_session_key, is_group, bot_mentioned, chat_id, reply_identity, format_context_block,
}
use protoclaw.Channels.Manager.Forward.{
  answered, Answers, ensure_session_created, enqueue_to_agent, finish, forward,
}
use protoclaw.Channels.Manager.Collect.{
  with_context, suppressed, decision, gated, collect_parsed, collect_send_message,
}
use protoclaw.Channels.Manager.Collect.Routing.{
  new_entry, routed, routed-Routable, kept_rows, with_context-kept,
}

module _ (out : Outside) where
  -- The message as it goes to the agent.
  unfoldable pub admitted :
      Answers → ChannelSlot out → ChannelSendMessage → ChannelsManager out → ChannelSendMessage
  unfolding with_context suppressed
  admitted a slot msg m =
      suppressed out (from_options out.json out.to_lowercase (out.to_value slot.options))
        (with_context out a msg m).0

  if-peer_info :
      (b : Bool) (msg other : ChannelSendMessage)
      → msg.peer_info ≡ other.peer_info
      → (if b then msg else other).peer_info ≡ other.peer_info
  if-peer_info true msg other e = e
  if-peer_info false msg other e = refl

  suppressed-peer_info :
      (cfg : AccessConfig) (msg : ChannelSendMessage)
      → (suppressed out cfg msg).peer_info ≡ msg.peer_info
  unfolding suppressed
  suppressed-peer_info cfg msg = elim (Option-cases msg.metadata) [
    | inl n ↦ rw (suppressed, n) refl
    | inr (meta, e) ↦
        rw (suppressed, e)
          (if-peer_info
            (is_group msg
              && should_suppress_reply_context cfg (chat_id msg) (reply_identity meta) true)
            (record msg { metadata = none }) msg refl)
  ]

  with_context-peer_info :
      (a : Answers) (msg : ChannelSendMessage) (m : ChannelsManager out)
      → (with_context out a msg m).0.peer_info ≡ msg.peer_info
  unfolding with_context
  with_context-peer_info a msg m =
      elim (Bool-cases (is_group msg && bot_mentioned msg && not a.take_failed)) [
        | inl t ↦ rw (t) (
            if-peer_info (is_empty (take_context msg.peer_info.peer_id m.context_store).0) msg
              (record msg {
                content =
                    text
                      (format_context_block (take_context msg.peer_info.peer_id m.context_store).0)
                    ∷ msg.content;
              })
              refl)
        | inr f ↦ rw (f) refl
      ]

  abbrev pub session_key : PeerInfo → SessionKey
  session_key info = new info.channel_name info.kind info.peer_id

  -- What goes out for the first message of a conversation.
  abbrev pub first_sent :
      Text → PeerInfo → Text → out.Connection → ChannelSendMessage → List (Sent out)
  first_sent agent info id c msg =
      to_agents (create_session agent (session_key info))
      ∷ to_channel c (session_created id info)
      ∷ to_agents (enqueue_message agent (session_key info) msg.content msg.metadata)
      ∷ []

  forward-fresh :
      (a : Answers) (i : ℕ) (slot : ChannelSlot out) (msg : ChannelSendMessage)
      (m : ChannelsManager out) (c : out.Connection) (id : Text) (u : Unit {0}) (info : PeerInfo)
      → msg.peer_info ≡ info
      → get (session_key info) m.routing_table ≡ none
      → m.agents_handle ≡ true
      → slot.connection ≡ some c
      → a.created ≡ answered id
      → a.enqueued ≡ answered u
      → forward out a i slot msg m
        ≡ some (
          routed out m (session_key info) (new_entry out i slot id),
          first_sent slot.agent info id c msg,
        )
  unfolding forward finish ensure_session_created enqueue_to_agent notify build_session_key
  forward-fresh a i slot msg m c id u info p n t k cr en =
      subst
        (λ j.
          get (session_key j) m.routing_table ≡ none
          → forward out a i slot msg m
            ≡ some (
              routed out m (session_key j) (new_entry out i slot id),
              first_sent slot.agent j id c msg,
            ))
        p (λ h. rw (ensure_session_created, h, cr, enqueue_to_agent, en, notify, k, t) refl) n

  gated-fresh :
      (a : Answers) (i : ℕ) (slot : ChannelSlot out) (msg : ChannelSendMessage)
      (m : ChannelsManager out) (c : out.Connection) (id : Text) (u : Unit {0})
      → get (session_key msg.peer_info) m.routing_table ≡ none
      → m.agents_handle ≡ true
      → slot.connection ≡ some c
      → a.created ≡ answered id
      → a.enqueued ≡ answered u
      → (rows : Rows) × (gated out a i slot (out.to_value slot.options) msg m allow
          ≡ some (
            routed out (kept_rows out m rows) (session_key msg.peer_info) (new_entry out i slot id),
            first_sent slot.agent msg.peer_info id c (admitted a slot msg m),
          ))
  unfolding gated admitted
  gated-fresh a i slot msg m c id u n t k cr en =
      let (rows, e) = with_context-kept out a msg m in
      let cfg = from_options out.json out.to_lowercase (out.to_value slot.options) in
      let p =
        suppressed-peer_info cfg (with_context out a msg m).0 ∙ with_context-peer_info a msg m in
      (
        rows,
        ap (forward out a i slot (admitted a slot msg m)) e
            ∙ forward-fresh a i slot (admitted a slot msg m) (kept_rows out m rows) c id u
                msg.peer_info p n t k cr en,
      )

  -- A first message of a conversation comes from a connected channel and is allowed by its access
  -- control, a handle of the agents manager is there, and that creates the session and takes the
  -- message. Then the manager asks for the session first, tells the channel of it and then
  -- enqueues the message, and whatever events follow, for this session and for others, what it
  -- sends for the session's events is that session's own view, on the connection of the channel
  -- that the message came from and under the ACP id of the new session.
  pub collect-run_events :
      (a : Answers) (i : ℕ) (params : out.json.Value) (slot : ChannelSlot out)
      (msg : ChannelSendMessage) (m : ChannelsManager out) (c : out.Connection) (id : Text)
      (u : Unit {0}) (ac : out.json.Value) (events : List (ChannelEvent out))
      → Routable out m
      → out.send_message params ≡ some msg
      → get_elem? m.slots i ≡ some slot
      → slot.connection ≡ some c
      → out.json.field (bytes "access_control") (out.to_value slot.options) ≡ some ac
      → decision out (out.to_value slot.options) msg ≡ allow
      → m.agents_handle ≡ true
      → get (build_session_key msg) m.routing_table ≡ none
      → a.created ≡ answered id
      → a.enqueued ≡ answered u
      → (let key = build_session_key msg in
          (m' : ChannelsManager out) × (m'' : ChannelsManager out) × (sent : List
            (SessionKey × List (Sent out)))
          × (collect_send_message out a i params m
              ≡ some (m', first_sent slot.agent msg.peer_info id c (admitted a slot msg m)))
          × (run_events out events m' ≡ some (m'', sent))
          × (sent_for out key sent
              ≡ map (to_channel c) (
                  session_view out key id slot.name
                    (contains key m.acked_sessions)
                    (events_of out key events))))
  unfolding collect_send_message collect_parsed build_session_key
  collect-run_events a i params slot msg m c id u ac events r p s k f d t n cr en =
      let key = session_key msg.peer_info in
      let (rows, g) = gated-fresh a i slot msg m c id u n t k cr en in
      let entry = new_entry out i slot id in
      let m' = routed out (kept_rows out m rows) key entry in
      let r' =
        routed-Routable out (kept_rows out m rows) key entry r (get_elem?-lt m.slots i slot s) in
      let e = get-insert key key entry m.routing_table ∙ ground (arith, eq_self key) in
      let (m'', sent, runs, view) = run_events_refine out key events m' entry slot c r' e s k in
      (m', m'', sent, rw (collect_send_message, p, s, collect_parsed, f, d) g, runs, view)
