-- ===== src/Channels/Manager/Collect/Routing.antt =====
-- The routes that messages of channels make.
use protoclaw.Base.{
  ◌≡◌, refl, ap, sym, subst, ◌⊎◌, inl, inr, ℕ, Bool, true, false, not, ◌&&◌, Option, some, List, [],
  ◌∷◌, ◌++◌, length, ◌<◌, ◌=?◌, nat_eq, list_eq, Bool-cases, Option-cases, arith,
}
use protoclaw.Base.Map.{get, insert, get-insert}
use protoclaw.Base.Text.{Text, bytes}
use protoclaw.SdkTypes.SessionKey.{SessionKey}
use protoclaw.Channels.Manager.{
  ChannelSendMessage, RoutingEntry, Outside, ChannelSlot, Sent, ChannelsManager, notify,
  deliver_message, error_result, to_agents, enqueue_message,
}
use protoclaw.Channels.Manager.Routes.{Routable, on_entry_runs}
use protoclaw.Channels.Context.{Rows, store_context, take_context}
use protoclaw.Channels.Manager.Messages.{
  build_session_key, is_group, bot_mentioned, context_message,
}
use protoclaw.Channels.Manager.Forward.{
  Reply, send_failed, answered, failed, dropped, Answers, ensure_session_created, enqueue_to_agent,
  finish, forward,
}
use protoclaw.Channels.Manager.Collect.{history_limit, remembers, remember, with_context}

module _ (out : Outside) where
  abbrev pub routed : ChannelsManager out → SessionKey → RoutingEntry → ChannelsManager out
  routed m key entry = record m { routing_table = insert key entry m.routing_table }

  pub routed-Routable :
      (m : ChannelsManager out) (key : SessionKey) (entry : RoutingEntry)
      → Routable out m
      → entry.slot_index < length m.slots
      → Routable out (routed m key entry)
  routed-Routable m key entry r h k e g = elim (Bool-cases (key =? k)) [
    | inl t ↦ ground (arith, t, h, g, get-insert key k entry m.routing_table)
    | inr f ↦ r k e (ground (arith, f, g, get-insert key k entry m.routing_table))
  ]

  abbrev pub new_entry : ℕ → ChannelSlot out → Text → RoutingEntry
  new_entry slot_index slot id = record {
    channel_id = slot.channel_id;
    acp_session_id = id;
    slot_index = slot_index;
    agent_name = slot.agent;
  }

  -- What `ensure_session_created` does to the state.
  ensure-cases :
      (created : Reply Text) (slot_index : ℕ) (slot : ChannelSlot out) (key : SessionKey)
      (msg : ChannelSendMessage) (m : ChannelsManager out)
      → ((ensure_session_created out created slot_index slot key msg m).1 ≡ m)
        ⊎ ((entry : RoutingEntry) × (entry.slot_index ≡ slot_index)
            × ((ensure_session_created out created slot_index slot key msg m).1
                ≡ routed m key entry))
  unfolding ensure_session_created
  ensure-cases send_failed slot_index slot key msg m =
      elim (Option-cases (get key m.routing_table)) [
        | inr (entry, g) ↦ inl (rw (ensure_session_created, g) refl)
        | inl n ↦ inl (rw (ensure_session_created, n) refl)
      ]
  ensure-cases (answered id) slot_index slot key msg m =
      elim (Option-cases (get key m.routing_table)) [
        | inr (entry, g) ↦ inl (rw (ensure_session_created, g) refl)
        | inl n ↦ inr (new_entry slot_index slot id, refl, rw (ensure_session_created, n) refl)
      ]
  ensure-cases (failed e) slot_index slot key msg m =
      elim (Option-cases (get key m.routing_table)) [
        | inr (entry, g) ↦ inl (rw (ensure_session_created, g) refl)
        | inl n ↦ inl (rw (ensure_session_created, n) refl)
      ]
  ensure-cases dropped slot_index slot key msg m = elim (Option-cases (get key m.routing_table)) [
    | inr (entry, g) ↦ inl (rw (ensure_session_created, g) refl)
    | inl n ↦ inl (rw (ensure_session_created, n) refl)
  ]

  enqueue_runs :
      (reply : Reply (Unit {0})) (key : SessionKey) (msg : ChannelSendMessage) (agent : Text)
      (m : ChannelsManager out)
      → Routable out m
      → (sent : List (Sent out)) × (enqueue_to_agent out reply key msg agent m ≡ some sent)
  unfolding enqueue_to_agent
  enqueue_runs send_failed key msg agent m r = (_, refl)
  enqueue_runs (answered u) key msg agent m r = (_, refl)
  enqueue_runs (failed e) key msg agent m r =
      let (sent, q) =
        on_entry_runs out m key
          (λ entry slot. notify out slot (
            deliver_message entry.acp_session_id
              (error_result (bytes "Session recovery failed: " ++ e))))
          r in
      (
        to_agents (enqueue_message agent key msg.content msg.metadata) ∷ sent,
        rw (enqueue_to_agent, q) refl,
      )
  enqueue_runs dropped key msg agent m r = (_, refl)

  -- The manager runs on, with the same slots, and routable.
  abbrev pub Runs : ChannelsManager out → Option (ChannelsManager out × List (Sent out)) → Type 0
  Runs m o =
      (m' : ChannelsManager out) × (sent : List (Sent out)) × (o ≡ some (m', sent))
      × (m'.slots ≡ m.slots)
      × Routable out m'

  ensure-Routable :
      (created : Reply Text) (slot_index : ℕ) (slot : ChannelSlot out) (key : SessionKey)
      (msg : ChannelSendMessage) (m : ChannelsManager out)
      → Routable out m
      → slot_index < length m.slots
      → (let m' = (ensure_session_created out created slot_index slot key msg m).1 in
          (m'.slots ≡ m.slots) × Routable out m')
  ensure-Routable created slot_index slot key msg m r h =
      elim (ensure-cases created slot_index slot key msg m) [
        | inl e ↦ (ap (λ n. n.slots) e, subst (Routable out) (sym e) r)
        | inr (entry, i, e) ↦ (
          ap (λ n. n.slots) e,
          subst (Routable out) (sym e) (routed-Routable m key entry r (rw (i) h)),
        )
      ]

  finish-Runs :
      (handle ready : Bool) (m m' : ChannelsManager out) (sent sent' : List (Sent out))
      (enqueued : Option (List (Sent out)))
      → Routable out m
      → ((m'.slots ≡ m.slots) × Routable out m')
      → enqueued ≡ some sent'
      → Runs m (finish out handle ready m (m', sent) enqueued)
  unfolding finish
  finish-Runs false ready m m' sent sent' q r (e, r') p = (m, [], refl, refl, r)
  finish-Runs true false m m' sent sent' q r (e, r') p = (m', sent, refl, e, r')
  finish-Runs true true m m' sent sent' q r (e, r') p = (m', sent ++ sent', rw (p) refl, e, r')

  pub forward-Runs :
      (a : Answers) (slot_index : ℕ) (slot : ChannelSlot out) (msg : ChannelSendMessage)
      (m : ChannelsManager out)
      → Routable out m
      → slot_index < length m.slots
      → Runs m (forward out a slot_index slot msg m)
  unfolding forward
  forward-Runs a slot_index slot msg m r h =
      let key = build_session_key msg in
      let e = ensure_session_created out a.created slot_index slot key msg m in
      let k = ensure-Routable a.created slot_index slot key msg m r h in
      let (sent, q) = enqueue_runs a.enqueued key msg slot.agent e.1 k.1 in
      finish-Runs m.agents_handle e.0 m e.1 e.2 sent
        (enqueue_to_agent out a.enqueued key msg slot.agent e.1) r k q

  -- The same slots and routes, and another context store.
  abbrev pub kept_rows : ChannelsManager out → Rows → ChannelsManager out
  kept_rows m rows = record m { context_store = rows }

  pub remember-kept :
      (a : Answers) (options : out.json.Value) (msg : ChannelSendMessage) (m : ChannelsManager out)
      → (rows : Rows) × (remember out a options msg m ≡ kept_rows m rows)
  unfolding remember
  remember-kept a options msg m = elim (Bool-cases (remembers out a options)) [
    | inl t ↦ (
      store_context (context_message a.now msg) (history_limit out options) m.context_store,
      rw (t) refl,
    )
    | inr f ↦ (m.context_store, rw (f) refl)
  ]

  pub with_context-kept :
      (a : Answers) (msg : ChannelSendMessage) (m : ChannelsManager out)
      → (rows : Rows) × ((with_context out a msg m).1 ≡ kept_rows m rows)
  unfolding with_context
  with_context-kept a msg m =
      elim (Bool-cases (is_group msg && bot_mentioned msg && not a.take_failed)) [
        | inl t ↦ ((take_context msg.peer_info.peer_id m.context_store).1, rw (t) refl)
        | inr f ↦ (m.context_store, rw (f) refl)
      ]
