-- ===== src/Channels/Manager/Collect/Runs.antt =====
-- Every message of a channel is handled without a panic, and keeps the slots and valid routes.
use protoclaw.Base.{
  refl, sym, subst, inl, inr, ℕ, Option, [], length, ◌<◌, ◌=?◌, nat_eq, list_eq, Bool-cases,
  Option-cases,
}
use protoclaw.Base.Text.{Text, bytes}
use protoclaw.Channels.AccessControl.{AccessDecision, allow, deny, skip_no_mention, unwrap_or}
use protoclaw.Channels.AccessControl.Options.{from_options}
use protoclaw.Channels.Manager.{ChannelSendMessage, Outside, ChannelSlot, ChannelsManager}
use protoclaw.Channels.Manager.Routes.{Routable, get_elem?-within}
use protoclaw.Channels.Manager.Forward.{Answers, forward, handle_respond_permission}
use protoclaw.Channels.Manager.Collect.{
  with_context, suppressed, decision, gated, collect_parsed, collect_send_message,
  collect_channel_message,
}
use protoclaw.Channels.Manager.Collect.Routing.{
  Runs, forward-Runs, kept_rows, remember-kept, with_context-kept,
}

module _ (out : Outside) where
  gated-Runs :
      (a : Answers) (slot_index : ℕ) (slot : ChannelSlot out) (options : out.json.Value)
      (msg : ChannelSendMessage) (m : ChannelsManager out) (d : AccessDecision)
      → Routable out m
      → slot_index < length m.slots
      → Runs out m (gated out a slot_index slot options msg m d)
  unfolding gated
  gated-Runs a slot_index slot options msg m (deny reason) r h = (m, [], refl, refl, r)
  gated-Runs a slot_index slot options msg m skip_no_mention r h =
      let (rows, e) = remember-kept out a options msg m in
      (kept_rows out m rows, [], rw (e) refl, refl, r)
  gated-Runs a slot_index slot options msg m allow r h =
      let (rows, e) = with_context-kept out a msg m in
      let msg' =
        suppressed out (from_options out.json out.to_lowercase options)
          (with_context out a msg m).0 in
      subst (λ n. Runs out m (forward out a slot_index slot msg' n)) (sym e)
        (forward-Runs out a slot_index slot msg' (kept_rows out m rows) r h)

  collect_parsed-Runs :
      (a : Answers) (slot_index : ℕ) (slot : ChannelSlot out) (msg : ChannelSendMessage)
      (m : ChannelsManager out)
      → Routable out m
      → slot_index < length m.slots
      → Runs out m (collect_parsed out a slot_index slot msg m)
  unfolding collect_parsed
  collect_parsed-Runs a slot_index slot msg m r h =
      let options = out.to_value slot.options in
      elim (Option-cases (out.json.field (bytes "access_control") options)) [
        | inl n ↦ rw (collect_parsed, n) (forward-Runs out a slot_index slot msg m r h)
        | inr (ac, e) ↦
            rw (collect_parsed, e)
              (gated-Runs a slot_index slot options msg m (decision out options msg) r h)
      ]

  collect_send_message-Runs :
      (a : Answers) (slot_index : ℕ) (params : out.json.Value) (m : ChannelsManager out)
      → Routable out m
      → slot_index < length m.slots
      → Runs out m (collect_send_message out a slot_index params m)
  unfolding collect_send_message
  collect_send_message-Runs a slot_index params m r h =
      elim (Option-cases (out.send_message params)) [
        | inl n ↦ (m, [], rw (collect_send_message, n) refl, refl, r)
        | inr (msg, e) ↦
            let (slot, s) = get_elem?-within m.slots slot_index h in
            rw (collect_send_message, e, s) (collect_parsed-Runs a slot_index slot msg m r h)
      ]

  pub collect_channel_message-Runs :
      (a : Answers) (slot_index : ℕ) (method : Text) (params : Option out.json.Value)
      (m : ChannelsManager out)
      → Routable out m
      → slot_index < length m.slots
      → Runs out m (collect_channel_message out a slot_index method params m)
  unfolding collect_channel_message
  collect_channel_message-Runs a slot_index method params m r h =
      let (slot, s) = get_elem?-within m.slots slot_index h in
      let value = unwrap_or params out.null in
      elim (Bool-cases (method =? bytes "channel/sendMessage")) [
        | inl t ↦
            rw (collect_channel_message, s, t) (collect_send_message-Runs a slot_index value m r h)
        | inr f ↦ elim (Bool-cases (method =? bytes "channel/respondPermission")) [
          | inl t ↦ (
            m,
            handle_respond_permission out a.responded value m,
            rw (collect_channel_message, s, f, t) refl,
            refl,
            r,
          )
          | inr u ↦ (m, [], rw (collect_channel_message, s, f, u) refl, refl, r)
        ]
      ]
