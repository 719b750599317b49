-- ===== src/Channels/Manager/Collect/Gate.antt =====
-- Access control in front of the agents: what a message that is not let through does.
use protoclaw.Base.{◌≡◌, refl, ◌≢◌, some, [], get_elem?, ℕ, if◌then◌else◌, not, arith}
use protoclaw.Base.Text.{bytes}
use protoclaw.Channels.AccessControl.{AccessDecision, allow, deny, skip_no_mention}
use protoclaw.Channels.Context.{Rows, store_context}
use protoclaw.Channels.Manager.{ChannelSendMessage, Outside, ChannelSlot, ChannelsManager}
use protoclaw.Channels.Manager.Messages.{context_message}
use protoclaw.Channels.Manager.Forward.{Answers}
use protoclaw.Channels.Manager.Collect.{
  remember, remembers, history_limit, decision, gated, collect_parsed, collect_send_message,
}

module _ (out : Outside) where
  -- The rows of the context store after a message that is not let through.
  unfoldable pub rows_after : Answers → ChannelSendMessage → ℕ → AccessDecision → Rows → Rows
  unfolding context_message store_context
  rows_after a msg limit skip_no_mention rows =
      if not a.store_failed then store_context (context_message a.now msg) limit rows else rows
  rows_after a msg limit _ rows = rows

  gated-denied :
      (a : Answers) (slot_index : ℕ) (slot : ChannelSlot out) (options : out.json.Value)
      (msg : ChannelSendMessage) (m : ChannelsManager out) (d : AccessDecision)
      → d ≢ allow
      → gated out a slot_index slot options msg m d
        ≡ some (
          record m {
            context_store = rows_after a msg (history_limit out options) d m.context_store;
          },
          [],
        )
  unfolding gated remember remembers rows_after store_context history_limit
  gated-denied a slot_index slot options msg m allow n = absurd (n refl)
  gated-denied a slot_index slot options msg m (deny reason) n = refl
  gated-denied a slot_index slot options msg m skip_no_mention n = ground arith

  -- A message that the access control of its channel does not allow sends nothing to the agents
  -- or to a channel, makes no session and does not panic. Only the context store can change: where
  -- the decision is that the message lacks a mention and the store does not fail, it keeps the
  -- message's text for its group, up to the limit of the options.
  pub collect-denied :
      (a : Answers) (slot_index : ℕ) (params : out.json.Value) (msg : ChannelSendMessage)
      (m : ChannelsManager out) (slot : ChannelSlot out) (ac : out.json.Value)
      → out.send_message params ≡ some msg
      → get_elem? m.slots slot_index ≡ some slot
      → out.json.field (bytes "access_control") (out.to_value slot.options) ≡ some ac
      → decision out (out.to_value slot.options) msg ≢ allow
      → collect_send_message out a slot_index params m
        ≡ some (
          record m {
            context_store =
                rows_after a msg
                  (history_limit out (out.to_value slot.options))
                  (decision out (out.to_value slot.options) msg)
                  m.context_store;
          },
          [],
        )
  unfolding collect_send_message collect_parsed
  collect-denied a slot_index params msg m slot ac p e f n =
      rw (collect_send_message, p, e, collect_parsed, f)
        (gated-denied a slot_index slot (out.to_value slot.options) msg m
          (decision out (out.to_value slot.options) msg) n)
