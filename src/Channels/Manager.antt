-- ===== src/Channels/Manager.antt =====
-- crates/anyclaw-channels/src/manager.rs: the state of the channels manager, what it sends, and
-- the sending of an ack. Children hold the events from the agents, the messages of the channels,
-- and crashes. A connection (connection.rs), tokio's tokens and `serde_json` are parameters; the
-- failure of a notification is only logged and is left out. `none` is a panic.
pub mod Events
pub mod Messages
pub mod Forward
pub mod Collect
pub mod Crash
pub mod Loop
pub mod Replies
pub mod Routes
use protoclaw.Base.{
  ℕ, zero, suc, Bool, true, false, Option, none, some, List, [], ◌∷◌, get_elem?, if◌then◌else◌,
  nat_eq, list_eq,
}
use protoclaw.Base.Map.{Map, Set, get}
use protoclaw.Base.Text.{Text}
use protoclaw.Base.Json.{Json}
use protoclaw.SdkTypes.SessionKey.{SessionKey, is_colon}
use protoclaw.SdkTypes.Message.{ContentPart, MessageMetadata, StopReason}
use protoclaw.Core.SlotLifecycle.{SlotLifecycle}
use protoclaw.Channels.Context.{Rows}

pub record PeerInfo : Type 0 where
  pub channel_name : Text
  pub peer_id : Text
  pub kind : Text

pub record SenderInfo : Type 0 where
  pub sender_id : Option Text
  pub sender_name : Option Text

-- Without the extension metadata, which the manager does not read.
pub record ChannelSendMessage : Type 0 where
  pub peer_info : PeerInfo
  pub content : List ContentPart
  pub metadata : Option MessageMetadata
  pub sender_info : Option SenderInfo
  pub was_mentioned : Option Bool

pub record ChannelRespondPermission : Type 0 where
  pub request_id : Text
  pub option_id : Text

pub record RoutingEntry : Type 0 where
  pub channel_id : Text
  pub acp_session_id : Text
  pub slot_index : ℕ
  pub agent_name : Text

-- What the manager needs from outside. `to_value` makes the object of a map of options,
-- `send_message` and `respond_permission` read a message's parameters, and `to_lowercase` is the
-- one of `str`.
pub record Outside : Type 1 where
  pub json : Json
  pub as_u64 : json.Value → Option ℕ
  pub null : json.Value
  pub to_value : Map Text json.Value → json.Value
  pub send_message : json.Value → Option ChannelSendMessage
  pub respond_permission : json.Value → Option ChannelRespondPermission
  pub to_lowercase : Text → Text
  pub Connection : Type 0
  pub Token : Type 0

-- `splitn(3, ':').nth(2).unwrap_or("")`: what stands behind `n` colons.
unfoldable pub after_colons : ℕ → Text → Text
after_colons zero s = s
after_colons (suc n) [] = []
after_colons (suc n) (c ∷ s) =
    let next = after_colons n s in
    let later = after_colons (suc n) s in if is_colon c then next else later

module _ (out : Outside) where
  open out use {json, Connection, Token}

  pub record ChannelSlot : Type 0 where
    pub name : Text
    pub agent : Text
    pub options : Map Text json.Value
    pub connection : Option Connection
    pub channel_id : Text
    pub lifecycle : SlotLifecycle Token

  -- The content of a message for a channel: the agent's, or an error that the manager reports.
  pub data Content : Type 0 where
    forwarded : json.Value → Content
    error_result : Text → Content

  -- The notifications and the one request of the manager to a channel, by the session's ACP id.
  pub data Notification : Type 0 where
    deliver_message : Text → Content → Notification
    response_started : Text → Notification
    response_completed : Text → StopReason → Notification
    ack_message : Text → Text → Text → Notification
    typing_indicator : Text → Text → Notification
    session_created : Text → PeerInfo → Notification
    request_permission : Text → Text → Text → json.Value → Notification

  -- The commands of the manager to the agents manager.
  pub data AgentsCommand : Type 0 where
    create_session : Text → SessionKey → AgentsCommand
    enqueue_message : Text → SessionKey → List ContentPart → Option MessageMetadata → AgentsCommand
    respond_permission : Text → Text → AgentsCommand

  pub data Sent : Type 0 where
    to_channel : Connection → Notification → Sent
    to_agents : AgentsCommand → Sent

  pub record ChannelsManager : Type 0 where
    pub slots : List ChannelSlot
    pub routing_table : Map SessionKey RoutingEntry
    pub acked_sessions : Set SessionKey
    pub agents_handle : Bool
    pub context_store : Rows

  abbrev pub Outcome : Type 0
  Outcome = Option (ChannelsManager × List Sent)

  -- `if let Some(conn) = &slot.connection { conn.send_notification(..) }`.
  unfoldable pub notify : ChannelSlot → Notification → List Sent
  notify slot n = elim slot.connection [ none ↦ [] | some c ↦ to_channel c n ∷ [] ]

  -- `if let Some(entry) = routing_table.get(key) { let slot = &slots[entry.slot_index]; .. }`.
  unfoldable pub on_entry :
      ChannelsManager → SessionKey → (RoutingEntry → ChannelSlot → List Sent) → Option (List Sent)
  on_entry m key f = elim (get key m.routing_table) [
    | none ↦ some []
    | some entry ↦ elim (get_elem? m.slots entry.slot_index) [
      | none ↦ none
      | some slot ↦ some (f entry slot)
    ]
  ]

  unfoldable pub send_ack_to_channel : ChannelsManager → SessionKey → Option (List Sent)
  unfolding on_entry notify after_colons
  send_ack_to_channel m key =
      on_entry m key (λ entry slot.
        notify slot (ack_message entry.acp_session_id slot.name (after_colons 2 key)))
