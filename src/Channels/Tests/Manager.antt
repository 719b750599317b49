-- ===== src/Channels/Tests/Manager.antt =====
-- What the instances on the channels manager share: two connected channels, a conversation of the
-- second, and options with an empty access control, which lets everyone in, or one that admits
-- nobody.
mod Turns
mod Loop
use protoclaw.Base.{
  ◌≡◌, refl, ap, suc, ◌≢◌, ◌≤◌, ◌<◌, ℕ, Bool, true, false, Option, none, some, List, [], ◌∷◌,
  length, map, ◌=?◌, if◌then◌else◌, nat_eq, list_eq, list_eqb, get_elem?, retain, arith,
}
use protoclaw.Base.Map.{Map, get, insert, contains}
use protoclaw.Base.Text.{Text, bytes, pos}
use protoclaw.Base.Json.{Json}
use protoclaw.SdkTypes.SessionKey.{SessionKey, new}
use protoclaw.SdkTypes.Message.{text, end_turn}
use protoclaw.Core.Backoff.{ExponentialBackoff, duration_max}
use protoclaw.Core.CrashTracker
use protoclaw.Core.SlotLifecycle.{SlotLifecycle}
use protoclaw.Channels.AccessControl.{deny, dm_sender_not_allowed, matches, matches_any}
use protoclaw.Channels.AccessControl.Options.{parse_allowlist}
use protoclaw.Channels.Manager.Messages.{build_session_key}
use protoclaw.Channels.Context.{ContextMessage, of_group, take_context}
use protoclaw.Channels.Context.Buffer.{newest, store_all, take-store_all}
use protoclaw.Channels.Manager.{
  ack_message, typing_indicator, response_started, deliver_message, response_completed, forwarded,
  Outside, ChannelSendMessage, ChannelSlot, ChannelsManager, RoutingEntry, Sent, to_channel,
}
use protoclaw.Channels.Manager.Routes.{Routable}
use protoclaw.Channels.Manager.Events.{
  ChannelEvent, deliver, dispatch_started, session_complete, deliver_to_channel,
}
use protoclaw.Channels.Manager.Events.View.{run_events, sent_for, events_of, session_view}
use protoclaw.Channels.Manager.Events.Turns.{run_events_refine}
use protoclaw.Channels.Manager.Forward.{Answers, answered}
use protoclaw.Channels.Manager.Collect.{decision, collect_send_message, history_limit}
use protoclaw.Channels.Manager.Collect.Routing.{routed, new_entry, routed-Routable}
use protoclaw.Channels.Manager.Collect.Gate.{rows_after, collect-denied}
use protoclaw.Channels.Manager.Replies.{first_sent, admitted, collect-run_events}

pub data Doc : Type 0 where
  null hello options access closed strict nobody : Doc

unfoldable pub field_of : Text → Doc → Option Doc
field_of key options = if key =? bytes "access_control" then some access else none
field_of key closed = if key =? bytes "access_control" then some strict else none
field_of key strict = if key =? bytes "allowed_users" then some nobody else none
field_of key _ = none

unfoldable pub as_array_of : Doc → Option (List Doc)
as_array_of nobody = some []
as_array_of _ = none

-- The options with an entry admit nobody.
unfoldable pub value_of : Map Text Doc → Doc
value_of [] = options
value_of (entry ∷ entries) = closed

abbrev pub message : ChannelSendMessage
message = record {
  peer_info = record { channel_name = bytes "tg"; peer_id = bytes "tg:5"; kind = bytes "direct" };
  content = text (bytes "hi") ∷ [];
  metadata = none;
  sender_info = none;
  was_mentioned = none;
}

unfoldable pub message_of : Doc → Option ChannelSendMessage
message_of hello = some message
message_of _ = none

abbrev pub outside : Outside
outside = record {
  json = record {
    Value = Doc;
    field = field_of;
    as_i64 = λ v. none;
    as_str = λ v. none;
    as_bool = λ v. none;
    as_array = as_array_of;
    as_object = λ v. none;
  };
  as_u64 = λ v. none;
  null = null;
  to_value = value_of;
  send_message = message_of;
  respond_permission = λ v. none;
  to_lowercase = λ s. s;
  Connection = ℕ;
  Token = ℕ;
}

abbrev pub lifecycle : SlotLifecycle ℕ
lifecycle = record {
  cancel_token = 0;
  backoff = record { current = 1; max = 8; base = 1; attempts = 0 };
  crash_tracker = CrashTracker.new 5 60;
  disabled = false;
}

abbrev pub channel : Text → ℕ → ChannelSlot outside
channel name c = record {
  name = name;
  agent = bytes "a";
  options = [];
  connection = some c;
  channel_id = name;
  lifecycle = lifecycle;
}

abbrev pub idle : ChannelsManager outside
idle = record {
  slots = channel (bytes "http") 7 ∷ channel (bytes "tg") 8 ∷ [];
  routing_table = [];
  acked_sessions = [];
  agents_handle = true;
  context_store = [];
}

idle-Routable : Routable outside idle
unfolding get
idle-Routable key entry g = absurd (ground (arith, g))

abbrev pub key : SessionKey
key = bytes "tg:direct:tg:5"

abbrev pub other_key : SessionKey
other_key = bytes "http:local:dev"

abbrev pub with_other : ChannelsManager outside
with_other =
    routed outside idle other_key (new_entry outside 0 (channel (bytes "http") 7) (bytes "s0"))

pub with_other-Routable : Routable outside with_other
with_other-Routable =
    routed-Routable outside idle other_key
      (new_entry outside 0 (channel (bytes "http") 7) (bytes "s0")) idle-Routable (omega arith)

abbrev pub answers : Answers
answers = record {
  now = 3661;
  store_failed = false;
  take_failed = false;
  created = answered (bytes "s1");
  enqueued = answered tt;
  responded = true;
}
