-- ===== src/Channels/Manager/Messages.antt =====
-- crates/anyclaw-channels/src/manager.rs: what `collect_send_message` reads from a message, and
-- the texts that it makes.
use protoclaw.Base.{
  ℕ, ◌+◌, ◌/◌, ◌%◌, Bool, true, false, Option, none, some, List, [], ◌∷◌, ◌++◌, if◌then◌else◌, ◌=?◌,
  nat_eq, list_eq,
}
use protoclaw.Base.Text.{Text, bytes, ℤ, pos, parse_i64}
use protoclaw.SdkTypes.SessionKey.{SessionKey, is_colon, new}
use protoclaw.SdkTypes.Message.{ContentPart, text, MessageMetadata}
use protoclaw.Channels.AccessControl.{SenderIdentity, unwrap_or}
use protoclaw.Channels.AccessControl.Options.{filter_map, ◌>>=◌}
use protoclaw.Channels.Context.{ContextMessage}
use protoclaw.Channels.Manager.{SenderInfo, ChannelSendMessage}

two_digits : ℕ → Text
two_digits n = (48 + n / 10) ∷ (48 + n % 10) ∷ []

unfoldable pub format_timestamp : ℕ → Text
unfolding two_digits
format_timestamp unix_secs =
    let secs_in_day = unix_secs % 86400 in
    two_digits (secs_in_day / 3600) ++ (b':' ∷ two_digits (secs_in_day % 3600 / 60))

format_lines : List ContextMessage → Text
unfolding format_timestamp
format_lines [] = []
format_lines (m ∷ messages) =
    bytes "["
    ++ (m.sender
        ++ (bytes ", "
            ++ (format_timestamp m.timestamp
                ++ (bytes "] " ++ (m.content ++ (bytes "\n" ++ format_lines messages))))))

unfoldable pub format_context_block : List ContextMessage → Text
unfolding format_lines
format_context_block messages =
    bytes "[Recent group messages for context]\n"
    ++ (format_lines messages ++ bytes "\n[Current message]\n")

-- `split_once(':')`, the part behind the colon.
unfoldable pub after_colon : Text → Option Text
after_colon [] = none
after_colon (c ∷ s) = let later = after_colon s in if is_colon c then some s else later

unfoldable pub build_session_key : ChannelSendMessage → SessionKey
build_session_key msg = new msg.peer_info.channel_name msg.peer_info.kind msg.peer_info.peer_id

unfoldable pub is_group : ChannelSendMessage → Bool
is_group msg =
    if msg.peer_info.kind =? bytes "group" then true else msg.peer_info.kind =? bytes "supergroup"

unfoldable pub bot_mentioned : ChannelSendMessage → Bool
bot_mentioned msg = unwrap_or msg.was_mentioned false

unfoldable pub identity : Option SenderInfo → SenderIdentity
identity none = record { user_id = none; username = none }
identity (some info) = record {
  user_id = info.sender_id >>= parse_i64;
  username = info.sender_name;
}

-- 0 where the id behind the colon is no number.
unfoldable pub chat_id : ChannelSendMessage → ℤ
unfolding after_colon
chat_id msg = unwrap_or (after_colon msg.peer_info.peer_id >>= parse_i64) (pos 0)

text_of : ContentPart → Option Text
text_of (text t) = some t
text_of _ = none

join_spaces : List Text → Text
join_spaces [] = []
join_spaces (t ∷ []) = t
join_spaces (t ∷ u ∷ rest) = t ++ (b' ' ∷ join_spaces (u ∷ rest))

unfoldable pub context_message : ℕ → ChannelSendMessage → ContextMessage
unfolding text_of join_spaces
context_message now msg = record {
  group_key = msg.peer_info.peer_id;
  sender = elim msg.sender_info [
    | none ↦ bytes "unknown"
    | some info ↦ unwrap_or info.sender_name (bytes "unknown")
  ];
  content = join_spaces (filter_map text_of msg.content);
  timestamp = now;
}

unfoldable pub reply_identity : MessageMetadata → SenderIdentity
reply_identity meta = record {
  user_id = meta.reply_to_sender_id >>= parse_i64;
  username = meta.reply_to_sender;
}
