-- ===== src/SdkTypes/Message.antt =====
-- Message types of crates/anyclaw-sdk-types/src/acp.rs and channel.rs.
use protoclaw.Base.{Bool, Option}
use protoclaw.Base.Text.{Text}

pub data ContentPart : Type 0 where
  text : Text → ContentPart
  image : Text → ContentPart
  file : Text → Option Text → Option Text → ContentPart
  audio : Text → Option Text → ContentPart

pub record MessageMetadata : Type 0 where
  pub reply_to_message_id : Option Text
  pub reply_to_text : Option Text
  pub reply_to_sender : Option Text
  pub reply_to_sender_id : Option Text
  pub reply_to_is_quote : Option Bool
  pub reply_to_media_type : Option Text
  pub thread_id : Option Text

-- The stop reasons of the protocol's schema crate, as far as the source tells them apart.
pub data StopReason : Type 0 where
  end_turn max_tokens max_turn_requests refusal cancelled other_reason : StopReason
