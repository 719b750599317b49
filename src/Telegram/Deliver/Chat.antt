-- ===== src/Telegram/Deliver/Chat.antt =====
-- ext/channels/telegram/src/deliver.rs: `deliver_to_chat`, one content of an agent for the chat of
-- its session.
use protoclaw.Base.{
  ℕ, ◌-◌, Bool, true, false, ◌||◌, Option, none, some, List, [], ◌∷◌, ◌++◌, if◌then◌else◌, leb,
  or_default, nat_eq, list_eq,
}
use protoclaw.Base.Map.{get}
use protoclaw.Base.Text.{Text, bytes}
use protoclaw.Base.Search.{find}
use protoclaw.SdkTypes.Content.{
  ContentKind, thought, message_chunk, result, user_message_chunk, usage_update, tool_call,
  tool_call_update, available_commands_update, image, file, audio, unknown, from_content,
}
use protoclaw.Telegram.Turn.{Outside}
use protoclaw.Telegram.Deliver.{
  ChatId, Effect, send_photo, send_document, send_voice, send_audio, set_my_commands, State, Awaits,
}
use protoclaw.Telegram.Deliver.Thoughts.{deliver_thought}
use protoclaw.Telegram.Deliver.Responses.{deliver_chunk}
use protoclaw.Telegram.Deliver.Results.{deliver_result}
use protoclaw.Telegram.Deliver.Tools.{deliver_tool_call, deliver_tool_update}

module _ (out : Outside) where
  open out use {json}

  abbrev str_of : Option json.Value → Option Text
  str_of none = none
  str_of (some v) = json.as_str v

  -- `update.messageId`.
  unfoldable pub message_id_of : json.Value → Option Text
  message_id_of content = elim (json.field (bytes "update") content) [
    | none ↦ none
    | some update ↦ str_of (json.field (bytes "messageId") update)
  ]

  -- When the content was received, by the clock `wall` of the day and the instant `now`.
  unfoldable pub origin_of : (wall now : ℕ) → json.Value → Option ℕ
  origin_of wall now content = elim (json.field (bytes "_received_at_ms") content) [
    | none ↦ none
    | some v ↦ elim (out.as_u64 v) [
      | none ↦ none
      | some received ↦ if leb (wall - received) now then some (now - (wall - received)) else none
    ]
  ]

  -- A command without a name or a description is left out.
  bot_command : json.Value → List (Text × Text)
  bot_command cmd = elim (str_of (json.field (bytes "name") cmd)) [
    | none ↦ []
    | some name ↦ elim (json.field (bytes "description") cmd) [
      | none ↦ []
      | some d ↦ elim (json.as_str d) [ none ↦ (name, name) ∷ [] | some text ↦ (name, text) ∷ [] ]
    ]
  ]

  bot_commands : List json.Value → List (Text × Text)
  unfolding bot_command
  bot_commands [] = []
  bot_commands (cmd ∷ cmds) = bot_command cmd ++ bot_commands cmds

  set_commands : json.Value → List Effect
  unfolding bot_commands
  set_commands commands = elim (bot_commands (or_default (json.as_array commands))) [
    | [] ↦ []
    | c ∷ cs ↦ set_my_commands (c ∷ cs) ∷ []
  ]

  -- `str::contains`.
  abbrev has : Text → Text → Bool
  has p s = elim (find p s) [ none ↦ false | some n ↦ true ]

  abbrev is_voice : Option Text → Bool
  is_voice none = false
  is_voice (some m) = has (bytes "ogg") m || has (bytes "opus") m

  if_url : Text → Effect → List Effect
  if_url url effect = if out.is_url url then effect ∷ [] else []

  unfoldable pub deliver_content :
      Awaits out
      → ChatId
      → Option Text
      → (origin : Option ℕ) → ContentKind json out.empty_array
      → State out
      → State out × List Effect
  unfolding deliver_thought deliver_chunk deliver_result deliver_tool_call deliver_tool_update
      set_commands if_url find
  deliver_content a chat mid origin (thought text) s = deliver_thought out a chat mid origin text s
  deliver_content a chat mid origin (message_chunk text) s = deliver_chunk out a chat mid text s
  deliver_content a chat mid origin (result text is_error) s =
      deliver_result out a chat mid is_error text s
  deliver_content a chat mid origin (tool_call name id input) s =
      deliver_tool_call out a chat mid name id input s
  deliver_content a chat mid origin (tool_call_update name id status output input exit_code) s =
      deliver_tool_update out (a.now 0) chat id status output input exit_code s
  deliver_content a chat mid origin (user_message_chunk text) s = (s, [])
  deliver_content a chat mid origin usage_update s = (s, [])
  deliver_content a chat mid origin (available_commands_update commands) s =
      (s, set_commands commands)
  deliver_content a chat mid origin (image url) s = (s, if_url url (send_photo chat url))
  deliver_content a chat mid origin (file url filename mime_type) s =
      (s, if_url url (send_document chat url filename))
  deliver_content a chat mid origin (audio url mime_type) s =
      (s, if_url url (if is_voice mime_type then send_voice chat url else send_audio chat url))
  deliver_content a chat mid origin unknown s = (s, [])

  -- `none` is the error of a session without a chat. `wall` is the clock of the day.
  unfoldable pub deliver_to_chat :
      Awaits out
      → (wall now : ℕ) → (session_id : Text) → json.Value
      → State out
      → Option (State out × List Effect)
  unfolding message_id_of origin_of deliver_content from_content
  deliver_to_chat a wall now session_id content s = elim (get session_id s.session_chat_map) [
    | none ↦ none
    | some chat ↦ some (
        deliver_content a chat (message_id_of content) (origin_of wall now content)
          (from_content json out.empty_array content) s)
  ]
