-- ===== src/SdkTypes/Content.antt =====
-- crates/anyclaw-sdk-types/src/channel.rs: `ContentKind`, what a channel makes of the content of a
-- message to deliver. `empty_array` is the JSON value of an empty array.
use protoclaw.Base.{Bool, false, Option, none, some, [], if◌then◌else◌, ◌=?◌, nat_eq, list_eq}
use protoclaw.Base.Text.{Text, ℤ, bytes}
use protoclaw.Base.Json.{Json}

module _ (json : Json) (empty_array : json.Value) where
  pub data ContentKind : Type 0 where
    thought : Text → ContentKind
    message_chunk : Text → ContentKind
    result : Text → (is_error : Bool) → ContentKind
    user_message_chunk : Text → ContentKind
    usage_update : ContentKind
    tool_call : (name tool_call_id : Text) → (input : Option json.Value) → ContentKind
    tool_call_update :
        (name tool_call_id status : Text)
        → (output : Option Text) → (input : Option json.Value) → (exit_code : Option ℤ)
        → ContentKind
    available_commands_update : json.Value → ContentKind
    image : Text → ContentKind
    file : Text → (filename mime_type : Option Text) → ContentKind
    audio : Text → (mime_type : Option Text) → ContentKind
    unknown : ContentKind

  abbrev field_of : Text → Option json.Value → Option json.Value
  field_of name none = none
  field_of name (some v) = json.field name v

  abbrev text_of : Option json.Value → Option Text
  text_of none = none
  text_of (some v) = json.as_str v

  abbrev or_empty : Option Text → Text
  or_empty none = []
  or_empty (some t) = t

  abbrev either : Option json.Value → Option json.Value → Option json.Value
  either none other = other
  either (some v) other = some v

  abbrev str_field : Text → json.Value → Text
  str_field name v = or_empty (text_of (json.field name v))

  unfoldable pub extract_content_text : json.Value → Text
  extract_content_text update = elim (json.field (bytes "content") update) [
    | none ↦ []
    | some c ↦ elim (text_of (json.field (bytes "text") c)) [
      | some text ↦ text
      | none ↦ or_empty (json.as_str c)
    ]
  ]

  -- A chunk of a message by the type of its content.
  message_content : json.Value → Option json.Value → ContentKind
  unfolding extract_content_text
  message_content update content =
      let the = λ (name : Text). field_of name content in
      elim (text_of (the (bytes "type"))) [
        | none ↦ message_chunk (extract_content_text update)
        | some type ↦
            if type =? bytes "image"
            then image (or_empty (text_of (either (the (bytes "uri")) (the (bytes "url")))))
            else if type =? bytes "file"
            then file (or_empty (text_of (either (the (bytes "url")) (the (bytes "uri")))))
                (text_of (either (the (bytes "filename")) (the (bytes "name"))))
                (text_of (the (bytes "mimeType")))
            else if type =? bytes "audio"
            then audio (or_empty (text_of (either (the (bytes "data")) (the (bytes "url")))))
                (text_of (the (bytes "mimeType")))
            else if type =? bytes "resource_link"
            then file (or_empty (text_of (the (bytes "uri")))) (text_of (the (bytes "name")))
                (text_of (the (bytes "mimeType")))
            else message_chunk (extract_content_text update)
      ]

  bool_field : Text → json.Value → Bool
  bool_field name v = elim (json.field name v) [
    | none ↦ false
    | some b ↦ elim (json.as_bool b) [ none ↦ false | some x ↦ x ]
  ]

  exit_of : json.Value → Option ℤ
  exit_of update =
      elim (field_of (bytes "exit")
        (field_of (bytes "metadata") (json.field (bytes "rawOutput") update))) [
          | none ↦ none
          | some v ↦ json.as_i64 v
        ]

  -- By the name of the update.
  update_kind : Text → json.Value → ContentKind
  unfolding message_content bool_field exit_of extract_content_text
  update_kind name update =
      if name =? bytes "agent_thought_chunk"
      then thought (extract_content_text update)
      else if name =? bytes "agent_message_chunk"
      then message_content update (json.field (bytes "content") update)
      else if name =? bytes "result"
      then result (extract_content_text update) (bool_field (bytes "isError") update)
      else if name =? bytes "user_message_chunk"
      then user_message_chunk (extract_content_text update)
      else if name =? bytes "usage_update"
      then usage_update
      else if name =? bytes "tool_call"
      then tool_call (str_field (bytes "name") update) (str_field (bytes "toolCallId") update)
          (json.field (bytes "input") update)
      else if name =? bytes "tool_call_update"
      then tool_call_update (str_field (bytes "name") update)
          (str_field (bytes "toolCallId") update) (str_field (bytes "status") update)
          (text_of (json.field (bytes "output") update)) (json.field (bytes "input") update)
          (exit_of update)
      else if name =? bytes "available_commands_update"
      then available_commands_update
          (elim (json.field (bytes "availableCommands") update) [ none ↦ empty_array | some v ↦ v ])
      else unknown

  unfoldable pub from_content : json.Value → ContentKind
  unfolding update_kind
  from_content content = elim (json.field (bytes "update") content) [
    | none ↦ unknown
    | some update ↦ elim (text_of (json.field (bytes "sessionUpdate") update)) [
      | none ↦ unknown
      | some name ↦ update_kind name update
    ]
  ]
