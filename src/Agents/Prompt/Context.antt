-- ===== src/Agents/Prompt/Context.antt =====
-- What the text of a message decides: crates/anyclaw-agents/src/platform_commands.rs, and
-- `extract_command_text` and `build_reply_context` of commands.rs.
use protoclaw.Base.{
  ℕ, Bool, true, false, ◌||◌, Option, none, some, List, [], ◌∷◌, ◌++◌, if◌then◌else◌, ◌=?◌, nat_eq,
  list_eq, nat_eqb,
}
use protoclaw.Base.Text.{Text, bytes}
use protoclaw.SdkTypes.Message.{ContentPart, text, MessageMetadata}

pub data PlatformCommand : Type 0 where
  new_command cancel_command : PlatformCommand

-- What stands before the first @, or all of it.
unfoldable pub before_mention : Text → Text
before_mention [] = []
before_mention (c ∷ s) = let rest = before_mention s in if nat_eqb c b'@' then [] else c ∷ rest

unfoldable pub find_command : Text → Option PlatformCommand
find_command name =
    if bytes "new" =? name
    then some new_command
    else if bytes "cancel" =? name
    then some cancel_command
    else none

unfoldable pub strip_slash : Text → Option Text
strip_slash [] = none
strip_slash (c ∷ s) = if nat_eqb c b'/' then some s else none

unfoldable pub match_platform_command : Text → Option PlatformCommand
unfolding before_mention find_command strip_slash
match_platform_command t = elim (strip_slash (before_mention t)) [
  | none ↦ none
  | some name ↦ find_command name
]

unfoldable pub extract_command_text : List ContentPart → Option Text
extract_command_text (text t ∷ []) = some t
extract_command_text _ = none

unfoldable pub platform_command : List ContentPart → Option PlatformCommand
unfolding extract_command_text
platform_command content = elim (extract_command_text content) [
  | none ↦ none
  | some t ↦ match_platform_command t
]

abbrev pub is_some {ℓ} : {A : Type ℓ} → Option A → Bool
is_some none = false
is_some (some x) = true

abbrev unwrap_or {ℓ} : {A : Type ℓ} → A → Option A → A
unwrap_or d none = d
unwrap_or d (some x) = x

abbrev newline : Text
newline = 10 ∷ []

-- The ASCII part of `char::is_whitespace`: a context begins with [ and ends with ] or a newline,
-- so that `trim` meets no other white space.
abbrev pub is_whitespace : ℕ → Bool
is_whitespace c =
    nat_eqb c 9
    || (nat_eqb c 10 || (nat_eqb c 11 || (nat_eqb c 12 || (nat_eqb c 13 || nat_eqb c 32))))

unfoldable pub trim_start : Text → Text
trim_start [] = []
trim_start (c ∷ s) = let rest = trim_start s in if is_whitespace c then rest else c ∷ s

unfoldable pub trim_end : Text → Text
trim_end [] = []
trim_end (c ∷ s) = elim (trim_end s) [
  | [] ↦ if is_whitespace c then [] else c ∷ []
  | d ∷ rest ↦ c ∷ d ∷ rest
]

abbrev pub has_reply : MessageMetadata → Bool
has_reply m =
    is_some m.reply_to_message_id || (is_some m.reply_to_text || is_some m.reply_to_media_type)

unfoldable pub thread_part : Option Text → Text
thread_part none = []
thread_part (some thread_id) = bytes "[Context: thread " ++ (thread_id ++ (bytes "]" ++ newline))

unfoldable pub id_part : Option Text → Text
id_part none = []
id_part (some id) = bytes " id:" ++ id

unfoldable pub quoted_part : Bool → Option Text → Option Text → Text
quoted_part true (some t) media = b'"' ∷ (t ++ (b'"' ∷ newline))
quoted_part false (some t) media = t ++ newline
quoted_part is_quote none (some media) = bytes "<media:" ++ (media ++ (bytes ">" ++ newline))
quoted_part is_quote none none = []

unfoldable pub reply_part : MessageMetadata → Text
unfolding id_part quoted_part
reply_part m =
    let is_quote = unwrap_or false m.reply_to_is_quote in
    bytes "["
    ++ ((if is_quote then bytes "Quoting" else bytes "Replying to")
        ++ (bytes " "
            ++ (unwrap_or (bytes "unknown sender") m.reply_to_sender
                ++ (id_part m.reply_to_message_id
                    ++ (bytes "]"
                        ++ (newline
                            ++ (quoted_part is_quote m.reply_to_text m.reply_to_media_type
                                ++ (bytes "[/"
                                    ++ ((if is_quote then bytes "Quoting" else bytes "Replying")
                                        ++ bytes "]")))))))))

unfoldable pub build_reply_context : MessageMetadata → Option Text
unfolding thread_part reply_part trim_start trim_end
build_reply_context m =
    let found = has_reply m in
    let thread = thread_part m.thread_id in
    if found || is_some m.thread_id
    then some (trim_start (trim_end (thread ++ (if found then reply_part m else []))))
    else none
