-- ===== src/Telegram/Tests/Turns.antt =====
-- A chat's turn with a Telegram that answers: tests, and instances of the theorems on deliveries.
use protoclaw.Base.{
  ◌≡◌, refl, true, false, none, some, List, [], ◌∷◌, arith, nat_eq, list_eq, list_eqb,
}
use protoclaw.Base.Map.{get, insert}
use protoclaw.Base.Text.{pos, bytes, int_eq}
use protoclaw.Base.Json.{Json}
use protoclaw.Telegram.Formatting.{Strings}
use protoclaw.Telegram.Turn.{Outside, ToolCallTrack, completed, is_terminal, ChatTurn, new_turn}
use protoclaw.Telegram.Deliver.{
  ChatId, send_message, spawn, debounce_send_response, finalize_result, State, put, first_only,
  partial_chunks,
}
use protoclaw.Telegram.Deliver.Tools.Terminal.{Update, run_updates, run_updates-terminal}
use protoclaw.Telegram.Deliver.Responses.{deliver_chunk, debounce_response, finalize}
use protoclaw.Telegram.Deliver.Results.{deliver_result}
use protoclaw.Telegram.Deliver.Responses.Quiet.{quiet}
use protoclaw.Telegram.Deliver.Responses.Lost.{second_chunk_lost}

-- No JSON but one value, and texts without any Markdown.
data Nothing : Type 0 where
  null : Nothing

abbrev json : Json
json = record {
  Value = Nothing;
  field = λ name v. none;
  as_i64 = λ v. none;
  as_str = λ v. none;
  as_bool = λ v. none;
  as_array = λ v. none;
  as_object = λ v. none;
}

abbrev plain : Strings
plain = record { matches = λ p t. ([], t); first_word = λ t. some t }

abbrev out : Outside
out = record {
  json = json;
  str = plain;
  empty_array = null;
  as_u64 = λ v. none;
  is_null = λ v. true;
  number_text = λ v. [];
  kilobytes = λ n. [];
  seconds = λ n. [];
  is_url = λ t. true;
}

abbrev chat : ChatId
chat = pos 5

abbrev idle : State out
idle = record {
  session_chat_map = (bytes "s1", chat) ∷ [];
  turns = [];
  thought_emoji = bytes "*";
  response_edit_cooldown_ms = 500;
}

-- The second chunk comes 300 ms after the first.
second_chunk_lost_example :
    let (s1, e1) =
      deliver_chunk out (quiet out 1000 1 none) chat (some (bytes "m")) (bytes "Hello") idle in
    let (s2, e2) = debounce_response out (quiet out 1200 1 (some 77)) chat s1 in
    let (s3, e3) =
      deliver_chunk out (quiet out 1300 2 none) chat (some (bytes "m")) (bytes " world") s2 in
    let (s4, e4) = deliver_result out (quiet out 1310 2 none) chat (some (bytes "m")) false [] s3 in
    let (s5, e5) = finalize out (quiet out 1510 2 none) chat s4 in
    (e1 ≡ spawn debounce_send_response chat 1 ∷ [])
    × (e2 ≡ first_only (send_message chat) (partial_chunks out (bytes "Hello")))
    × (e3 ≡ [])
    × (e4 ≡ spawn finalize_result chat 2 ∷ [])
    × (e5 ≡ [])
    × (get chat s5.turns ≡ none)
second_chunk_lost_example =
    second_chunk_lost out 1000 1200 1300 1310 1510 1 2 77 chat (bytes "m") b'H' (bytes "ello")
      (bytes " world") [] idle (unfold get in refl) (omega arith) (omega arith)

-- What is sent of it.
only_hello : partial_chunks out (bytes "Hello") ≡ bytes "Hello" ∷ []
unfolding partial_chunks
only_hello = refl

abbrev ls : ToolCallTrack out
ls = record { name = bytes "ls"; status = completed; input = none }

abbrev with_tool : ChatTurn out
with_tool = record (new_turn out 0 (bytes "m")) {
  tool_calls = (bytes "t1", ls) ∷ [];
  tool_call_order = bytes "t1" ∷ [];
}

abbrev late : List (Update out)
late =
    record {
      now = 1;
      id = bytes "t1";
      status = bytes "in_progress";
      output = none;
      input = none;
      exit_code = none;
    }
    ∷ []

run_updates-terminal_example :
    (turn : ChatTurn out) × (get chat
        (run_updates out chat late (put out chat with_tool idle)).turns
      ≡ some turn)
    × (get (bytes "t1") turn.tool_calls ≡ some ls)
unfolding insert list_eqb
run_updates-terminal_example =
    run_updates-terminal out late chat (bytes "t1") with_tool ls (put out chat with_tool idle)
      (unfold get in refl) (unfold get in refl) (unfold is_terminal in refl)
