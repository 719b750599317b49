-- ===== src/Telegram/Deliver.antt =====
-- ext/channels/telegram/src/deliver.rs: how the content of an agent is shown in a chat. Each
-- function of the source locks the turns, lets go of them while it waits for Telegram, and locks
-- them again; here it takes `Awaits`, which says what happens meanwhile. `State` is the part of
-- state.rs that it uses. A timer is a function of its own that may run at any time; the delays
-- themselves are not modelled. A call of Telegram stands for the whole `retry_telegram_op`.
pub mod Thoughts
pub mod Responses
pub mod Results
pub mod Tools
pub mod Chat
use protoclaw.Base.{
  or_default, ℕ, Bool, true, false, not, ◌&&◌, Option, none, some, List, [], ◌∷◌, ◌++◌, map,
  if◌then◌else◌, nat_eqb, is_empty, ◌=?◌, nat_eq, list_eq,
}
use protoclaw.Base.Map.{Map, get, insert, remove}
use protoclaw.Base.Text.{Text, ℤ, bytes, int_eq}
use protoclaw.Telegram.Formatting.{format_telegram_html, close_open_tags}
use protoclaw.Telegram.Split.{split_message}
use protoclaw.Telegram.Turn.{
  Outside, ChatTurn, new_turn, take_response_for_finalize, collapse_thought, cleanup, is_finalizing,
  is_different_turn,
}

abbrev pub telegram_max_message_len : ℕ
telegram_max_message_len = 4096

abbrev pub ChatId : Type 0
ChatId = ℤ

-- The tasks that are spawned, each with its label.
pub data Timer : Type 0 where
  debounce_thought_edit debounce_send_response finalize_late finalize_result : Timer

-- What goes to Telegram, and the tasks that are spawned and aborted.
pub data Effect : Type 0 where
  send_message : ChatId → Text → Effect
  edit_message_text : ChatId → (msg_id : ℕ) → Text → Effect
  send_photo : ChatId → Text → Effect
  send_document : ChatId → Text → (file_name : Option Text) → Effect
  send_voice : ChatId → Text → Effect
  send_audio : ChatId → Text → Effect
  set_my_commands : List (Text × Text) → Effect
  spawn : Timer → ChatId → (handle : ℕ) → Effect
  abort : ℕ → Effect

unfoldable pub aborts : List ℕ → List Effect
aborts handles = map (λ h. abort h) handles

unfoldable pub sends : ChatId → List Text → List Effect
sends chat ts = map (send_message chat) ts

-- The first message is edited, the others are sent.
unfoldable pub edit_and_send : ChatId → (msg_id : ℕ) → List Text → List Effect
unfolding sends
edit_and_send chat msg_id [] = []
edit_and_send chat msg_id (t ∷ ts) = edit_message_text chat msg_id t ∷ sends chat ts

abbrev pub first_only : (Text → Effect) → List Text → List Effect
first_only f [] = []
first_only f (t ∷ ts) = f t ∷ []

abbrev pub id_or_empty : Option Text → Text
id_or_empty none = []
id_or_empty (some mid) = mid

-- What was sent before comes first.
abbrev pub behind : {S : Type 0} → List Effect → S × List Effect → S × List Effect
behind es (s, more) = (s, es ++ more)

module _ (out : Outside) where
  pub record State : Type 0 where
    pub session_chat_map : Map Text ChatId
    pub turns : Map ChatId (ChatTurn out)
    pub thought_emoji : Text
    pub response_edit_cooldown_ms : ℕ

  -- During one call: what the other tasks do while it waits for the k-th time, the instants at
  -- which it looks at the clock, the message that Telegram has made of the one that is sent, if
  -- any, whether the edit succeeds, and the handle of the task that is spawned.
  pub record Awaits : Type 0 where
    pub meanwhile : ℕ → State → State
    pub now : ℕ → ℕ
    pub sent : Option ℕ
    pub edited : Bool
    pub handle : ℕ

  abbrev pub put : ChatId → ChatTurn out → State → State
  put chat turn s = record s { turns = insert chat turn s.turns }

  abbrev pub drop_turn : ChatId → State → State
  drop_turn chat s = record s { turns = remove chat s.turns }

  -- `turns.get_mut(&chat_id)`, with a change of the turn if there is one.
  unfoldable pub on_turn : (ChatTurn out → ChatTurn out) → ChatId → State → State
  on_turn f chat s = elim (get chat s.turns) [ none ↦ s | some turn ↦ put chat (f turn) s ]

  -- The messages that a text comes to. The limit is far above the four bytes of a character, so that
  -- splitting a `String` does not panic.
  unfoldable pub chunks : Text → List Text
  unfolding format_telegram_html split_message
  chunks text =
      or_default (split_message (format_telegram_html out.str text) telegram_max_message_len)

  -- The same for a text that may be incomplete.
  unfoldable pub partial_chunks : Text → List Text
  unfolding format_telegram_html close_open_tags split_message
  partial_chunks text = or_default (
      split_message (close_open_tags out.str (format_telegram_html out.str text))
        telegram_max_message_len)

  -- A failed edit is made up for by a new message.
  unfoldable pub send_or_edit_final : (edited : Bool) → ChatId → Text → (msg_id : ℕ) → List Effect
  unfolding chunks sends edit_and_send
  send_or_edit_final edited chat text msg_id =
      if nat_eqb msg_id 0
      then sends chat (chunks text)
      else if edited
      then edit_and_send chat msg_id (chunks text)
      else first_only (edit_message_text chat msg_id) (chunks text) ++ sends chat (chunks text)

  pub record PendingFlush : Type 0 where
    pub response : Option (Text × ℕ)
    pub thought_collapse : Option (ℕ × ℕ)

  -- With the tasks that are aborted.
  unfoldable pub flush_turn_data : (now : ℕ) → ChatTurn out → PendingFlush × List ℕ
  unfolding take_response_for_finalize collapse_thought cleanup
  flush_turn_data now turn =
      let (turn', collapse, handles) = collapse_thought out now turn in
      (
        record { response = take_response_for_finalize out turn; thought_collapse = collapse },
        handles ++ (cleanup out turn').1,
      )

  unfoldable pub collapse_text : State → ℕ → Text
  collapse_text s elapsed =
      s.thought_emoji ++ (bytes " Thought for " ++ (out.seconds elapsed ++ bytes "s"))

  send_response : ChatId → Option (Text × ℕ) → List Effect
  unfolding chunks sends edit_and_send
  send_response chat none = []
  send_response chat (some (text, msg_id)) =
      if is_empty text
      then []
      else if nat_eqb msg_id 0
      then sends chat (chunks text)
      else edit_and_send chat msg_id (chunks text)

  -- The message of the thought says how long it took, if there is one.
  unfoldable pub send_collapse : State → ChatId → Option (ℕ × ℕ) → List Effect
  unfolding collapse_text
  send_collapse s chat none = []
  send_collapse s chat (some (msg_id, elapsed)) =
      if nat_eqb msg_id 0 then [] else edit_message_text chat msg_id (collapse_text s elapsed) ∷ []

  unfoldable pub send_flush : State → ChatId → PendingFlush → List Effect
  unfolding send_response send_collapse
  send_flush s chat flush =
      send_response chat flush.response ++ send_collapse s chat flush.thought_collapse

  -- The turn is flushed and taken out.
  unfoldable pub flush_out : (now : ℕ) → ChatId → ChatTurn out → State → State × List Effect
  unfolding flush_turn_data send_flush aborts
  flush_out now chat turn s =
      let (flush, handles) = flush_turn_data now turn in
      (drop_turn chat s, aborts handles ++ send_flush s chat flush)

  -- A content with the id of another message begins another turn.
  unfoldable pub flush_different :
      (now : ℕ) → ChatId → (message_id : Option Text) → State → State × List Effect
  unfolding flush_out is_different_turn
  flush_different now chat none s = (s, [])
  flush_different now chat (some mid) s = elim (get chat s.turns) [
    | none ↦ (s, [])
    | some turn ↦ if is_different_turn out mid turn then flush_out now chat turn s else (s, [])
  ]

  unfoldable pub flush_finalizing : (now : ℕ) → ChatId → State → State × List Effect
  unfolding flush_out is_finalizing
  flush_finalizing now chat s = elim (get chat s.turns) [
    | none ↦ (s, [])
    | some turn ↦ if is_finalizing out turn then flush_out now chat turn s else (s, [])
  ]

  abbrev pub renamed : Text → ChatTurn out → ChatTurn out
  renamed mid turn = if is_empty mid then turn else record turn { message_id = mid }

  -- The turn of the chat or a new one, under the id of the message if it has one.
  unfoldable pub entry_turn : (now : ℕ) → ChatId → Option Text → State → ChatTurn out
  unfolding new_turn
  entry_turn now chat message_id s = elim (get chat s.turns) [
    | some turn ↦ renamed (id_or_empty message_id) turn
    | none ↦ renamed (id_or_empty message_id) (new_turn out now (id_or_empty message_id))
  ]
