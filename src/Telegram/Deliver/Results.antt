-- ===== src/Telegram/Deliver/Results.antt =====
-- ext/channels/telegram/src/deliver.rs: the result of a turn.
use protoclaw.Base.{
  ℕ, Bool, true, false, not, ◌&&◌, Option, none, some, List, [], ◌∷◌, ◌++◌, if◌then◌else◌, is_empty,
  nat_eq, list_eq,
}
use protoclaw.Base.Map.{get}
use protoclaw.Base.Text.{Text, int_eq}
use protoclaw.Telegram.Turn.{
  Outside, ThoughtTrack, ChatTurn, append_response, collapse_thought, is_different_turn,
}
use protoclaw.Telegram.Deliver.{
  ChatId, finalize_result, Effect, aborts, State, Awaits, put, behind, send_collapse, entry_turn,
}
use protoclaw.Telegram.Deliver.Responses.{restart_finalizing}

module _ (out : Outside) where
  -- A result under the id of another message belongs to a turn that is over.
  unfoldable pub is_stale : ChatId → Option Text → State out → Bool
  is_stale chat none s = false
  is_stale chat (some mid) s = elim (get chat s.turns) [
    | none ↦ false
    | some turn ↦ is_different_turn out mid turn
  ]

  unfoldable pub collapse : (now : ℕ) → ChatId → State out → State out × List Effect
  collapse now chat s = elim (get chat s.turns) [
    | none ↦ (s, [])
    | some turn ↦
        let (turn', collapsed, handles) = collapse_thought out now turn in
        (put out chat turn' s, aborts handles ++ send_collapse out s chat collapsed)
  ]

  -- Thoughts that come after the result are not shown.
  abbrev pub suppressed_thought : (now : ℕ) → Option ThoughtTrack → ThoughtTrack
  suppressed_thought now (some track) = record track { suppressed = true }
  suppressed_thought now none = record {
    msg_id = 0;
    started_at = now;
    buffer = [];
    debounce_handle = none;
    suppressed = true;
  }

  -- The text of an error joins the response, behind a warning sign in UTF-8.
  unfoldable pub with_error : (now : ℕ) → Bool → Text → ChatTurn out → ChatTurn out
  unfolding append_response
  with_error now is_error text turn =
      if is_error && not (is_empty text)
      then append_response out now ((0xE2 ∷ 0x9A ∷ 0xA0 ∷ 0xEF ∷ 0xB8 ∷ 0x8F ∷ 0x20 ∷ []) ++ text) 0
          turn
      else turn

  unfoldable pub add_result :
      (now : ℕ) → ChatId → Option Text → (is_error : Bool) → Text → State out → State out
  add_result now chat message_id is_error text s =
      let turn =
        with_error now is_error text
          (record (entry_turn out now chat message_id s) { last_result_was_error = is_error }) in
      put out chat (record turn { thought = some (suppressed_thought now turn.thought) }) s

  -- The result joins the turn, and a timer is started that finalizes it.
  unfoldable pub result_collapsed :
      Awaits out
      → ChatId
      → Option Text
      → (is_error : Bool) → Text
      → State out × List Effect
      → State out × List Effect
  result_collapsed a chat message_id is_error text (s, es) = behind es (
      restart_finalizing out finalize_result a.handle chat
        (a.meanwhile 2 (add_result (a.now 1) chat message_id is_error text (a.meanwhile 1 s))))

  unfoldable pub deliver_result :
      Awaits out
      → ChatId
      → Option Text
      → (is_error : Bool) → Text
      → State out
      → State out × List Effect
  deliver_result a chat message_id is_error text s =
      if is_stale chat message_id s
      then (s, [])
      else result_collapsed a chat message_id is_error text
          (collapse (a.now 0) chat (a.meanwhile 0 s))
