-- ===== src/Telegram/Deliver/Responses.antt =====
-- ext/channels/telegram/src/deliver.rs: a chunk of the response, the timer that sends the first
-- message of it, and what a timer that finalizes the response does.
pub mod Sections
pub mod Taken
pub mod Once
pub mod Quiet
pub mod Lost
use protoclaw.Base.{
  ℕ, zero, suc, Bool, true, false, Option, none, some, List, [], ◌∷◌, ◌++◌, if◌then◌else◌, nat_eqb,
  is_empty, nat_eq, list_eq,
}
use protoclaw.Base.Map.{get, insert, remove}
use protoclaw.Base.Text.{Text, bytes, int_eq}
use protoclaw.Telegram.Turn.{
  Outside, ResponseTrack, ChatTurn, append_response, can_edit_response, begin_finalizing,
  take_response_for_finalize, try_finalize_response, is_finalizing,
}
use protoclaw.Telegram.Deliver.{
  ChatId, Timer, debounce_send_response, finalize_late, Effect, send_message, edit_message_text,
  spawn, abort, aborts, State, Awaits, put, drop_turn, behind, on_turn, chunks, partial_chunks,
  edit_and_send, first_only, send_or_edit_final, flush_different, entry_turn,
}
use protoclaw.Telegram.Deliver.Thoughts.{on_thought}

module _ (out : Outside) where
  abbrev pub on_response : (ResponseTrack → ResponseTrack) → ChatTurn out → ChatTurn out
  on_response f turn = elim turn.response [
    | none ↦ turn
    | some track ↦ record turn { response = some (f track) }
  ]

  -- The chunk joins the response of the turn; thoughts are shown again.
  unfoldable pub add_chunk :
      (now : ℕ) → ChatId → Option Text → Text → State out → State out × ChatTurn out
  add_chunk now chat message_id text s =
      let turn = append_response out now text 0 (
        on_thought out (λ track. record track { suppressed = false })
          (entry_turn out now chat message_id s)) in
      (put out chat turn s, turn)

  -- The finalizing task of the turn is replaced; what it was is aborted.
  unfoldable pub restart_finalizing :
      Timer → (handle : ℕ) → ChatId → State out → State out × List Effect
  restart_finalizing timer handle chat s = elim (get chat s.turns) [
    | none ↦ (s, spawn timer chat handle ∷ [])
    | some turn ↦
        let (turn', handles) = begin_finalizing out handle turn in
        (put out chat turn' s, spawn timer chat handle ∷ aborts handles)
  ]

  -- An edit is made only where the last one is long enough ago.
  unfoldable pub edit_shown :
      Awaits out → ChatId → (msg_id : ℕ) → Text → State out → State out × List Effect
  edit_shown a chat msg_id buffer s = elim (get chat s.turns) [
    | none ↦ (s, [])
    | some turn ↦
        let (turn', can_edit) = can_edit_response out (a.now 2) s.response_edit_cooldown_ms turn in
        (
          put out chat turn' s,
          if can_edit
              then first_only (edit_message_text chat msg_id) (partial_chunks out buffer)
              else [],
        )
  ]

  abbrev has_debounce : Option (ChatTurn out) → Bool
  has_debounce none = false
  has_debounce (some turn) = elim turn.response [
    | none ↦ false
    | some track ↦ elim track.debounce_handle [ none ↦ false | some handle ↦ true ]
  ]

  -- Before the first message: a timer, unless it runs already.
  unfoldable pub start_debounce : Awaits out → ChatId → State out → State out × List Effect
  start_debounce a chat s = if has_debounce (get chat s.turns) then (s, []) else (
    on_turn out (on_response (λ track. record track { debounce_handle = some a.handle })) chat
        (a.meanwhile 2 s),
    spawn debounce_send_response chat a.handle ∷ [],
  )

  -- After the result the message is edited at once, if there is one.
  unfoldable pub finalize_again :
      Awaits out → ChatId → ResponseTrack → State out → State out × List Effect
  finalize_again a chat track s =
      let (s', es) = restart_finalizing finalize_late a.handle chat s in
      (
        s',
        (if nat_eqb track.msg_id 0
              then []
              else edit_and_send chat track.msg_id (chunks out track.buffer))
            ++ es,
      )

  -- How the response with the chunk is shown.
  unfoldable pub show_chunk :
      Awaits out → ChatId → ChatTurn out → ResponseTrack → State out → State out × List Effect
  show_chunk a chat turn track s =
      if is_empty track.buffer
      then (s, [])
      else if is_finalizing out turn
      then finalize_again a chat track (a.meanwhile 1 s)
      else if nat_eqb track.msg_id 0
      then start_debounce a chat (a.meanwhile 1 s)
      else edit_shown a chat track.msg_id track.buffer (a.meanwhile 1 s)

  unfoldable pub chunk_added :
      Awaits out → ChatId → List Effect → State out × ChatTurn out → State out × List Effect
  chunk_added a chat es (s, turn) = elim turn.response [
    | none ↦ (s, es)
    | some track ↦ behind es (show_chunk a chat turn track s)
  ]

  unfoldable pub chunk_flushed :
      Awaits out → ChatId → Option Text → Text → State out × List Effect → State out × List Effect
  chunk_flushed a chat message_id text (s, es) =
      chunk_added a chat es (add_chunk (a.now 1) chat message_id text (a.meanwhile 0 s))

  unfoldable pub deliver_chunk :
      Awaits out → ChatId → Option Text → Text → State out → State out × List Effect
  deliver_chunk a chat message_id text s =
      chunk_flushed a chat message_id text (flush_different out (a.now 0) chat message_id s)

  -- Claims the right to finalize the response of the chat.
  unfoldable pub claim : ChatId → State out → State out × Bool
  unfolding try_finalize_response
  claim chat s = elim (get chat s.turns) [
    | none ↦ (s, false)
    | some turn ↦ let (turn', won) = try_finalize_response out turn in (put out chat turn' s, won)
  ]

  -- The first message of the response, whose id is kept.
  unfoldable pub send_first :
      Awaits out → ChatId → Text → State out × Bool → State out × List Effect
  send_first a chat buffer (s, false) = (s, [])
  send_first a chat buffer (s, true) = (
    elim a.sent [
      | none ↦ a.meanwhile 1 s
      | some id ↦
          on_turn out (on_response (λ track. record track { msg_id = id; debounce_handle = none }))
            chat (a.meanwhile 1 s)
    ],
    first_only (send_message chat) (partial_chunks out buffer),
  )

  unfoldable pub debounce_response : Awaits out → ChatId → State out → State out × List Effect
  debounce_response a chat s = elim (get chat s.turns) [
    | none ↦ (s, [])
    | some turn ↦ elim turn.response [
      | none ↦ (s, [])
      | some track ↦
          if is_empty track.buffer
          then (s, [])
          else if nat_eqb track.msg_id 0
          then send_first a chat track.buffer (claim chat (a.meanwhile 0 s))
          else (s, [])
    ]
  ]

  -- What the winner sends at last, of the response as it is now.
  unfoldable pub final_data : ChatId → State out × Bool → Option (Text × ℕ)
  unfolding take_response_for_finalize
  final_data chat (s, false) = none
  final_data chat (s, true) = elim (get chat s.turns) [
    | none ↦ none
    | some turn ↦ take_response_for_finalize out turn
  ]

  unfoldable pub send_final : (edited : Bool) → ChatId → Option (Text × ℕ) → List Effect
  send_final edited chat none = []
  send_final edited chat (some (text, msg_id)) =
      if is_empty text then [] else send_or_edit_final out edited chat text msg_id

  -- A finalizing timer: the last of the response, and the turn is gone.
  unfoldable pub finalize : Awaits out → ChatId → State out → State out × List Effect
  finalize a chat s =
      let claimed = claim chat s in
      (
        drop_turn out chat (a.meanwhile 0 claimed.0),
        send_final a.edited chat (final_data chat claimed),
      )
