-- ===== src/Telegram/Deliver/Tools.antt =====
-- ext/channels/telegram/src/deliver.rs: the calls of tools, which one message of a turn shows.
pub mod Terminal
use protoclaw.Base.{
  ℕ, zero, suc, Bool, true, false, not, ◌&&◌, ◌||◌, Option, none, some, List, [], ◌∷◌, ◌++◌,
  if◌then◌else◌, nat_eqb, is_empty, ◌=?◌, nat_eq, list_eq,
}
use protoclaw.Base.Map.{get, insert}
use protoclaw.Base.Text.{Text, ℤ, pos, bytes, int_eq}
use protoclaw.Telegram.Turn.{
  Outside, ToolCallStatus, started, in_progress, completed, failed, is_terminal, ToolCallTrack,
  ChatTurn, render_tools_text, can_edit_tools, is_finalizing,
}
use protoclaw.Telegram.Deliver.{
  ChatId, Effect, send_message, edit_message_text, State, Awaits, put, on_turn, id_or_empty,
  renamed,
}
use protoclaw.Telegram.Deliver.Thoughts.{on_thought}

abbrev pub display_name : Text → Text
display_name name = if is_empty name then bytes "tool" else name

-- The exit code of a tool that has failed.
abbrev pub is_failure : Option ℤ → Bool
is_failure none = false
is_failure (some code) = not (code =? pos 0)

unfoldable pub status_of : Text → Option Text → Option ℤ → ToolCallStatus
status_of status output exit_code =
    if (status =? bytes "completed") && is_failure exit_code
    then failed output
    else if status =? bytes "in_progress"
    then in_progress
    else if status =? bytes "completed"
    then completed
    else if status =? bytes "failed"
    then failed output
    else in_progress

module _ (out : Outside) where
  open out use {json}

  -- A call without an id is not kept.
  unfoldable pub add_tool_call : (name id : Text) → Option json.Value → ChatTurn out → ChatTurn out
  add_tool_call name id input turn = if is_empty id then turn else record turn {
    tool_call_order = turn.tool_call_order ++ (id ∷ []);
    tool_calls =
        insert id (record { name = display_name name; status = started; input = input })
          turn.tool_calls;
  }

  -- The text of the tools message is edited in, or sent as a new message whose id is kept.
  show_tools : Awaits out → ChatId → ChatTurn out × Text → State out → State out × List Effect
  unfolding on_turn
  show_tools a chat (turn, text) s =
      if is_empty text
      then (s, [])
      else if nat_eqb turn.tools_msg_id 0
      then (
        elim a.sent [
          | none ↦ a.meanwhile 0 s
          | some id ↦ on_turn out (λ t. record t { tools_msg_id = id }) chat (a.meanwhile 0 s)
        ],
        send_message chat text ∷ [],
      )
      else (s, edit_message_text chat turn.tools_msg_id text ∷ [])

  unfoldable pub deliver_tool_call :
      Awaits out
      → ChatId
      → Option Text
      → (name id : Text) → Option json.Value
      → State out
      → State out × List Effect
  unfolding is_finalizing add_tool_call render_tools_text show_tools
  deliver_tool_call a chat message_id name id input s = elim (get chat s.turns) [
    | none ↦ (s, [])
    | some turn ↦
        if is_finalizing out turn
        then (s, [])
        else let shown = render_tools_text out (
            add_tool_call name id input (
              on_thought out (λ track. record track { suppressed = false })
                (renamed out (id_or_empty message_id) turn))) in
          show_tools a chat shown (put out chat shown.0 s)
  ]

  -- The track after an update; the arguments are filled in where there were none.
  unfoldable pub updated :
      (status : Text)
      → (output : Option Text) → Option json.Value
      → (exit_code : Option ℤ) → ToolCallTrack out
      → ToolCallTrack out
  unfolding status_of
  updated status output input exit_code track = record track {
    input = elim track.input [ none ↦ input | some v ↦ some v ];
    status = status_of status output exit_code;
  }

  -- A terminal status is shown at once, another one only where the last edit is long enough ago.
  unfoldable pub may_edit : (now cooldown : ℕ) → ToolCallStatus → ChatTurn out → ChatTurn out × Bool
  unfolding is_terminal can_edit_tools
  may_edit now cooldown status turn =
      if is_terminal status then (turn, true) else can_edit_tools out now cooldown turn

  show_update : ChatId → State out → ChatTurn out × Bool → State out × List Effect
  unfolding render_tools_text
  show_update chat s (turn, false) = (put out chat turn s, [])
  show_update chat s (turn, true) =
      let (turn', text) = render_tools_text out turn in
      (
        put out chat turn' s,
        if nat_eqb turn'.tools_msg_id 0 || is_empty text
            then []
            else edit_message_text chat turn'.tools_msg_id text ∷ [],
      )

  unfoldable pub deliver_tool_update :
      (now : ℕ)
      → ChatId
      → (id status : Text) → (output : Option Text) → Option json.Value
      → (exit_code : Option ℤ) → State out
      → State out × List Effect
  unfolding is_finalizing is_terminal updated may_edit show_update
  deliver_tool_update now chat id status output input exit_code s = elim (get chat s.turns) [
    | none ↦ (s, [])
    | some turn ↦ if is_finalizing out turn then (s, []) else elim (get id turn.tool_calls) [
      | none ↦ (s, [])
      | some track ↦
          if is_terminal track.status
          then (s, [])
          else let track' = updated status output input exit_code track in
            show_update chat s (
              may_edit now s.response_edit_cooldown_ms track'.status
                (record turn { tool_calls = insert id track' turn.tool_calls }))
    ]
  ]
