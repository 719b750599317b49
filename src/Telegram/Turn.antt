-- ===== src/Telegram/Turn.antt =====
-- ext/channels/telegram/src/turn.rs: what a chat shows of the current turn of its agent. Instants
-- are milliseconds from a moment more than a minute before the program's start; a task is a number.
use protoclaw.Base.{
  ℕ, ◌+◌, ◌-◌, ◌%◌, ◌^◌, Bool, true, false, not, Option, none, some, List, [], ◌∷◌, ◌++◌, map,
  if◌then◌else◌, length, ltb, leb, nat_eqb, ◌=?◌, nat_eq, list_eq,
}
use protoclaw.Base.Map.{Map, get}
use protoclaw.Base.Text.{Text, bytes}
use protoclaw.Base.Json.{Json}
use protoclaw.Telegram.Formatting.{Strings, escape_html, decimal, join}

-- What the channel takes from outside: the texts of JSON numbers, of a size in bytes as kilobytes
-- and of milliseconds as seconds, both with one decimal; and which addresses `Url` parses.
pub record Outside : Type 1 where
  pub json : Json
  pub str : Strings
  pub empty_array : json.Value
  pub as_u64 : json.Value → Option ℕ
  pub is_null : json.Value → Bool
  pub number_text : json.Value → Text
  pub kilobytes : ℕ → Text
  pub seconds : ℕ → Text
  pub is_url : Text → Bool

abbrev pub collapsed_max_len : ℕ
collapsed_max_len = 60

abbrev pub large_value_threshold : ℕ
large_value_threshold = 200

pub data ArgsSummary : Type 0 where
  no_args : ArgsSummary
  collapsed expanded : Text → ArgsSummary

pub data ToolCallStatus : Type 0 where
  started in_progress completed : ToolCallStatus
  failed : Option Text → ToolCallStatus

unfoldable pub is_terminal : ToolCallStatus → Bool
is_terminal started = false
is_terminal in_progress = false
is_terminal completed = true
is_terminal (failed output) = true

pub record ThoughtTrack : Type 0 where
  pub msg_id : ℕ
  pub started_at : ℕ
  pub buffer : Text
  pub debounce_handle : Option ℕ
  pub suppressed : Bool

pub record ResponseTrack : Type 0 where
  pub msg_id : ℕ
  pub buffer : Text
  pub last_edit : ℕ
  pub debounce_handle : Option ℕ

pub data TurnPhase : Type 0 where
  active : TurnPhase
  finalizing : ℕ → TurnPhase

abbrev pub handle_list : Option ℕ → List ℕ
handle_list none = []
handle_list (some handle) = handle ∷ []

abbrev pub phase_task : TurnPhase → List ℕ
phase_task active = []
phase_task (finalizing handle) = handle ∷ []

abbrev pub thought_task : Option ThoughtTrack → List ℕ
thought_task none = []
thought_task (some track) = handle_list track.debounce_handle

abbrev pub response_task : Option ResponseTrack → List ℕ
response_task none = []
response_task (some track) = handle_list track.debounce_handle

module _ (out : Outside) where
  open out use {json, is_null, number_text, kilobytes}

  unfoldable pub format_arg_value : json.Value → Text
  unfolding decimal
  format_arg_value v = elim (json.as_str v) [
    | some s ↦
        if ltb large_value_threshold (length s)
        then b'(' ∷ (kilobytes (length s) ++ bytes "kb)")
        else s
    | none ↦ if is_null v then bytes "null" else elim (json.as_bool v) [
      | some b ↦ if b then bytes "true" else bytes "false"
      | none ↦ elim (json.as_array v) [
        | some vs ↦ b'[' ∷ (decimal (length vs) ++ bytes " items]")
        | none ↦ elim (json.as_object v) [
          | some fields ↦ b'{' ∷ (decimal (length fields) ++ bytes " keys}")
          | none ↦ number_text v
        ]
      ]
    ]
  ]

  abbrev arg_text : Text × json.Value → Text
  arg_text (k, v) = k ++ (bytes ": " ++ format_arg_value v)

  summary : List (Text × json.Value) → ArgsSummary
  unfolding join
  summary [] = no_args
  summary (arg ∷ []) =
      if leb (length (arg_text arg)) collapsed_max_len
      then collapsed (arg_text arg)
      else expanded (arg_text arg)
  summary (arg ∷ more ∷ args) = expanded (join (bytes ", ") (map arg_text (arg ∷ more ∷ args)))

  unfoldable pub format_tool_args : Option json.Value → ArgsSummary
  unfolding summary
  format_tool_args none = no_args
  format_tool_args (some v) = elim (json.as_object v) [
    | none ↦ no_args
    | some fields ↦ summary fields
  ]

  pub record ToolCallTrack : Type 0 where
    pub name : Text
    pub status : ToolCallStatus
    pub input : Option json.Value

  pub record ChatTurn : Type 0 where
    pub message_id : Text
    pub phase : TurnPhase
    pub thought : Option ThoughtTrack
    pub response : Option ResponseTrack
    pub tool_calls : Map Text ToolCallTrack
    pub tools_msg_id : ℕ
    pub tool_call_order : List Text
    pub render_tick : ℕ
    pub last_result_was_error : Bool
    pub last_tools_edit : ℕ
    pub response_finalized : Bool

  -- At the instant `now`.
  unfoldable pub new_turn : (now : ℕ) → Text → ChatTurn
  new_turn now message_id = record {
    message_id = message_id;
    phase = active;
    thought = none;
    response = none;
    tool_calls = [];
    tools_msg_id = 0;
    tool_call_order = [];
    render_tick = 0;
    last_result_was_error = false;
    last_tools_edit = now - 60000;
    response_finalized = false;
  }

  args_line : Option json.Value → Text
  unfolding format_tool_args escape_html
  args_line input = elim (format_tool_args input) [
    | no_args ↦ []
    | collapsed s ↦ bytes "\n   " ++ escape_html s
    | expanded s ↦ bytes "\n   " ++ escape_html s
  ]

  -- The sign of a status in UTF-8, and the line below the name.
  status_text : Text → ToolCallTrack → Text
  unfolding args_line escape_html
  status_text dots track = elim track.status [
    | started ↦ dots ++ args_line track.input
    | in_progress ↦ dots ++ args_line track.input
    | completed ↦ (0xE2 ∷ 0x9C ∷ 0x85 ∷ []) ++ args_line track.input
    | failed none ↦ 0xE2 ∷ 0x9D ∷ 0x8C ∷ []
    | failed (some e) ↦
        (0xE2 ∷ 0x9D ∷ 0x8C ∷ []) ++ (bytes "\n   <pre>" ++ (escape_html e ++ bytes "</pre>"))
  ]

  tool_block : Text → ToolCallTrack → Text
  unfolding status_text escape_html
  tool_block dots track =
      (0xF0 ∷ 0x9F ∷ 0x94 ∷ 0xA7 ∷ [])
      ++ (bytes " <code>"
          ++ (escape_html track.name ++ (bytes "</code> " ++ status_text dots track)))

  -- A block for each tool call, in the order of the calls; an id without a track has none.
  unfoldable pub tool_blocks : Text → Map Text ToolCallTrack → List Text → List Text
  unfolding tool_block
  tool_blocks dots tracks [] = []
  tool_blocks dots tracks (id ∷ order) = elim (get id tracks) [
    | none ↦ tool_blocks dots tracks order
    | some track ↦ tool_block dots track ∷ tool_blocks dots tracks order
  ]

  unfoldable pub render_tools_text : ChatTurn → ChatTurn × Text
  unfolding tool_blocks join
  render_tools_text turn =
      let tick = (turn.render_tick + 1) % 2 ^ 32 in
      let dots =
        if nat_eqb (tick % 3) 0
        then bytes "."
        else if nat_eqb (tick % 3) 1
        then bytes ".."
        else bytes "..." in
      (
        record turn { render_tick = tick },
        join (bytes "\n") (tool_blocks dots turn.tool_calls turn.tool_call_order),
      )

  unfoldable pub append_response : (now : ℕ) → Text → (msg_id : ℕ) → ChatTurn → ChatTurn
  append_response now text msg_id turn = elim turn.response [
    | some track ↦ record turn { response = some (record track { buffer = track.buffer ++ text }) }
    | none ↦ record turn {
      response =
          some (record { msg_id = msg_id; buffer = text; last_edit = now; debounce_handle = none });
    }
  ]

  unfoldable pub can_edit_response : (now cooldown : ℕ) → ChatTurn → ChatTurn × Bool
  can_edit_response now cooldown turn = elim turn.response [
    | none ↦ (turn, false)
    | some track ↦
        if ltb (now - track.last_edit) cooldown
        then (turn, false)
        else (record turn { response = some (record track { last_edit = now }) }, true)
  ]

  unfoldable pub can_edit_tools : (now cooldown : ℕ) → ChatTurn → ChatTurn × Bool
  can_edit_tools now cooldown turn =
      if ltb (now - turn.last_tools_edit) cooldown
      then (turn, false)
      else (record turn { last_tools_edit = now }, true)

  unfoldable pub append_thought :
      (now : ℕ) → Text → (msg_id : ℕ) → (origin_time : Option ℕ) → ChatTurn → ChatTurn
  append_thought now text msg_id origin_time turn = elim turn.thought [
    | some track ↦ record turn { thought = some (record track { buffer = track.buffer ++ text }) }
    | none ↦ record turn {
      thought = some (record {
        msg_id = msg_id;
        started_at = elim origin_time [ none ↦ now | some t ↦ t ];
        buffer = text;
        debounce_handle = none;
        suppressed = false;
      });
    }
  ]

  -- With the tasks that are aborted, as in the functions below.
  unfoldable pub begin_finalizing : ℕ → ChatTurn → ChatTurn × List ℕ
  begin_finalizing handle turn = (record turn { phase = finalizing handle }, phase_task turn.phase)

  unfoldable pub take_response_for_finalize : ChatTurn → Option (Text × ℕ)
  take_response_for_finalize turn = elim turn.response [
    | none ↦ none
    | some track ↦ some (track.buffer, track.msg_id)
  ]

  unfoldable pub try_finalize_response : ChatTurn → ChatTurn × Bool
  try_finalize_response turn =
      if turn.response_finalized
      then (turn, false)
      else (record turn { response_finalized = true }, true)

  unfoldable pub is_finalizing : ChatTurn → Bool
  is_finalizing turn = elim turn.phase [ active ↦ false | finalizing handle ↦ true ]

  unfoldable pub is_different_turn : Text → ChatTurn → Bool
  is_different_turn message_id turn = not (turn.message_id =? message_id)

  -- The message of the thought and how long it took.
  unfoldable pub collapse_thought : (now : ℕ) → ChatTurn → ChatTurn × Option (ℕ × ℕ) × List ℕ
  collapse_thought now turn = elim turn.thought [
    | none ↦ (turn, none, [])
    | some track ↦ (
      record turn { thought = none },
      some (track.msg_id, now - track.started_at),
      handle_list track.debounce_handle,
    )
  ]

  unfoldable pub cleanup : ChatTurn → ChatTurn × List ℕ
  cleanup turn = (
    record turn {
      thought = none;
      response = none;
      tool_calls = [];
      tools_msg_id = 0;
      tool_call_order = [];
      render_tick = 0;
      last_result_was_error = false;
      response_finalized = false;
      phase = active;
    },
    phase_task turn.phase ++ (thought_task turn.thought ++ response_task turn.response),
  )
