-- ===== src/Telegram/Deliver/Thoughts.antt =====
-- ext/channels/telegram/src/deliver.rs: a piece of a thought, and the timer that shows what has
-- gathered since.
use protoclaw.Base.{
  ℕ, Bool, false, Option, none, some, List, [], ◌∷◌, ◌++◌, if◌then◌else◌, nat_eqb, nat_eq, list_eq,
}
use protoclaw.Base.Map.{get}
use protoclaw.Base.Text.{Text, int_eq}
use protoclaw.Telegram.Formatting.{escape_html}
use protoclaw.Telegram.Turn.{Outside, ThoughtTrack, ChatTurn, append_thought, thought_task}
use protoclaw.Telegram.Deliver.{
  ChatId, debounce_thought_edit, Effect, send_message, edit_message_text, spawn, aborts, State,
  Awaits, put, on_turn, flush_different, flush_finalizing, entry_turn,
}

module _ (out : Outside) where
  abbrev pub on_thought : (ThoughtTrack → ThoughtTrack) → ChatTurn out → ChatTurn out
  on_thought f turn = elim turn.thought [
    | none ↦ turn
    | some track ↦ record turn { thought = some (f track) }
  ]

  unfoldable pub is_suppressed : ChatId → State out → Bool
  is_suppressed chat s = elim (get chat s.turns) [
    | none ↦ false
    | some turn ↦ elim turn.thought [ none ↦ false | some track ↦ track.suppressed ]
  ]

  thought_text : State out → Text → Text
  unfolding escape_html
  thought_text s buffer = s.thought_emoji ++ (b' ' ∷ escape_html buffer)

  -- The piece joins the thought of the turn, whose timer is aborted: the turn, the thought, and
  -- the aborted tasks.
  unfoldable pub add_thought :
      (now : ℕ)
      → ChatId
      → Option Text
      → (origin : Option ℕ) → Text
      → State out
      → State out × Option ThoughtTrack × List ℕ
  unfolding entry_turn append_thought
  add_thought now chat message_id origin text s =
      let turn = append_thought out now text 0 origin (entry_turn out now chat message_id s) in
      (
        put out chat (on_thought (λ track. record track { debounce_handle = none }) turn) s,
        turn.thought,
        thought_task turn.thought,
      )

  -- Where the thought has no message yet, it is sent, and its id is kept; else a timer is started.
  show_thought : Awaits out → ChatId → Option ThoughtTrack → State out → State out × List Effect
  unfolding on_turn thought_text
  show_thought a chat none s = (s, [])
  show_thought a chat (some track) s =
      let s' = a.meanwhile 3 s in
      if nat_eqb track.msg_id 0
      then (
        elim a.sent [
          | none ↦ s'
          | some id ↦ on_turn out (on_thought (λ t. record t { msg_id = id })) chat s'
        ],
        send_message chat (thought_text s track.buffer) ∷ [],
      )
      else (
        on_turn out (on_thought (λ t. record t { debounce_handle = some a.handle })) chat s',
        spawn debounce_thought_edit chat a.handle ∷ [],
      )

  unfoldable pub deliver_thought :
      Awaits out
      → ChatId
      → Option Text
      → (origin : Option ℕ) → Text
      → State out
      → State out × List Effect
  unfolding flush_different flush_finalizing is_suppressed add_thought show_thought aborts
  deliver_thought a chat message_id origin text s =
      let (s1, e1) = flush_different out (a.now 0) chat message_id s in
      let s2 = a.meanwhile 0 s1 in
      if is_suppressed chat s2
      then (s2, e1)
      else let (s3, e2) = flush_finalizing out (a.now 1) chat (a.meanwhile 1 s2) in
        let (s4, track, handles) =
          add_thought (a.now 2) chat message_id origin text (a.meanwhile 2 s3) in
        let (s5, e3) = show_thought a chat track s4 in (s5, e1 ++ (e2 ++ (aborts handles ++ e3)))

  -- The timer: the thought is shown as it is now, and then has no timer.
  unfoldable pub debounce_thought : Awaits out → ChatId → State out → State out × List Effect
  unfolding on_turn thought_text
  debounce_thought a chat s = elim (get chat s.turns) [
    | none ↦ (s, [])
    | some turn ↦ elim turn.thought [
      | none ↦ (s, [])
      | some track ↦ (
        on_turn out (on_thought (λ t. record t { debounce_handle = none })) chat (a.meanwhile 0 s),
        if nat_eqb track.msg_id 0
            then []
            else edit_message_text chat track.msg_id (thought_text s track.buffer) ∷ [],
      )
    ]
  ]
