-- ===== src/Telegram/Deliver/Tools/Terminal.antt =====
-- A tool call that has ended stays as it is.
use protoclaw.Base.{
  ℕ, Bool, true, false, Option, some, List, [], ◌∷◌, ◌≡◌, arith, inl, inr, Bool-cases, Option-cases,
  nat_eq, list_eq, list_eqb_iff, eq_self,
}
use protoclaw.Base.Map.{get, insert, get-insert}
use protoclaw.Base.Text.{Text, ℤ, int_eq}
use protoclaw.Telegram.Turn.{
  Outside, ToolCallStatus, is_terminal, ToolCallTrack, ChatTurn, render_tools_text, is_finalizing,
}
use protoclaw.Telegram.Deliver.{ChatId, State}
use protoclaw.Telegram.Deliver.Tools.{updated, may_edit, show_update, deliver_tool_update}

module _ (out : Outside) where
  open out use {json}

  pub record Update : Type 0 where
    pub now : ℕ
    pub id : Text
    pub status : Text
    pub output : Option Text
    pub input : Option json.Value
    pub exit_code : Option ℤ

  unfoldable pub run_updates : ChatId → List Update → State out → State out
  run_updates chat [] s = s
  run_updates chat (u ∷ us) s =
      run_updates chat us
        (deliver_tool_update out u.now chat u.id u.status u.output u.input u.exit_code s).0

  -- The chat's turn has the track under the id.
  abbrev Tracked : ChatId → Text → ToolCallTrack out → State out → Type 0
  Tracked chat id track s =
      (turn : ChatTurn out) × (get chat s.turns ≡ some turn) × (get id turn.tool_calls ≡ some track)

  may_edit-tool_calls :
      (now cooldown : ℕ) (status : ToolCallStatus) (turn : ChatTurn out)
      → (may_edit out now cooldown status turn).0.tool_calls ≡ turn.tool_calls
  unfolding may_edit
  may_edit-tool_calls now cooldown status turn = ground arith

  show_update-Tracked :
      (chat : ChatId) (id : Text) (track : ToolCallTrack out) (s : State out)
      (r : ChatTurn out × Bool)
      → get id r.0.tool_calls ≡ some track
      → Tracked chat id track (show_update out chat s r).0
  unfolding show_update
  show_update-Tracked chat id track s (turn, false) h =
      (turn, ground (arith, get-insert chat chat turn s.turns, eq_self chat), h)
  show_update-Tracked chat id track s (turn, true) h =
      let turn' = (render_tools_text out turn).0 in
      (
        turn',
        ground (arith, get-insert chat chat turn' s.turns, eq_self chat),
        unfold render_tools_text in h,
      )

  update-Tracked :
      (u : Update) (chat : ChatId) (id : Text) (track : ToolCallTrack out) (s : State out)
      → is_terminal track.status ≡ true
      → Tracked chat id track s
      → Tracked chat id track
          (deliver_tool_update out u.now chat u.id u.status u.output u.input u.exit_code s).0
  unfolding deliver_tool_update
  update-Tracked u chat id track s t (turn, e, h) = elim (Bool-cases (is_finalizing out turn)) [
    | inl f ↦ rw (deliver_tool_update, e, f) (turn, e, h)
    | inr f ↦ elim (Option-cases (get u.id turn.tool_calls)) [
      | inl n ↦ rw (deliver_tool_update, e, f, n) (turn, e, h)
      | inr (old, g) ↦ elim (Bool-cases (is_terminal old.status)) [
        | inl k ↦ rw (deliver_tool_update, e, f, g, k) (turn, e, h)
        | inr k ↦
            let new = updated out u.status u.output u.input u.exit_code old in
            let turn' : ChatTurn out = record turn {
              tool_calls = insert u.id new turn.tool_calls;
            } in
            let kept : get id turn'.tool_calls ≡ some track =
              ground (arith, get-insert u.id id new turn.tool_calls, list_eqb_iff u.id id, k, t) in
            let r = may_edit out u.now s.response_edit_cooldown_ms new.status turn' in
            rw (deliver_tool_update, e, f, g, k)
              (show_update-Tracked chat id track s r
                (rw (may_edit-tool_calls u.now s.response_edit_cooldown_ms new.status turn') kept))
      ]
    ]
  ]

  -- A tool call of a turn that has completed or failed keeps its status, its name and its
  -- arguments under any sequence of updates of tool calls, late ones included.
  pub run_updates-terminal :
      (us : List Update) (chat : ChatId) (id : Text) (turn : ChatTurn out)
      (track : ToolCallTrack out) (s : State out)
      → get chat s.turns ≡ some turn
      → get id turn.tool_calls ≡ some track
      → is_terminal track.status ≡ true
      → (turn' : ChatTurn out) × (get chat (run_updates chat us s).turns ≡ some turn')
        × (get id turn'.tool_calls ≡ some track)
  unfolding run_updates
  run_updates-terminal [] chat id turn track s e h t = (turn, e, h)
  run_updates-terminal (u ∷ us) chat id turn track s e h t =
      let (turn', e', h') = update-Tracked u chat id track s t (turn, e, h) in
      run_updates-terminal us chat id turn' track
        (deliver_tool_update out u.now chat u.id u.status u.output u.input u.exit_code s).0 e' h' t
