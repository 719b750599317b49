-- ===== src/Telegram/Deliver/Responses/Quiet.antt =====
-- The calls on a turn of one response, where nothing else happens while a call waits.
use protoclaw.Base.{
  ℕ, ◌-◌, ◌<◌, Bool, true, false, Option, none, some, [], ◌∷◌, ◌++◌, ◌≡◌, refl, sym, ap, arith,
  nat_eqb, nat_eq, list_eq, eq_self,
}
use protoclaw.Base.Map.{get, insert, get-insert}
use protoclaw.Base.Text.{Text, int_eq}
use protoclaw.Telegram.Turn.{
  Outside, ThoughtTrack, ResponseTrack, TurnPhase, active, finalizing, ChatTurn, new_turn,
  append_response, is_finalizing, try_finalize_response, can_edit_response, collapse_thought,
  begin_finalizing, is_different_turn,
}
use protoclaw.Telegram.Deliver.{
  ChatId, send_message, spawn, drop_turn, debounce_send_response, finalize_result, flush_different,
  entry_turn, State, Awaits, on_turn, aborts, send_collapse, put, partial_chunks, first_only,
}
use protoclaw.Telegram.Deliver.Responses.{
  deliver_chunk, debounce_response, finalize, chunk_flushed, chunk_added, add_chunk, show_chunk,
  start_debounce, send_first, claim, edit_shown, restart_finalizing, final_data, send_final,
}
use protoclaw.Telegram.Deliver.Results.{
  deliver_result, is_stale, collapse, result_collapsed, add_result, with_error, suppressed_thought,
}

module _ (out : Outside) where
  -- A call during which the other tasks do nothing.
  abbrev pub quiet : (now handle : ℕ) → Option ℕ → Awaits out
  quiet now handle sent = record {
    meanwhile = λ k s. s;
    now = λ k. now;
    sent = sent;
    edited = true;
    handle = handle;
  }

  -- The turn of a response without tools.
  abbrev pub plain_turn :
      (start : ℕ) → Text → TurnPhase → Option ThoughtTrack → ResponseTrack → Bool → ChatTurn out
  plain_turn start mid phase thought track finalized = record (new_turn out start mid) {
    phase = phase;
    thought = thought;
    response = some track;
    response_finalized = finalized;
  }

  -- It has begun, waits for its first message, has won the right to it, and shows it; the result
  -- has come, and it is finalized.
  abbrev pub begun : (start : ℕ) → Text → Text → ChatTurn out
  begun start mid buffer =
      plain_turn start mid active none
        (record { msg_id = 0; buffer = buffer; last_edit = start; debounce_handle = none }) false

  abbrev pub waiting : (start handle : ℕ) → Text → Text → ChatTurn out
  waiting start handle mid buffer =
      plain_turn start mid active none
        (record { msg_id = 0; buffer = buffer; last_edit = start; debounce_handle = some handle })
        false

  abbrev pub claimed : (start handle : ℕ) → Text → Text → ChatTurn out
  claimed start handle mid buffer = record (waiting start handle mid buffer) {
    response_finalized = true;
  }

  abbrev pub shown : (start : ℕ) → Text → (id : ℕ) → Text → ChatTurn out
  shown start mid id buffer =
      plain_turn start mid active none
        (record { msg_id = id; buffer = buffer; last_edit = start; debounce_handle = none }) true

  abbrev pub over : (start now : ℕ) → Text → (id : ℕ) → Text → ChatTurn out
  over start now mid id buffer = record (shown start mid id buffer) {
    thought = some (suppressed_thought out now none);
  }

  abbrev pub ended : (start now handle : ℕ) → Text → (id : ℕ) → Text → ChatTurn out
  ended start now handle mid id buffer = record (over start now mid id buffer) {
    phase = finalizing handle;
  }

  flush_none :
      (now : ℕ) (chat : ChatId) (mid : Text) (s : State out)
      → get chat s.turns ≡ none
      → flush_different out now chat (some mid) s ≡ (s, [])
  unfolding flush_different
  flush_none now chat mid s e = rw (flush_different, e) refl

  flush_same :
      (now : ℕ) (chat : ChatId) (mid : Text) (turn : ChatTurn out) (s : State out)
      → get chat s.turns ≡ some turn
      → turn.message_id ≡ mid
      → flush_different out now chat (some mid) s ≡ (s, [])
  unfolding flush_different is_different_turn
  flush_same now chat mid turn s e h = rw (flush_different, e, h, eq_self mid) refl

  entry_none :
      (now : ℕ) (chat : ChatId) (mid : Text) (s : State out)
      → get chat s.turns ≡ none
      → entry_turn out now chat (some mid) s ≡ new_turn out now mid
  unfolding entry_turn
  entry_none now chat [] s e = rw (entry_turn, e) refl
  entry_none now chat (c ∷ mid) s e = rw (entry_turn, e) refl

  entry_same :
      (now : ℕ) (chat : ChatId) (mid : Text) (turn : ChatTurn out) (s : State out)
      → get chat s.turns ≡ some turn
      → turn.message_id ≡ mid
      → entry_turn out now chat (some mid) s ≡ turn
  unfolding entry_turn
  entry_same now chat [] turn s e h = rw (entry_turn, e) refl
  entry_same now chat (c ∷ mid) turn s e h =
      rw (entry_turn, e) (ap (λ (m : Text). record turn { message_id = m }) (sym h))

  pub get_put :
      (chat : ChatId) (turn : ChatTurn out) (s : State out)
      → get chat (insert chat turn s.turns) ≡ some turn
  get_put chat turn s = ground (arith, get-insert chat chat turn s.turns, eq_self chat)

  pub first_chunk :
      (now handle : ℕ) (chat : ChatId) (mid : Text) (c : ℕ) (t : Text) (s : State out)
      → get chat s.turns ≡ none
      → deliver_chunk out (quiet now handle none) chat (some mid) (c ∷ t) s ≡ (
        put out chat (waiting now handle mid (c ∷ t)) (put out chat (begun now mid (c ∷ t)) s),
        spawn debounce_send_response chat handle ∷ [],
      )
  unfolding deliver_chunk chunk_flushed chunk_added add_chunk append_response show_chunk
      is_finalizing start_debounce on_turn new_turn
  first_chunk now handle chat mid c t s e =
      rw
        (
          flush_none now chat mid s e,
          entry_none now chat mid s e,
          get_put chat (begun now mid (c ∷ t)) s,
        )
        (rw (on_turn, get_put chat (begun now mid (c ∷ t)) s) refl)

  claim_wins :
      (chat : ChatId) (turn : ChatTurn out) (s : State out)
      → get chat s.turns ≡ some turn
      → turn.response_finalized ≡ false
      → claim out chat s ≡ (put out chat (record turn { response_finalized = true }) s, true)
  unfolding claim try_finalize_response
  claim_wins chat turn s e f = rw (claim, e, f) refl

  pub first_sent :
      (start now handle id : ℕ) (chat : ChatId) (mid : Text) (c : ℕ) (t : Text) (s : State out)
      → get chat s.turns ≡ some (waiting start handle mid (c ∷ t))
      → debounce_response out (quiet now handle (some id)) chat s ≡ (
        put out chat
            (shown start mid id (c ∷ t))
            (put out chat (claimed start handle mid (c ∷ t)) s),
        first_only (send_message chat) (partial_chunks out (c ∷ t)),
      )
  unfolding debounce_response send_first on_turn
  first_sent start now handle id chat mid c t s e =
      rw (debounce_response, e, claim_wins chat (waiting start handle mid (c ∷ t)) s e refl)
        (rw (on_turn, get_put chat (claimed start handle mid (c ∷ t)) s) refl)

  held_back :
      (now cooldown : ℕ) (turn : ChatTurn out) (track : ResponseTrack)
      → turn.response ≡ some track
      → now - track.last_edit < cooldown
      → can_edit_response out now cooldown turn ≡ (turn, false)
  unfolding can_edit_response
  held_back now cooldown turn track r h = ground arith

  too_early :
      (now handle : ℕ) (chat : ChatId) (id : ℕ) (buffer : Text) (turn : ChatTurn out)
      (track : ResponseTrack) (s : State out)
      → get chat s.turns ≡ some turn
      → turn.response ≡ some track
      → now - track.last_edit < s.response_edit_cooldown_ms
      → edit_shown out (quiet now handle none) chat id buffer s ≡ (put out chat turn s, [])
  unfolding edit_shown
  too_early now handle chat id buffer turn track s e r h =
      rw (edit_shown, e, held_back now s.response_edit_cooldown_ms turn track r h) refl

  pub second_chunk :
      (start now handle id : ℕ) (chat : ChatId) (mid : Text) (c : ℕ) (t more : Text) (s : State out)
      → get chat s.turns ≡ some (shown start mid id (c ∷ t))
      → 0 < id
      → now - start < s.response_edit_cooldown_ms
      → let turn = shown start mid id (c ∷ (t ++ more)) in
        deliver_chunk out (quiet now handle none) chat (some mid) more s
        ≡ (put out chat turn (put out chat turn s), [])
  unfolding deliver_chunk chunk_flushed chunk_added add_chunk append_response show_chunk
      is_finalizing new_turn
  second_chunk start now handle id chat mid c t more s e p h =
      let turn = shown start mid id (c ∷ t) in
      let turn' = shown start mid id (c ∷ (t ++ more)) in
      let track : ResponseTrack = record {
        msg_id = id;
        buffer = c ∷ (t ++ more);
        last_edit = start;
        debounce_handle = none;
      } in
      let nonzero : nat_eqb id 0 ≡ false = ground (arith, p) in
      rw (flush_same now chat mid turn s e refl, entry_same now chat mid turn s e refl)
        (rw
          (
            nonzero,
            too_early now handle chat id (c ∷ (t ++ more)) turn' track (put out chat turn' s)
                (get_put chat turn' s) refl h,
          )
          refl)

  collapse_nothing :
      (now : ℕ) (chat : ChatId) (turn : ChatTurn out) (s : State out)
      → get chat s.turns ≡ some turn
      → turn.thought ≡ none
      → collapse out now chat s ≡ (put out chat turn s, [])
  unfolding collapse collapse_thought aborts send_collapse
  collapse_nothing now chat turn s e f = rw (collapse, e, f) refl

  not_stale :
      (chat : ChatId) (turn : ChatTurn out) (s : State out)
      → get chat s.turns ≡ some turn
      → is_stale out chat (some turn.message_id) s ≡ false
  unfolding is_stale is_different_turn
  not_stale chat turn s e = rw (is_stale, e, eq_self turn.message_id) refl

  finalizing_starts :
      (handle : ℕ) (chat : ChatId) (turn : ChatTurn out) (s : State out)
      → get chat s.turns ≡ some turn
      → turn.phase ≡ active
      → restart_finalizing out finalize_result handle chat s ≡ (
        put out chat (record turn { phase = finalizing handle }) s,
        spawn finalize_result chat handle ∷ [],
      )
  unfolding restart_finalizing begin_finalizing aborts
  finalizing_starts handle chat turn s e f = rw (restart_finalizing, e, f) refl

  pub result_comes :
      (start now handle id : ℕ) (chat : ChatId) (mid buffer text : Text) (s : State out)
      → get chat s.turns ≡ some (shown start mid id buffer)
      → let turn = shown start mid id buffer in
        deliver_result out (quiet now handle none) chat (some mid) false text s ≡ (
          put out chat
              (ended start now handle mid id buffer)
              (put out chat (over start now mid id buffer) (put out chat turn s)),
          spawn finalize_result chat handle ∷ [],
        )
  unfolding deliver_result result_collapsed add_result with_error new_turn
  result_comes start now handle id chat mid buffer text s e =
      let turn = shown start mid id buffer in
      let s1 = put out chat turn s in
      let turn' = over start now mid id buffer in
      rw (not_stale chat turn s e, collapse_nothing now chat turn s e refl)
        (rw (entry_same now chat mid turn s1 (get_put chat turn s) refl) (
          rw
            (finalizing_starts handle chat turn' (put out chat turn' s1) (get_put chat turn' s1)
              refl)
            refl))

  pub nothing_final :
      (now handle : ℕ) (chat : ChatId) (turn : ChatTurn out) (s : State out)
      → get chat s.turns ≡ some turn
      → turn.response_finalized ≡ true
      → finalize out (quiet now handle none) chat s ≡ (drop_turn out chat (put out chat turn s), [])
  unfolding finalize claim try_finalize_response final_data send_final
  nothing_final now handle chat turn s e f = rw (finalize, claim, e, f) refl
