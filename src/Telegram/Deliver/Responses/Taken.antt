-- ===== src/Telegram/Deliver/Responses/Taken.antt =====
-- Which sections leave the right to send the response as it was.
use protoclaw.Base.{
  ℕ, ◌+◌, Bool, true, false, Option, none, some, ◌≡◌, refl, sym, ◌∙◌, arith, inl, inr, Option-cases,
  if◌then◌else◌, nat_eq, list_eq, eq_self,
}
use protoclaw.Base.Map.{get, get-insert}
use protoclaw.Base.Text.{Text, int_eq}
use protoclaw.Telegram.Turn.{
  Outside, ThoughtTrack, ResponseTrack, ChatTurn, finalizing, new_turn, append_response,
  append_thought, collapse_thought, begin_finalizing, try_finalize_response,
}
use protoclaw.Telegram.Deliver.{ChatId, Timer, State, put, on_turn, entry_turn}
use protoclaw.Telegram.Deliver.Thoughts.{add_thought, on_thought}
use protoclaw.Telegram.Deliver.Responses.{add_chunk, claim, restart_finalizing, on_response}
use protoclaw.Telegram.Deliver.Results.{collapse, add_result, with_error, suppressed_thought}

module _ (out : Outside) where
  -- 1 if the turn's response is claimed already.
  unfoldable pub taken : ChatId → State out → ℕ
  taken chat s = elim (get chat s.turns) [
    | none ↦ 0
    | some turn ↦ if turn.response_finalized then 1 else 0
  ]

  put-taken :
      (chat : ChatId) (turn : ChatTurn out) (s : State out)
      → taken chat (put out chat turn s) ≡ (if turn.response_finalized then 1 else 0)
  unfolding taken
  put-taken chat turn s = ground (arith, get-insert chat chat turn s.turns, eq_self chat)

  entry-taken :
      (now : ℕ) (chat : ChatId) (mid : Option Text) (s : State out)
      → (if (entry_turn out now chat mid s).response_finalized then 1 else 0) ≡ taken chat s
  unfolding entry_turn taken new_turn
  entry-taken now chat mid s = ground arith

  append-kept :
      (now : ℕ) (text : Text) (id : ℕ) (turn : ChatTurn out)
      → (append_response out now text id turn).response_finalized ≡ turn.response_finalized
  unfolding append_response
  append-kept now text id turn = ground arith

  thought-kept :
      (now : ℕ) (text : Text) (id : ℕ) (origin : Option ℕ) (turn : ChatTurn out)
      → (append_thought out now text id origin turn).response_finalized ≡ turn.response_finalized
  unfolding append_thought
  thought-kept now text id origin turn = ground arith

  pub on_thought-kept :
      (f : ThoughtTrack → ThoughtTrack) (turn : ChatTurn out)
      → (on_thought out f turn).response_finalized ≡ turn.response_finalized
  on_thought-kept f turn = ground arith

  pub on_response-kept :
      (f : ResponseTrack → ResponseTrack) (turn : ChatTurn out)
      → (on_response out f turn).response_finalized ≡ turn.response_finalized
  on_response-kept f turn = ground arith

  pub taken_of :
      (chat : ChatId) (turn : ChatTurn out) (s : State out)
      → get chat s.turns ≡ some turn
      → taken chat s ≡ (if turn.response_finalized then 1 else 0)
  unfolding taken
  taken_of chat turn s n = rw (taken, n) refl

  put-same :
      (chat : ChatId) (turn : ChatTurn out) (s : State out)
      → (if turn.response_finalized then 1 else 0) ≡ taken chat s
      → taken chat (put out chat turn s) ≡ taken chat s
  put-same chat turn s e = put-taken chat turn s ∙ e

  -- A change of the turn that leaves the right as it was.
  pub on_turn-same :
      (f : ChatTurn out → ChatTurn out) (chat : ChatId) (s : State out)
      → ((turn : ChatTurn out) → (f turn).response_finalized ≡ turn.response_finalized)
      → taken chat (on_turn out f chat s) ≡ taken chat s
  unfolding on_turn taken
  on_turn-same f chat s k = elim (Option-cases (get chat s.turns)) [
    | inl n ↦ rw (on_turn, n) (rw (taken, n) refl)
    | inr (turn, n) ↦ rw (on_turn, n) (put-taken chat (f turn) s ∙ rw (k turn, taken, n) refl)
  ]

  -- A claim that succeeds takes the right, another one leaves it.
  pub claim-taken :
      (chat : ChatId) (s : State out)
      → (if (claim out chat s).1 then 1 else 0) + taken chat s ≡ taken chat (claim out chat s).0
  unfolding claim try_finalize_response
  claim-taken chat s = elim (Option-cases (get chat s.turns)) [
    | inl n ↦ rw (claim, n) (omega arith)
    | inr (turn, n) ↦
        rw (claim, n)
          (ground (
            arith,
            put-taken chat turn s,
            put-taken chat (record turn { response_finalized = true }) s,
            taken_of chat turn s n,
          ))
  ]

  pub add_thought-taken :
      (now : ℕ) (chat : ChatId) (mid : Option Text) (origin : Option ℕ) (text : Text)
      (s : State out)
      → taken chat (add_thought out now chat mid origin text s).0 ≡ taken chat s
  unfolding add_thought
  add_thought-taken now chat mid origin text s =
      let old = entry_turn out now chat mid s in
      let grown = append_thought out now text 0 origin old in
      let turn = on_thought out (λ track. record track { debounce_handle = none }) grown in
      put-same chat turn s (
        rw
          (
            on_thought-kept (λ track. record track { debounce_handle = none }) grown,
            thought-kept now text 0 origin old,
          )
          (entry-taken now chat mid s))

  pub add_chunk-taken :
      (now : ℕ) (chat : ChatId) (mid : Option Text) (text : Text) (s : State out)
      → taken chat (add_chunk out now chat mid text s).0 ≡ taken chat s
  unfolding add_chunk
  add_chunk-taken now chat mid text s =
      let old = entry_turn out now chat mid s in
      let heard = on_thought out (λ track. record track { suppressed = false }) old in
      put-same chat (append_response out now text 0 heard) s (
        rw
          (
            append-kept now text 0 heard,
            on_thought-kept (λ track. record track { suppressed = false }) old,
          )
          (entry-taken now chat mid s))

  pub collapse-taken :
      (now : ℕ) (chat : ChatId) (s : State out)
      → taken chat (collapse out now chat s).0 ≡ taken chat s
  unfolding collapse collapse_thought
  collapse-taken now chat s = elim (Option-cases (get chat s.turns)) [
    | inl n ↦ rw (collapse, n) refl
    | inr (turn, n) ↦
        rw (collapse, n)
          (ground (
            arith,
            put-taken chat turn s,
            put-taken chat (record turn { thought = none }) s,
            taken_of chat turn s n,
          ))
  ]

  pub restart-taken :
      (timer : Timer) (handle : ℕ) (chat : ChatId) (s : State out)
      → taken chat (restart_finalizing out timer handle chat s).0 ≡ taken chat s
  unfolding restart_finalizing begin_finalizing
  restart-taken timer handle chat s = elim (Option-cases (get chat s.turns)) [
    | inl n ↦ rw (restart_finalizing, n) refl
    | inr (turn, n) ↦
        rw (restart_finalizing, n)
          (put-taken chat (record turn { phase = finalizing handle }) s
            ∙ sym (taken_of chat turn s n))
  ]

  with_error-kept :
      (now : ℕ) (is_error : Bool) (text : Text) (turn : ChatTurn out)
      → (with_error out now is_error text turn).response_finalized ≡ turn.response_finalized
  unfolding with_error append_response
  with_error-kept now is_error text turn = ground arith

  pub add_result-taken :
      (now : ℕ) (chat : ChatId) (mid : Option Text) (is_error : Bool) (text : Text) (s : State out)
      → taken chat (add_result out now chat mid is_error text s) ≡ taken chat s
  unfolding add_result
  add_result-taken now chat mid is_error text s =
      let old : ChatTurn out = record (entry_turn out now chat mid s) {
        last_result_was_error = is_error;
      } in
      let turn = with_error out now is_error text old in
      put-taken chat (record turn { thought = some (suppressed_thought out now turn.thought) }) s
      ∙ rw (with_error-kept now is_error text old) (entry-taken now chat mid s)
