-- ===== src/Telegram/Deliver/Responses/Lost.antt =====
-- What a second chunk comes to, where nothing else happens while a call waits.
use protoclaw.Base.{
  ℕ, ◌-◌, ◌<◌, false, none, some, [], ◌∷◌, ◌++◌, ◌≡◌, refl, arith, nat_eq, list_eq, eq_self,
}
use protoclaw.Base.Map.{get, get-remove}
use protoclaw.Base.Text.{Text, int_eq}
use protoclaw.Telegram.Turn.{Outside}
use protoclaw.Telegram.Deliver.{
  ChatId, send_message, spawn, drop_turn, debounce_send_response, finalize_result, State, put,
  partial_chunks, first_only,
}
use protoclaw.Telegram.Deliver.Responses.{deliver_chunk, debounce_response, finalize}
use protoclaw.Telegram.Deliver.Results.{deliver_result}
use protoclaw.Telegram.Deliver.Responses.Quiet.{
  quiet, get_put, begun, waiting, claimed, shown, over, ended, first_chunk, first_sent,
  second_chunk, result_comes, nothing_final,
}

module _ (out : Outside) where
  -- A response in two chunks, of a turn without thoughts, tools and errors, where the timer of the
  -- first message runs between the chunks and the second comes before the next edit is due, and
  -- nothing else happens. All that is sent is the first message, made of the first chunk alone;
  -- neither the second chunk nor the result nor its timer shows the rest, and the turn is gone:
  -- the second chunk is never shown.
  pub second_chunk_lost :
      (t1 t2 t3 t4 t5 h1 h2 id : ℕ) (chat : ChatId) (mid : Text) (c : ℕ) (first second text : Text)
      (s : State out)
      → get chat s.turns ≡ none
      → 0 < id
      → t3 - t1 < s.response_edit_cooldown_ms
      → let (s1, e1) = deliver_chunk out (quiet out t1 h1 none) chat (some mid) (c ∷ first) s in
        let (s2, e2) = debounce_response out (quiet out t2 h1 (some id)) chat s1 in
        let (s3, e3) = deliver_chunk out (quiet out t3 h2 none) chat (some mid) second s2 in
        let (s4, e4) = deliver_result out (quiet out t4 h2 none) chat (some mid) false text s3 in
        let (s5, e5) = finalize out (quiet out t5 h2 none) chat s4 in
        (e1 ≡ spawn debounce_send_response chat h1 ∷ [])
        × (e2 ≡ first_only (send_message chat) (partial_chunks out (c ∷ first)))
        × (e3 ≡ [])
        × (e4 ≡ spawn finalize_result chat h2 ∷ [])
        × (e5 ≡ [])
        × (get chat s5.turns ≡ none)
  second_chunk_lost t1 t2 t3 t4 t5 h1 h2 id chat mid c first second text s e p h =
      let buffer = c ∷ first in
      let whole = c ∷ (first ++ second) in
      let s0 = put out chat (begun out t1 mid buffer) s in
      let s1 = put out chat (waiting out t1 h1 mid buffer) s0 in
      let r1 = first_chunk out t1 h1 chat mid c first s e in
      let s1' = put out chat (claimed out t1 h1 mid buffer) s1 in
      let s2 = put out chat (shown out t1 mid id buffer) s1' in
      let r2 =
        first_sent out t1 t2 h1 id chat mid c first s1
          (get_put out chat (waiting out t1 h1 mid buffer) s0) in
      let s2' = put out chat (shown out t1 mid id whole) s2 in
      let s3 = put out chat (shown out t1 mid id whole) s2' in
      let r3 =
        second_chunk out t1 t3 h2 id chat mid c first second s2
          (get_put out chat (shown out t1 mid id buffer) s1') p h in
      let s3' = put out chat (shown out t1 mid id whole) s3 in
      let s3'' = put out chat (over out t1 t4 mid id whole) s3' in
      let s4 = put out chat (ended out t1 t4 h2 mid id whole) s3'' in
      let r4 =
        result_comes out t1 t4 h2 id chat mid whole text s3
          (get_put out chat (shown out t1 mid id whole) s2') in
      let r5 =
        nothing_final out t5 h2 chat (ended out t1 t4 h2 mid id whole) s4
          (get_put out chat (ended out t1 t4 h2 mid id whole) s3'') refl in
      rw (r1, r2, r3, r4, r5)
        (
          refl,
          refl,
          refl,
          refl,
          refl,
          gone chat (put out chat (ended out t1 t4 h2 mid id whole) s4),
        )
    where
      gone : (chat : ChatId) (s : State out) → get chat (drop_turn out chat s).turns ≡ none
      gone chat s = ground (arith, get-remove chat chat s.turns, eq_self chat)
