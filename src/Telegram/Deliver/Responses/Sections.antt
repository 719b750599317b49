-- ===== src/Telegram/Deliver/Responses/Sections.antt =====
-- A timer or a delivery holds the lock of the
-- turns for one section of its code at a time, so that any order in which they run is a sequence
-- of sections.
use protoclaw.Base.{
  ℕ, ◌+◌, Bool, true, false, not, ◌&&◌, Option, none, some, List, [], ◌∷◌, if◌then◌else◌, is_empty,
  nat_eq, list_eq,
}
use protoclaw.Base.Map.{get}
use protoclaw.Base.Text.{Text, int_eq}
use protoclaw.Telegram.Turn.{Outside, ThoughtTrack, ResponseTrack}
use protoclaw.Telegram.Deliver.{
  Awaits, Effect, ChatId, Timer, State, drop_turn, on_turn, flush_different, flush_finalizing,
}
use protoclaw.Telegram.Deliver.Thoughts.{add_thought, on_thought}
use protoclaw.Telegram.Deliver.Responses.{
  add_chunk, claim, restart_finalizing, on_response, debounce_response, finalize,
}
use protoclaw.Telegram.Deliver.Results.{collapse, add_result}

module _ (out : Outside) where
  -- `debounces` and `finalizes` are the sections in which a timer claims the response: the first
  -- after it has read the turn in an earlier state. What a timer changes later is a section of its
  -- own (`changes_response`, `drops`).
  -- The sections that can make, change or take out the turn of a chat, but for those of tools.
  pub data Section : Type 0 where
    drops : Section
    debounces : Awaits out → (earlier : State out) → Section
    finalizes : Awaits out → Section
    flushes_different : (now : ℕ) → Option Text → Section
    flushes_finalizing : (now : ℕ) → Section
    adds_thought : (now : ℕ) → Option Text → Option ℕ → Text → Section
    adds_chunk : (now : ℕ) → Option Text → Text → Section
    collapses : (now : ℕ) → Section
    adds_result : (now : ℕ) → Option Text → Bool → Text → Section
    restarts : Timer → (handle : ℕ) → Section
    changes_thought : (ThoughtTrack → ThoughtTrack) → Section
    changes_response : (ResponseTrack → ResponseTrack) → Section

  unfoldable pub run_section : ChatId → Section → State out → State out
  run_section chat drops s = drop_turn out chat s
  run_section chat (debounces a earlier) s = (claim out chat s).0
  run_section chat (finalizes a) s = (claim out chat s).0
  run_section chat (flushes_different now mid) s = (flush_different out now chat mid s).0
  run_section chat (flushes_finalizing now) s = (flush_finalizing out now chat s).0
  run_section chat (adds_thought now mid origin text) s =
      (add_thought out now chat mid origin text s).0
  run_section chat (adds_chunk now mid text) s = (add_chunk out now chat mid text s).0
  run_section chat (collapses now) s = (collapse out now chat s).0
  run_section chat (adds_result now mid is_error text) s =
      add_result out now chat mid is_error text s
  run_section chat (restarts timer handle) s = (restart_finalizing out timer handle chat s).0
  run_section chat (changes_thought f) s = on_turn out (on_thought out f) chat s
  run_section chat (changes_response f) s = on_turn out (on_response out f) chat s

  unfoldable pub run_sections : ChatId → List Section → State out → State out
  run_sections chat [] s = s
  run_sections chat (x ∷ xs) s = run_sections chat xs (run_section chat x s)

  unfoldable pub has_turn : ChatId → State out → Bool
  has_turn chat s = elim (get chat s.turns) [ none ↦ false | some turn ↦ true ]

  -- Whether the section is a claim that succeeds, and whether it takes the turn out.
  unfoldable pub wins : ChatId → Section → State out → ℕ
  wins chat (debounces a earlier) s = if (claim out chat s).1 then 1 else 0
  wins chat (finalizes a) s = if (claim out chat s).1 then 1 else 0
  wins chat x s = 0

  unfoldable pub takes_out : ChatId → Section → State out → ℕ
  takes_out chat x s =
      if has_turn chat s && not (has_turn chat (run_section chat x s)) then 1 else 0

  -- What a timer sends after the section: the code of the timer, with the state of the section as
  -- the one in which it claims.
  unfoldable pub effects : ChatId → Section → State out → List Effect
  effects chat (debounces a earlier) s =
      (debounce_response out (record a { meanwhile = λ i t. s }) chat earlier).1
  effects chat (finalizes a) s = (finalize out a chat s).1
  effects chat x s = []

  -- Whether the section leads to the messages of the whole response.
  unfoldable pub sends_last : ChatId → Section → State out → ℕ
  sends_last chat x s = if is_empty (effects chat x s) then 0 else 1

  unfoldable pub total : (Section → State out → ℕ) → ChatId → List Section → State out → ℕ
  total count chat [] s = 0
  total count chat (x ∷ xs) s = count x s + total count chat xs (run_section chat x s)
