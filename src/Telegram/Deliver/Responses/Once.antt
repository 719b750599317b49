-- ===== src/Telegram/Deliver/Responses/Once.antt =====
-- The timers race for the right to send the response.
use protoclaw.Base.{◌+◌, ◌≤◌, none, ◌≡◌, ◌⊎◌, nat_eq, list_eq}
use protoclaw.Base.Map.{get}
use protoclaw.Base.Text.{Text, int_eq}
use protoclaw.Telegram.Turn.{Outside}
use protoclaw.Telegram.Deliver.{ChatId, State}
use protoclaw.Telegram.Deliver.Responses.Sections.{Section, run_section, wins, takes_out}
use protoclaw.Telegram.Deliver.Responses.Taken.{taken}

module _ (out : Outside) where
  -- The turn is taken out, or nothing happens.
  Out : ChatId → State out → State out → Type 0
  Out chat s s' = (get chat s'.turns ≡ none) ⊎ (s' ≡ s)

  -- What a section adds to the claims and to the turns that are gone.
  Balanced : ChatId → Section out → State out → Type 0
  Balanced chat x s =
      wins out chat x s + taken out chat s
      ≤ takes_out out chat x s + taken out chat (run_section out chat x s)
