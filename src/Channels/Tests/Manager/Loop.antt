-- ===== src/Channels/Tests/Manager/Loop.antt =====
-- Instances of the theorems on the loop.
use protoclaw.Base.{◌≡◌, suc, ◌<◌, ℕ, true, none, some, List, [], ◌∷◌, nat_eq, list_eq, arith}
use protoclaw.Base.Map.{contains}
use protoclaw.Base.Text.{bytes}
use protoclaw.Channels.Manager.{Sent}
use protoclaw.Channels.Manager.Events.{deliver_to_channel}
use protoclaw.Channels.Manager.Loop.{Loop, Input, command, incoming, exited, run}
use protoclaw.Channels.Manager.Loop.Bounds.{Valid, run-Valid}
use protoclaw.Channels.Tests.Manager.{
  null, hello, outside, key, with_other, with_other-Routable, answers,
}

abbrev inputs : List (Input outside suc)
inputs =
    incoming answers 1 (bytes "channel/sendMessage") (some hello)
    ∷ exited 1 2 none 0
    ∷ command (deliver_to_channel key null)
    ∷ []

abbrev awaiting : Loop outside suc
awaiting = record { manager = with_other; streams = 0 ∷ 1 ∷ []; running = true }

within : (i : ℕ) → contains i awaiting.streams ≡ true → i < 2
unfolding contains
within i h = ground (arith, h)

run-Valid_example :
    (l : Loop outside suc) × (sent : List (Sent outside)) × (run outside suc inputs awaiting
      ≡ some (l, sent))
    × Valid outside suc l
run-Valid_example =
    run-Valid outside suc inputs awaiting with_other-Routable
      ((omega arith, omega arith, omega arith), ((omega arith, omega arith, omega arith), tt))
      within
