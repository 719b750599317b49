-- ===== src/Channels/Tests/Context.antt =====
-- Instances of the theorems on the buffer of a group.
use protoclaw.Base.{◌≡◌, ap, ◌≤◌, ℕ, List, [], ◌∷◌, length, nat_eq, list_eq, retain, arith}
use protoclaw.Base.Text.{Text, bytes}
use protoclaw.Channels.Context.{ContextMessage, of_group, take_context}
use protoclaw.Channels.Context.Buffer.{newest, store_all, take-store_all}

abbrev line : Text → Text → ContextMessage
line group content = record {
  group_key = group;
  sender = bytes "eve";
  content = content;
  timestamp = 0;
}

abbrev lines : List ContextMessage
lines =
    line (bytes "g") (bytes "1")
    ∷ line (bytes "h") (bytes "2")
    ∷ line (bytes "g") (bytes "3")
    ∷ line (bytes "g") (bytes "4")
    ∷ []

first : Text → ℕ
first [] = 0
first (c ∷ s) = c

take-store_all_example :
    let (taken, rows) = take_context (bytes "g") (store_all 2 lines []) in
    (taken ≡ newest 2 (retain (of_group (bytes "g")) lines))
    × (length taken ≤ 2)
    × ((take_context (bytes "g") rows).0 ≡ [])
    × ((take_context (bytes "h") rows).0 ≡ newest 2 (retain (of_group (bytes "h")) lines))
take-store_all_example =
    take-store_all (bytes "g") (bytes "h") 2 lines (λ e. ground (arith, ap first e))
