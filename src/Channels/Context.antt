-- ===== src/Channels/Context.antt =====
-- The buffer of messages that did not mention the bot: `ContextMessage` of
-- crates/anyclaw-core/src/context_store.rs, and `store_context` and `take_context` of
-- sqlite_session_store.rs. The table is the list of its rows in the order of their ids. A
-- failure of the database is in the answers that Channels.Manager takes.
pub mod Buffer
use protoclaw.Base.{
  ℕ, Bool, true, false, not, ◌&&◌, List, [], ◌∷◌, ◌++◌, if◌then◌else◌, leb, nat_eqb, retain,
  count_where, ◌=?◌, nat_eq, list_eq,
}
use protoclaw.Base.Text.{Text}

pub record ContextMessage : Type 0 where
  pub group_key : Text
  pub sender : Text
  pub content : Text
  pub timestamp : ℕ

abbrev pub Rows : Type 0
Rows = List ContextMessage

unfoldable pub of_group : Text → ContextMessage → Bool
of_group key m = m.group_key =? key

-- Deletes the rows of the group that `limit` later rows of the group follow.
unfoldable pub trim : Text → ℕ → Rows → Rows
unfolding of_group
trim key limit [] = []
trim key limit (m ∷ rows) =
    let rest = trim key limit rows in
    if of_group key m && leb limit (count_where (of_group key) rows) then rest else m ∷ rest

unfoldable pub store_context : ContextMessage → ℕ → Rows → Rows
unfolding trim
store_context m limit rows =
    if nat_eqb limit 0 then rows else trim m.group_key limit (rows ++ (m ∷ []))

-- The messages of the group, oldest first, and the rows that stay.
unfoldable pub take_context : Text → Rows → List ContextMessage × Rows
unfolding of_group
take_context key rows = (retain (of_group key) rows, retain (λ m. not (of_group key m)) rows)
