-- ===== src/Agents/Store.antt =====
-- crates/anyclaw-core/src/sqlite_session_store.rs: the table of sessions, by their keys, and the
-- record of session_store.rs. Times are seconds; a failure of the database is an answer of the
-- caller.
pub mod Loaded
use protoclaw.Base.{ℕ, ◌+◌, Bool, true, not, none, some, ltb, retain, nat_eq, list_eq}
use protoclaw.Base.Map.{Map, get, insert}
use protoclaw.Base.Text.{Text}

pub record PersistedSession : Type 0 where
  pub agent_name : Text
  pub acp_session_id : Text
  pub created_at : ℕ
  pub last_active_at : ℕ
  pub closed : Bool

abbrev pub Sessions : Type 0
Sessions = Map Text PersistedSession

-- A change of the row under the key, if there is one.
on_row : (PersistedSession → PersistedSession) → Text → Sessions → Sessions
on_row f key rows = elim (get key rows) [ none ↦ rows | some row ↦ insert key (f row) rows ]

unfoldable pub upsert_session : Text → PersistedSession → Sessions → Sessions
upsert_session key row rows = insert key row rows

unfoldable pub mark_closed : Text → Sessions → Sessions
unfolding on_row
mark_closed key rows = on_row (λ row. record row { closed = true }) key rows

unfoldable pub update_last_active : Text → (timestamp : ℕ) → Sessions → Sessions
unfolding on_row
update_last_active key timestamp rows =
    on_row (λ row. record row { last_active_at = timestamp }) key rows

-- `last_active_at < now - max_age_secs`.
abbrev pub is_expired : (now max_age_secs : ℕ) → PersistedSession → Bool
is_expired now max_age_secs row = ltb (row.last_active_at + max_age_secs) now

unfoldable pub delete_expired : (now max_age_secs : ℕ) → Sessions → Sessions
delete_expired now max_age_secs rows =
    retain (λ entry. not (is_expired now max_age_secs entry.1)) rows

unfoldable pub load_open_sessions : Sessions → Sessions
load_open_sessions rows = retain (λ entry. not entry.1.closed) rows
