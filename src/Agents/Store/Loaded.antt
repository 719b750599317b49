-- ===== src/Agents/Store/Loaded.antt =====
-- Which rows of the table of crates/anyclaw-core/src/sqlite_session_store.rs a start gets.
use protoclaw.Base.{
  ℕ, ◌+◌, ◌≤◌, ◌≡◌, refl, arith, Bool, true, false, not, ◌&&◌, ◌||◌, Option, none, some, [], ◌∷◌,
  if◌then◌else◌, ◌=?◌, nat_eq, list_eq, list_eqb_iff, retain,
}
use protoclaw.Base.Map.{get, Distinct, get-retain, retain-Distinct}
use protoclaw.Base.Text.{Text}
use protoclaw.SdkTypes.SessionKey.{from_str}
use protoclaw.Agents.Store.{
  PersistedSession, Sessions, is_expired, delete_expired, load_open_sessions,
}

-- Every key of the table is a session key.
abbrev pub AllKeys : Sessions → Type 0
AllKeys [] = Unit
AllKeys ((key, row) ∷ rows) = (from_str key ≡ some key) × AllKeys rows

-- The session of a row that belongs to the agent.
abbrev pub id_for : Text → Option PersistedSession → Option Text
id_for name none = none
id_for name (some row) = if row.agent_name =? name then some row.acp_session_id else none

-- The session that the row leaves to be recovered by the agent.
abbrev pub recoverable :
    (deletes loads : Bool) (now session_ttl_secs : ℕ) (name : Text)
    → Option PersistedSession
    → Option Text
recoverable deletes loads now session_ttl_secs name none = none
recoverable deletes loads now session_ttl_secs name (some row) =
    let gone = row.closed || (deletes && is_expired now session_ttl_secs row) in
    if loads && (not gone && (row.agent_name =? name)) then some row.acp_session_id else none

retain-AllKeys :
    (p : Text × PersistedSession → Bool) (rows : Sessions) → AllKeys rows → AllKeys (retain p rows)
retain-AllKeys p [] h = tt
retain-AllKeys p ((key, row) ∷ rows) h = ground (arith, h, retain-AllKeys p rows h.1)

abbrev is_open : Text × PersistedSession → Bool
is_open entry = not entry.1.closed

abbrev is_fresh : (now session_ttl_secs : ℕ) → Text × PersistedSession → Bool
is_fresh now session_ttl_secs entry = not (is_expired now session_ttl_secs entry.1)

-- The rows that the store hands over.
abbrev pub loaded : (deletes loads : Bool) (now session_ttl_secs : ℕ) → Sessions → Sessions
loaded deletes loads now session_ttl_secs rows =
    let left = if deletes then delete_expired now session_ttl_secs rows else rows in
    if loads then load_open_sessions left else []

pub loaded-Distinct :
    (deletes loads : Bool) (now session_ttl_secs : ℕ) (rows : Sessions)
    → Distinct rows
    → AllKeys rows
    → Distinct (loaded deletes loads now session_ttl_secs rows)
      × AllKeys (loaded deletes loads now session_ttl_secs rows)
unfolding delete_expired load_open_sessions
loaded-Distinct deletes false now ttl rows d parse = (tt, tt)
loaded-Distinct false true now ttl rows d parse =
    (retain-Distinct is_open rows d, retain-AllKeys is_open rows parse)
loaded-Distinct true true now ttl rows d parse =
    let left : Sessions = retain (is_fresh now ttl) rows in
    (
      retain-Distinct is_open left (retain-Distinct (is_fresh now ttl) rows d),
      retain-AllKeys is_open left (retain-AllKeys (is_fresh now ttl) rows parse),
    )

pub get-loaded :
    (deletes loads : Bool) (now session_ttl_secs : ℕ) (name key : Text) (rows : Sessions)
    → Distinct rows
    → id_for name (get key (loaded deletes loads now session_ttl_secs rows))
      ≡ recoverable deletes loads now session_ttl_secs name (get key rows)
unfolding delete_expired load_open_sessions get
get-loaded false false now ttl name key rows d = ground arith
get-loaded true false now ttl name key rows d = ground arith
get-loaded false true now ttl name key rows d = ground (arith, get-retain is_open key rows d)
get-loaded true true now ttl name key rows d =
    let left : Sessions = retain (is_fresh now ttl) rows in
    ground (
      arith,
      get-retain is_open key left (retain-Distinct (is_fresh now ttl) rows d),
      get-retain (is_fresh now ttl) key rows d,
    )

-- The row leaves its session to be recovered by the agent: it was left open, it was last active
-- within the lifetime of sessions, if the store deletes the others, and the store can be read.
abbrev pub Recoverable :
    (deletes loads : Bool) (now session_ttl_secs : ℕ) (name : Text) → PersistedSession → Type 0
Recoverable deletes loads now session_ttl_secs name row =
    (loads ≡ true)
    × (row.closed ≡ false)
    × (row.agent_name ≡ name)
    × (deletes ≡ true → now ≤ row.last_active_at + session_ttl_secs)

-- What awaits its recovery under the key of a row, or under a key of no row.
abbrev pub Expects :
    (deletes loads : Bool) (now session_ttl_secs : ℕ) (name : Text)
    → Option PersistedSession
    → Option Text
    → Type 0
Expects deletes loads now session_ttl_secs name none found = found ≡ none
Expects deletes loads now session_ttl_secs name (some row) found =
    (Recoverable deletes loads now session_ttl_secs name row → found ≡ some row.acp_session_id)
    × ((¬ Recoverable deletes loads now session_ttl_secs name row) → found ≡ none)

pub recoverable-Expects :
    (deletes loads : Bool) (now session_ttl_secs : ℕ) (name : Text) (row : Option PersistedSession)
    → Expects deletes loads now session_ttl_secs name row
        (recoverable deletes loads now session_ttl_secs name row)
recoverable-Expects deletes loads now ttl name none = refl
recoverable-Expects deletes loads now ttl name (some row) = (
  λ (l, c, n, t). ground (arith, l, c, n, t, list_eqb_iff {K = ℕ} row.agent_name name),
  λ h. ground (arith, h, list_eqb_iff {K = ℕ} row.agent_name name),
)
