-- ===== src/Agents/Boot.antt =====
-- crates/anyclaw-agents/src/manager.rs: how the agents manager starts: its agents, and the sessions
-- that an earlier run has stored; also its shutdown and its health. `none` is an error that ends
-- the start.
pub mod Restored
pub mod Outlives
use protoclaw.Base.{
  ℕ, ◌*◌, Bool, true, false, not, ◌&&◌, Option, none, some, List, [], ◌∷◌, if◌then◌else◌, map, any,
  is_empty, ◌=?◌, nat_eq, list_eq, retain,
}
use protoclaw.Base.Map.{Map, get, insert}
use protoclaw.Base.Text.{Text, bytes}
use protoclaw.SdkTypes.SessionKey.{SessionKey, from_str}
use protoclaw.SdkTypes.SessionKey
use protoclaw.Core.Backoff
use protoclaw.Core.Backoff.{ExponentialBackoff, from_millis, from_secs}
use protoclaw.Core.CrashTracker
use protoclaw.Core.CrashTracker.{CrashTracker}
use protoclaw.Core.SlotLifecycle.{new as new_lifecycle}
use protoclaw.Agents.Slot.{Result, ok, err, Outside, AgentSlot, Capabilities}
use protoclaw.Agents.Sessions.{Replies, Stored, start_session, register_default_session}
use protoclaw.Agents.Recovery.{Respawn}
use protoclaw.Agents.Store.{
  PersistedSession, Sessions, upsert_session, delete_expired, load_open_sessions,
}

-- What the operations on the sessions of a slot store at the time `now`.
unfoldable pub persist : (now : ℕ) → List Stored → Sessions → Sessions
persist now [] rows = rows
persist now (stored ∷ later) rows =
    let row : PersistedSession = record {
      agent_name = stored.agent_name;
      acp_session_id = stored.acp_session_id;
      created_at = now;
      last_active_at = now;
      closed = false;
    } in
    persist now later (upsert_session stored.session_key row rows)

-- What the manager reads of the configuration of an agent: base and maximum of the backoff in
-- milliseconds and seconds, maximum and window in seconds of the crash tracker.
pub record AgentConfig : Type 0 where
  pub enabled : Bool
  pub backoff : Option (ℕ × ℕ)
  pub crash_tracker : Option (ℕ × ℕ)

-- `options.entry(key).or_insert(value)`.
abbrev pub or_insert : {V : Type 0} → Text → V → Map Text V → Map Text V
or_insert key v m = elim (get key m) [ none ↦ insert key v m | some old ↦ m ]

-- The options that an agent reports apply where none are configured.
unfoldable pub apply_agent_defaults : {V : Type 0} → Map Text V → Map Text V → Map Text V
apply_agent_defaults options [] = options
apply_agent_defaults options ((key, v) ∷ defaults) =
    apply_agent_defaults (or_insert key v options) defaults

module _ (out : Outside) (child_token : out.Token → out.Token) where
  open out use {Token}

  unfoldable pub new_slot : (parent_cancel : Token) → Text → AgentConfig → AgentSlot out
  new_slot parent_cancel name config =
      let backoff : ExponentialBackoff = elim config.backoff [
        | none ↦ Backoff.default
        | some (base_ms, max_secs) ↦ Backoff.new (from_millis base_ms) (from_secs max_secs)
      ] in
      let tracker : CrashTracker = elim config.crash_tracker [
        | none ↦ CrashTracker.default
        | some (max_crashes, window_secs) ↦ CrashTracker.new max_crashes (from_secs window_secs)
      ] in
      record {
        name = name;
        connection = none;
        lifecycle = record (new_lifecycle child_token parent_cancel backoff tracker) {
          disabled = not config.enabled;
        };
        agent_capabilities = none;
        session_map = [];
        reverse_map = [];
        pending_permissions = [];
        stale_sessions = [];
        awaiting_first_prompt = [];
        last_available_commands = none;
        tool_context = none;
        tool_context_sent = [];
        active_prompts = [];
      }

  -- The handshake of a new process, then its first session.
  first_session : Text → Replies → AgentSlot out → Option (AgentSlot out)
  first_session name replies slot = elim (start_session out slot replies) [
    | err e ↦ none
    | ok id ↦ some (register_default_session out name id slot)
  ]

  unfoldable pub build_started_slot :
      Token → Text → AgentConfig → Respawn out → Replies → Option (AgentSlot out)
  unfolding new_slot first_session
  build_started_slot parent_cancel name config spawn replies = elim spawn.spawned [
    | none ↦ none
    | some connection ↦ elim spawn.initialized [
      | none ↦ none
      | some capabilities ↦
          first_session name replies (record (new_slot parent_cancel name config) {
            connection = some connection;
            agent_capabilities = some capabilities;
          })
    ]
  ]

  abbrev pub Agent : Type 0
  Agent = Text × AgentConfig × Respawn out × Replies

  abbrev cons_slot : AgentSlot out → Option (List (AgentSlot out)) → Option (List (AgentSlot out))
  cons_slot slot none = none
  cons_slot slot (some slots) = some (slot ∷ slots)

  -- The first agent that does not start ends the start.
  unfoldable pub start_slots : Token → List Agent → Option (List (AgentSlot out))
  unfolding build_started_slot
  start_slots parent_cancel [] = some []
  start_slots parent_cancel ((name, config, spawn, replies) ∷ agents) =
      let rest = start_slots parent_cancel agents in
      if config.enabled
      then elim (build_started_slot parent_cancel name config spawn replies) [
        | none ↦ none
        | some slot ↦ cons_slot slot rest
      ]
      else rest

module _ (out : Outside) where
  -- The slot that `find_slot_by_name` finds, and a change of it.
  unfoldable pub slot_named : Text → List (AgentSlot out) → Option (AgentSlot out)
  slot_named name [] = none
  slot_named name (slot ∷ slots) =
      let later = slot_named name slots in if slot.name =? name then some slot else later

  unfoldable pub on_slot :
      (AgentSlot out → AgentSlot out) → Text → List (AgentSlot out) → List (AgentSlot out)
  on_slot f name [] = []
  on_slot f name (slot ∷ slots) =
      let later = on_slot f name slots in if slot.name =? name then f slot ∷ slots else slot ∷ later

  -- A text that is no key is kept under a key of its own.
  unfoldable pub key_of : Text → PersistedSession → SessionKey
  key_of session_key row = elim (from_str session_key) [
    | some key ↦ key
    | none ↦ SessionKey.new row.agent_name (bytes "restored") row.acp_session_id
  ]

  unfoldable pub add_stale : SessionKey → Text → AgentSlot out → AgentSlot out
  add_stale key id slot = record slot { stale_sessions = or_insert key id slot.stale_sessions }

  unfoldable pub restore : Sessions → List (AgentSlot out) → List (AgentSlot out)
  restore [] slots = slots
  restore ((session_key, row) ∷ rows) slots =
      restore rows
        (on_slot (add_stale (key_of session_key row) row.acp_session_id) row.agent_name slots)

  -- The second part of `start`: the expired sessions are deleted, and the open ones await their
  -- recovery. `deletes` and `loads` say whether the store does what it is asked for.
  unfoldable pub restore_sessions :
      (deletes loads : Bool) (now session_ttl_secs : ℕ)
      → Sessions
      → List (AgentSlot out)
      → List (AgentSlot out)
  restore_sessions deletes loads now session_ttl_secs rows slots =
      let left = if deletes then delete_expired now session_ttl_secs rows else rows in
      let open_sessions = if loads then load_open_sessions left else [] in
      restore open_sessions slots

  without_connection : AgentSlot out → AgentSlot out
  without_connection slot = record slot { connection = none }

  -- Each connection is taken and its process is killed.
  unfoldable pub shutdown_all : List (AgentSlot out) → List (AgentSlot out)
  unfolding without_connection
  shutdown_all slots = map without_connection slots

  abbrev is_down : AgentSlot out → Bool
  is_down slot = elim slot.connection [ none ↦ true | some c ↦ false ]

  -- Every slot that is not disabled is connected; with no such slot no agent may be enabled.
  unfoldable pub health_check : (enabled : List Bool) → List (AgentSlot out) → Bool
  health_check enabled slots =
      let running = retain (λ slot. not slot.lifecycle.disabled) slots in
      if is_empty running then not (any (λ e. e) enabled) else not (any is_down running)
