-- ===== src/Agents/Recovery.antt =====
-- crates/anyclaw-agents/src/session_recovery.rs: what happens to a slot when its agent exits.
-- Spawning and initializing a process, the agent's answers and the instants are arguments. The
-- connection that `try_restore_session` expects has been set by `respawn_and_initialize`.
pub mod Crash
use protoclaw.Base.{
  ℕ, Bool, true, false, not, Option, none, some, List, [], ◌∷◌, if◌then◌else◌, ◌=?◌, nat_eq,
  list_eq,
}
use protoclaw.Base.Map.{Map, Set, get, insert, contains, add, extend}
use protoclaw.Base.Text.{Text}
use protoclaw.SdkTypes.SessionKey.{SessionKey}
use protoclaw.Core.Backoff.{reset}
use protoclaw.Core.SlotLifecycle.{SlotLifecycle, CrashAction, restart_after, record_crash_and_check}
use protoclaw.Agents.Slot.{
  Result, ok, err, Outside, AgentSlot, Capabilities, has_session_capability,
}
use protoclaw.Agents.Sessions.{Replies, start_session, register_default_session}

abbrev pub values : Map SessionKey Text → List Text
values [] = []
values ((k, v) ∷ m) = v ∷ values m

abbrev pub keys : Map SessionKey Text → List SessionKey
keys [] = []
keys ((k, v) ∷ m) = k ∷ keys m

abbrev add_all : List Text → Set Text → Set Text
add_all [] s = s
add_all (x ∷ xs) s = add_all xs (add x s)

-- A request to continue a session, by its id.
pub data Request : Type 0 where
  session_resume : Text → Request
  session_load : Text → Request

-- The id of a restored session: the one that was recovered has its new id.
abbrev pub rename : Text → Text → Text → Text
rename first returned id = if id =? first then returned else id

module _ (out : Outside) where
  open out use {Connection, Token}

  -- The new process: its connection, and its capabilities if the handshake succeeds.
  pub record Respawn : Type 0 where
    pub spawned : Option Connection
    pub initialized : Option Capabilities

  -- Whether to go on; `none` is the panic of the backoff.
  unfoldable pub prepare_restart : (now later : ℕ) → AgentSlot out → Option (AgentSlot out × Bool)
  prepare_restart now later slot = elim (record_crash_and_check now later slot.lifecycle) [
    | none ↦ none
    | some (l, CrashAction.disabled) ↦
        some (record slot { lifecycle = l; connection = none }, false)
    | some (l, restart_after delay) ↦ some (record slot { lifecycle = l; connection = none }, true)
  ]

  -- The session has a prompt in flight, whose task reports the crash itself.
  abbrev pub has_active_prompt : SessionKey → AgentSlot out → Bool
  has_active_prompt key slot = elim (get key slot.session_map) [
    | none ↦ false
    | some acp_id ↦ contains acp_id slot.active_prompts
  ]

  unfoldable pub notices : List SessionKey → AgentSlot out → List SessionKey
  notices [] slot = []
  notices (key ∷ ks) slot =
      let rest = notices ks slot in if has_active_prompt key slot then rest else key ∷ rest

  -- The sessions that are told of the crash.
  unfoldable pub notify_crash_to_channels : Bool → AgentSlot out → AgentSlot out × List SessionKey
  unfolding notices
  notify_crash_to_channels sender slot = (
    record slot { active_prompts = [] },
    if sender then notices (keys slot.session_map) slot else [],
  )

  unfoldable pub respawn_and_initialize : Respawn → AgentSlot out → AgentSlot out × Bool
  respawn_and_initialize p slot = elim p.spawned [
    | none ↦ (slot, false)
    | some conn ↦ elim p.initialized [
      | none ↦ (record slot { connection = none }, false)
      | some caps ↦ (record slot { connection = some conn; agent_capabilities = some caps }, true)
    ]
  ]

  abbrev pub reset_backoff : SlotLifecycle Token → SlotLifecycle Token
  reset_backoff l = record l { backoff = reset l.backoff }

  -- All stale sessions become sessions again.
  unfoldable pub drain_stale : Text → Text → AgentSlot out → AgentSlot out
  drain_stale first returned slot = record slot {
    session_map = extend (rename first returned) slot.stale_sessions slot.session_map;
    stale_sessions = [];
    lifecycle = reset_backoff slot.lifecycle;
  }

  unfoldable pub await_all : AgentSlot out → AgentSlot out
  await_all slot = record slot {
    awaiting_first_prompt = add_all (values slot.session_map) slot.awaiting_first_prompt;
  }

  -- The slot, whether the sessions are restored, and what the agent was asked for.
  unfoldable pub restore_first :
      Text → Replies → AgentSlot out → AgentSlot out × Bool × List Request
  unfolding drain_stale await_all has_session_capability
  restore_first first r slot =
      if has_session_capability out (λ c. c.resume) slot
      then elim r.resumed [
        | none ↦ (slot, false, session_resume first ∷ [])
        | some id ↦ (drain_stale first id slot, true, session_resume first ∷ [])
      ]
      else if has_session_capability out (λ c. c.load_session) slot
      then elim r.loaded [
        | none ↦ (slot, false, session_load first ∷ [])
        | some id ↦ (await_all (drain_stale first id slot), true, session_load first ∷ [])
      ]
      else (slot, false, [])

  -- One of the stale sessions is asked for, if there is any.
  unfoldable pub restore_one_of :
      Map SessionKey Text → Replies → AgentSlot out → AgentSlot out × Bool × List Request
  unfolding restore_first
  restore_one_of [] r slot = (slot, false, [])
  restore_one_of ((key, first) ∷ rest) r slot = restore_first first r slot

  unfoldable pub try_restore_session : Replies → AgentSlot out → AgentSlot out × Bool × List Request
  unfolding restore_one_of
  try_restore_session r slot = restore_one_of slot.stale_sessions r slot

  -- The sessions survive the crash as stale ones.
  unfoldable pub set_aside : AgentSlot out → AgentSlot out
  set_aside slot = record slot {
    stale_sessions = extend (λ id. id) slot.session_map slot.stale_sessions;
    session_map = [];
    awaiting_first_prompt = [];
    tool_context_sent = [];
  }

  unfoldable pub start_afresh : Replies → AgentSlot out → AgentSlot out
  unfolding start_session register_default_session
  start_afresh r slot = elim (start_session out slot r) [
    | err e ↦ record slot { connection = none }
    | ok id ↦
        let started =
          register_default_session out slot.name id (record slot { reverse_map = [] }) in
        record started { lifecycle = reset_backoff started.lifecycle }
  ]

  unfoldable pub restore_or_start_session : Replies → AgentSlot out → AgentSlot out × List Request
  unfolding set_aside start_afresh
  restore_or_start_session r slot =
      let (tried, restored, asked) = try_restore_session r (set_aside slot) in
      (if restored then tried else start_afresh r tried, asked)

  go_on : Bool → Respawn → Replies → AgentSlot out → AgentSlot out × List SessionKey × List Request
  unfolding restore_or_start_session respawn_and_initialize notify_crash_to_channels
  go_on sender p r slot =
      let (quiet, told) = notify_crash_to_channels sender slot in
      let (running, started) = respawn_and_initialize p quiet in
      let (back, asked) = restore_or_start_session r running in
      if started then (back, told, asked) else (running, told, [])

  -- `handle_crash`: the slot, the sessions that are told of the crash, and what the new process
  -- is asked to restore.
  unfoldable pub handle_crash :
      (now later : ℕ) (sender : Bool)
      → Respawn
      → Replies
      → AgentSlot out
      → Option (AgentSlot out × List SessionKey × List Request)
  unfolding prepare_restart go_on
  handle_crash now later sender p r slot = elim (prepare_restart now later slot) [
    | none ↦ none
    | some (stopped, false) ↦ some (stopped, [], [])
    | some (stopped, true) ↦ some (go_on sender p r stopped)
  ]
