-- ===== src/Agents/Sessions.antt =====
-- Creating, healing, forking, cancelling and expiring the sessions of a slot:
-- crates/anyclaw-agents/src/commands.rs, session_recovery.rs, manager.rs and incoming.rs. What the
-- agent and the tools manager answer is an argument; what is sent to the session store is a result.
pub mod Routing
pub mod Removal
pub mod Steps
use protoclaw.Base.{
  ◌++◌, Bool, true, false, not, ◌&&◌, Option, none, some, List, [], ◌∷◌, if◌then◌else◌, ◌=?◌,
  nat_eq, list_eq, retain,
}
use protoclaw.Base.Map.{Map, get, insert, remove, add, discard}
use protoclaw.Base.Text.{Text, bytes}
use protoclaw.SdkTypes.SessionKey.{SessionKey, channel_name}
use protoclaw.SdkTypes.SessionKey
use protoclaw.Agents.Slot.{
  AgentsError, connection_closed, spawn_failed, capability_not_supported, Result, ok, err, Outside,
  AgentSlot, Capabilities, has_session_capability,
}

-- The answers to the requests of one call: the error if the tools manager cannot be reached, the tool
-- context that it gives, the agent's answer to session/new, and the session ids that it returns
-- for session/resume, session/load and session/fork; `none` is any failure of such a request.
pub record Replies : Type 0 where
  pub tools_failure : Option Text
  pub tool_context : Option Text
  pub new_session : Result Text
  pub resumed : Option Text
  pub loaded : Option Text
  pub forked : Result Text

-- A record upserted in the session store.
pub record Stored : Type 0 where
  pub agent_name : Text
  pub session_key : SessionKey
  pub acp_session_id : Text

module _ (out : Outside) where
  open out use {Connection}

  unfoldable pub start_session : AgentSlot out → Replies → Result Text
  start_session slot r = elim r.tools_failure [
    | some e ↦ err (spawn_failed (bytes "tools handle: " ++ e))
    | none ↦ elim slot.connection [ none ↦ err connection_closed | some c ↦ r.new_session ]
  ]

  unfoldable pub register_default_session : Text → Text → AgentSlot out → AgentSlot out
  register_default_session name session_id slot =
      let default_key = SessionKey.new name (bytes "default") (bytes "default") in
      record slot {
        session_map = insert default_key session_id slot.session_map;
        reverse_map = insert session_id default_key slot.reverse_map;
      }

  -- Both maps, as every new or recovered session is entered.
  abbrev pub enter : SessionKey → Text → AgentSlot out → AgentSlot out
  enter key id slot = record slot {
    session_map = insert key id slot.session_map;
    reverse_map = insert id key slot.reverse_map;
  }

  abbrev pub cache_tool_context : Replies → AgentSlot out → AgentSlot out
  cache_tool_context r slot = elim slot.tool_context [
    | none ↦ record slot { tool_context = r.tool_context }
    | some ctx ↦ slot
  ]

  -- `create_session` behind the lookup of the slot.
  unfoldable pub create_session :
      SessionKey → Replies → AgentSlot out → AgentSlot out × Result Text × List Stored
  unfolding start_session
  create_session key r slot = elim (get key slot.session_map) [
    | some acp_id ↦ (slot, ok acp_id, [])
    | none ↦ elim (start_session slot r) [
      | err e ↦ (slot, err e, [])
      | ok acp_id ↦ (
        enter key acp_id (cache_tool_context r slot),
        ok acp_id,
        record { agent_name = slot.name; session_key = key; acp_session_id = acp_id } ∷ [],
      )
    ]
  ]

  -- The last resort of `heal_session`.
  heal_by_create :
      SessionKey → Replies → AgentSlot out → AgentSlot out × Result (Unit {0}) × List Stored
  unfolding create_session
  heal_by_create key r slot =
      let cleared = record slot { stale_sessions = remove key slot.stale_sessions } in
      let (slot', result, stored) = create_session key r cleared in
      (slot', elim result [ ok id ↦ ok tt | err e ↦ err e ], stored)

  -- A recovered session: no longer stale, entered in both maps and in the store.
  abbrev pub recovered :
      SessionKey → Text → AgentSlot out → AgentSlot out × Result (Unit {0}) × List Stored
  recovered key id slot = (
    enter key id (record slot { stale_sessions = remove key slot.stale_sessions }),
    ok tt,
    record { agent_name = slot.name; session_key = key; acp_session_id = id } ∷ [],
  )

  heal_by_resume :
      SessionKey → Replies → AgentSlot out → AgentSlot out × Result (Unit {0}) × List Stored
  unfolding heal_by_create
  heal_by_resume key r slot = elim slot.connection [
    | none ↦ (slot, err connection_closed, [])
    | some c ↦ elim r.resumed [ none ↦ heal_by_create key r slot | some id ↦ recovered key id slot ]
  ]

  -- A loaded session is replayed by the agent: its updates are held back until its first prompt.
  heal_by_load :
      SessionKey → Replies → AgentSlot out → AgentSlot out × Result (Unit {0}) × List Stored
  unfolding heal_by_create
  heal_by_load key r slot = elim slot.connection [
    | none ↦ (slot, err connection_closed, [])
    | some c ↦ elim r.loaded [
      | none ↦ heal_by_create key r slot
      | some id ↦
          recovered key id
            (record slot { awaiting_first_prompt = add id slot.awaiting_first_prompt })
    ]
  ]

  unfoldable pub heal_session :
      SessionKey → Replies → AgentSlot out → AgentSlot out × Result (Unit {0}) × List Stored
  unfolding heal_by_create heal_by_resume heal_by_load has_session_capability
  heal_session key r slot = elim (get key slot.stale_sessions) [
    | none ↦ heal_by_create key r slot
    | some acp_id ↦
        if has_session_capability out (λ c. c.resume) slot
        then heal_by_resume key r slot
        else if has_session_capability out (λ c. c.load_session) slot
        then heal_by_load key r slot
        else heal_by_create key r slot
  ]

  -- `fork_session` behind the lookup of the slot.
  unfoldable pub fork_session : SessionKey → Replies → AgentSlot out → AgentSlot out × Result Text
  unfolding has_session_capability
  fork_session key r slot =
      if not (has_session_capability out (λ c. c.fork) slot)
      then (slot, err (capability_not_supported (bytes "fork")))
      else elim (get key slot.session_map) [
        | none ↦ (slot, err connection_closed)
        | some acp_id ↦ elim slot.connection [
          | none ↦ (slot, err connection_closed)
          | some c ↦ elim r.forked [
            | err e ↦ (slot, err e)
            | ok id ↦ (enter (SessionKey.new (channel_name key) (bytes "fork") id) id slot, ok id)
          ]
        ]
      ]

  -- `cancel_session` behind the lookup of the slot: the id that session/cancel is sent for.
  unfoldable pub cancel_session : SessionKey → Result (Unit {0}) → AgentSlot out → Result Text
  cancel_session key sent slot = elim (get key slot.session_map) [
    | none ↦ err connection_closed
    | some acp_id ↦ elim slot.connection [
      | none ↦ err connection_closed
      | some c ↦ elim sent [ ok u ↦ ok acp_id | err e ↦ err e ]
    ]
  ]

  -- The first two steps of the platform command /new.
  unfoldable pub forget_session : SessionKey → AgentSlot out → AgentSlot out
  forget_session key slot = record slot {
    session_map = remove key slot.session_map;
    reverse_map = retain (λ entry. not (entry.1 =? key)) slot.reverse_map;
  }

  -- The platform command /new: forget the session and create a fresh one.
  unfoldable pub new_conversation :
      SessionKey → Replies → AgentSlot out → AgentSlot out × Result Text × List Stored
  unfolding forget_session create_session
  new_conversation key r slot = create_session key r (forget_session key slot)

  -- What `handle_prompt_completion` does to each slot when the agent no longer knows the session.
  unfoldable pub expire_session : SessionKey → AgentSlot out → AgentSlot out
  expire_session key slot = elim (get key slot.session_map) [
    | none ↦ slot
    | some acp_id ↦ record slot {
      session_map = remove key slot.session_map;
      stale_sessions = insert key acp_id slot.stale_sessions;
      reverse_map = remove acp_id slot.reverse_map;
      tool_context_sent = discard acp_id slot.tool_context_sent;
    }
  ]
