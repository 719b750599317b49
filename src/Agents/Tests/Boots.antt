-- ===== src/Agents/Tests/Boots.antt =====
-- Tests of the start and the health of the agents manager, and instances of the theorems on
-- the stored sessions.
use protoclaw.Base.{
  ℕ, ◌≡◌, refl, arith, true, false, Option, none, some, List, [], ◌∷◌, nat_eq, list_eq, list_eqb,
}
use protoclaw.Base.Map.{get, insert}
use protoclaw.Base.Text.{Text, bytes}
use protoclaw.SdkTypes.SessionKey.{SessionKey, from_str}
use protoclaw.Agents.Slot.{AgentSlot, has_session_capability}
use protoclaw.Agents.Recovery.{Respawn}
use protoclaw.Agents.Store.{
  PersistedSession, Sessions, upsert_session, mark_closed, update_last_active,
}
use protoclaw.Agents.Sessions.{
  start_session, register_default_session, create_session, heal_session,
}
use protoclaw.Agents.Boot.{
  persist, AgentConfig, Agent, new_slot, apply_agent_defaults, start_slots, slot_named,
  restore_sessions, shutdown_all, health_check,
}
use protoclaw.Agents.Boot.Restored.{SameButStale, restored_sessions}
use protoclaw.Agents.Store.Loaded.{Expects}
use protoclaw.Agents.Boot.Outlives.{session_outlives_restart}
use protoclaw.Agents.Tests.Slots.{world, alice, empty_slot, willing}

abbrev name : Text
name = bytes "main"

abbrev started : Respawn world
started = record {
  spawned = some tt;
  initialized = some (record { resume = true; load_session = false; fork = false });
}

abbrev failed : Respawn world
failed = record { spawned = none; initialized = none }

abbrev config : AgentConfig
config = record { enabled = true; backoff = some (100, 30); crash_tracker = none }

abbrev idle : AgentConfig
idle = record { enabled = false; backoff = none; crash_tracker = none }

abbrev agents : List (Agent world (λ t. t))
agents = (bytes "off", idle, failed, willing) ∷ (name, config, started, willing) ∷ []

abbrev slots_or_none : Option (List (AgentSlot world)) → List (AgentSlot world)
slots_or_none none = []
slots_or_none (some slots) = slots

abbrev slots : List (AgentSlot world)
slots = slots_or_none (start_slots world (λ t. t) tt agents)

-- The slot of the started agent, with its first session.
abbrev slot_of_main : AgentSlot world
slot_of_main =
    register_default_session world name (bytes "s2")
      (record (new_slot world (λ t. t) tt name config) {
        connection = some tt;
        agent_capabilities = started.initialized;
      })

abbrev row : (id : Text) (time : ℕ) → PersistedSession
row id time = record {
  agent_name = name;
  acp_session_id = id;
  created_at = 10;
  last_active_at = time;
  closed = false;
}

abbrev bob : SessionKey
bob = bytes "telegram:direct:bob"

abbrev rows : Sessions
rows = mark_closed bob (
    update_last_active alice 500
      (upsert_session bob (row (bytes "b1") 490) (upsert_session alice (row (bytes "a1") 20) [])))

started_test :
    (slot_named world name slots ≡ some slot_of_main)
    × (slot_named world (bytes "off") slots ≡ none)
unfolding slot_named list_eqb start_slots start_session register_default_session
started_test = (refl, refl)

failed_test : start_slots world (λ t. t) tt ((name, config, failed, willing) ∷ []) ≡ none
unfolding start_slots
failed_test = refl

health_test :
    (health_check world (false ∷ true ∷ []) slots ≡ true)
    × (health_check world (true ∷ []) (shutdown_all world slots) ≡ false)
    × (health_check world (false ∷ []) [] ≡ true)
unfolding health_check shutdown_all start_slots start_session register_default_session
health_test = (refl, refl, refl)

-- What is configured stays, and of a default that is given twice the first counts.
defaults_test :
    apply_agent_defaults {V = ℕ} ((alice, 1) ∷ []) ((alice, 2) ∷ (bob, 3) ∷ [])
    ≡ (alice, 1) ∷ (bob, 3) ∷ []
unfolding apply_agent_defaults get insert list_eqb
defaults_test = refl

restored_sessions_example :
    (slot' : AgentSlot world) × (slot_named world name
        (restore_sessions world true true 1000 600 rows slots)
      ≡ some slot')
    × SameButStale world slot' slot_of_main
    × ((key : SessionKey)
        → Expects true true 1000 600 name (get key rows) (get key slot'.stale_sessions))
unfolding slot_named list_eqb get insert from_str start_slots upsert_session mark_closed
    update_last_active start_session register_default_session
restored_sessions_example =
    restored_sessions world true true 1000 600 name rows slots slot_of_main (refl, (refl, tt))
      (refl, (refl, tt)) refl refl

session_outlives_restart_example :
    let stored = (create_session world bob willing empty_slot).2 in
    let rows' = persist 900 stored [] in
    let slots' = restore_sessions world true true 1000 600 rows' (empty_slot ∷ []) in
    (slot : AgentSlot world) × (slot_named world empty_slot.name slots' ≡ some slot)
    × (get bob slot.stale_sessions ≡ some (bytes "s2"))
    × (get bob (heal_session world bob willing slot).0.session_map ≡ some (bytes "s3"))
unfolding slot_named list_eqb get from_str start_session has_session_capability
session_outlives_restart_example =
    session_outlives_restart world bob (bytes "s2") (bytes "s3") tt willing willing 900 1000 600 []
      empty_slot empty_slot (empty_slot ∷ []) refl refl refl tt tt (omega arith) refl refl refl refl
      refl
