-- ===== src/Agents/Boot/Outlives.antt =====
-- A session over a restart of the program: crates/anyclaw-agents/src/commands.rs opens it and
-- session_recovery.rs recovers it, with the start of manager.rs and the table of
-- crates/anyclaw-core/src/sqlite_session_store.rs between them.
use protoclaw.Base.{
  ℕ, ◌≡◌, refl, arith, ◌∙◌, ap, ◌+◌, ◌≤◌, true, false, none, some, List, [], ◌∷◌, nat_eq, list_eq,
  eq_self,
}
use protoclaw.Base.Map.{get, insert, get-insert, Distinct, insert-Distinct}
use protoclaw.Base.Text.{Text}
use protoclaw.SdkTypes.SessionKey.{SessionKey, from_str}
use protoclaw.Agents.Slot.{ok, Outside, AgentSlot, has_session_capability}
use protoclaw.Agents.Sessions.{Replies, start_session, create_session, heal_session}
use protoclaw.Agents.Store.{PersistedSession, Sessions, upsert_session}
use protoclaw.Agents.Boot.{slot_named, restore_sessions, persist}
use protoclaw.Agents.Boot.Restored.{SameButStale, restored_as}
use protoclaw.Agents.Store.Loaded.{AllKeys, recoverable}

insert-AllKeys :
    (key : Text) (row : PersistedSession) (rows : Sessions)
    → from_str key ≡ some key
    → AllKeys rows
    → AllKeys (insert key row rows)
unfolding insert
insert-AllKeys key row [] h keys = (h, tt)
insert-AllKeys key row ((j, old) ∷ rows) h keys =
    ground (arith, h, keys, insert-AllKeys key row rows h keys.1)

module _ (out : Outside) where
  open out use {Connection}

  -- What a new session stores.
  created_stored :
      (key : SessionKey) (id : Text) (r : Replies) (slot : AgentSlot out)
      → get key slot.session_map ≡ none
      → start_session out slot r ≡ ok id
      → (create_session out key r slot).2
        ≡ record { agent_name = slot.name; session_key = key; acp_session_id = id } ∷ []
  unfolding create_session
  created_stored key id r slot unopened started = ground (arith, unopened, started)

  -- A session awaits its recovery at an agent that resumes it.
  resumed :
      (key : SessionKey) (id id' : Text) (c : Connection) (r : Replies) (slot : AgentSlot out)
      → get key slot.stale_sessions ≡ some id
      → has_session_capability out (λ c. c.resume) slot ≡ true
      → slot.connection ≡ some c
      → r.resumed ≡ some id'
      → get key (heal_session out key r slot).0.session_map ≡ some id'
  unfolding heal_session
  resumed key id id' c r slot stale resumes connected answer = ground (
    arith,
    stale,
    resumes,
    connected,
    answer,
    get-insert key key id' slot.session_map,
    eq_self key,
  )

  -- A row of the time `now` that has not expired.
  recent_row :
      (now later ttl : ℕ) (row : PersistedSession)
      → later ≤ now + ttl
      → row.last_active_at ≡ now
      → row.closed ≡ false
      → recoverable true true later ttl row.agent_name (some row) ≡ some row.acp_session_id
  recent_row now later ttl row h e open_row = ground (arith, h, e, open_row, eq_self row.agent_name)

  capability_kept :
      (slot slot' : AgentSlot out)
      → SameButStale out slot' slot
      → (slot'.connection ≡ slot.connection)
        × (has_session_capability out (λ c. c.resume) slot'
            ≡ has_session_capability out (λ c. c.resume) slot)
  unfolding has_session_capability
  capability_kept slot slot' h =
      (ap (λ s. s.connection) h, ap (λ s. has_session_capability out (λ c. c.resume) s) h)

  -- A session that the agent opened for a new conversation is, after a restart of the program
  -- within the lifetime of sessions in which the store answers, known at the slot that the agent's
  -- name then has, and where the connected agent resumes it the first recovery of the conversation
  -- reaches it again under the id that the agent returns. Nothing else awaits its recovery in the
  -- new slot before the stored sessions are restored, and the keys of the store are distinct
  -- session keys.
  pub session_outlives_restart :
      (key : SessionKey) (id id' : Text) (c : Connection) (r r' : Replies)
      (now later session_ttl_secs : ℕ) (rows : Sessions) (before fresh : AgentSlot out)
      (slots : List (AgentSlot out))
      → get key before.session_map ≡ none
      → start_session out before r ≡ ok id
      → from_str key ≡ some key
      → Distinct rows
      → AllKeys rows
      → later ≤ now + session_ttl_secs
      → slot_named out before.name slots ≡ some fresh
      → fresh.stale_sessions ≡ []
      → has_session_capability out (λ c. c.resume) fresh ≡ true
      → fresh.connection ≡ some c
      → r'.resumed ≡ some id'
      → let stored = (create_session out key r before).2 in
        let rows' = persist now stored rows in
        let slots' = restore_sessions out true true later session_ttl_secs rows' slots in
        (slot : AgentSlot out) × (slot_named out before.name slots' ≡ some slot)
        × (get key slot.stale_sessions ≡ some id)
        × (get key (heal_session out key r' slot).0.session_map ≡ some id')
  unfolding persist upsert_session
  session_outlives_restart key id id' c r r' now later ttl rows before fresh slots unopened started
        parse d keys h found none_stale resumes connected answer =
      let row : PersistedSession = record {
        agent_name = before.name;
        acp_session_id = id;
        created_at = now;
        last_active_at = now;
        closed = false;
      } in
      let rows' = insert key row rows in
      let (slot, named, rest, stale) =
        restored_as out true true later ttl before.name rows' slots fresh
          (insert-Distinct key row rows d) (insert-AllKeys key row rows parse keys) found
          none_stale in
      let is_stale : get key slot.stale_sessions ≡ some id =
        stale key
        ∙ ground (
          arith,
          get-insert key key row rows,
          eq_self key,
          recent_row now later ttl row h refl refl,
        ) in
      let (same_connection, same_capability) = capability_kept fresh slot rest in
      let healed =
        resumed key id id' c r' slot is_stale (same_capability ∙ resumes)
          (same_connection ∙ connected) answer in
      rw (created_stored key id r before unopened started) (slot, named, is_stale, healed)
