-- ===== src/Agents/Boot/Restored.antt =====
-- crates/anyclaw-agents/src/manager.rs: which sessions await their recovery after a start, row by
-- row of the store.
use protoclaw.Base.{
  ℕ, ◌≡◌, refl, sym, subst, arith, ap, ◌∙◌, Bool, true, false, Option, none, some, List, [], ◌∷◌,
  if◌then◌else◌, ◌=?◌, nat_eq, list_eq, list_eqb_iff,
}
use protoclaw.Base.Map.{Map, get, get-insert, Distinct}
use protoclaw.Base.Text.{Text}
use protoclaw.SdkTypes.SessionKey.{SessionKey, from_str}
use protoclaw.Agents.Slot.{Outside, AgentSlot}
use protoclaw.Agents.Store.{PersistedSession, Sessions}
use protoclaw.Agents.Store.Loaded.{
  AllKeys, id_for, recoverable, Expects, recoverable-Expects, loaded, loaded-Distinct, get-loaded,
}
use protoclaw.Agents.Boot.{
  slot_named, on_slot, key_of, add_stale, or_insert, restore, restore_sessions,
}

abbrev pub first_of : Option Text → Option Text → Option Text
first_of none other = other
first_of (some id) other = some id

module _ (out : Outside) where
  slot_named-on_slot :
      (f : AgentSlot out → AgentSlot out) (keeps : (s : AgentSlot out) → (f s).name ≡ s.name)
      (m name : Text) (slots : List (AgentSlot out)) (slot : AgentSlot out)
      → slot_named out name slots ≡ some slot
      → slot_named out name (on_slot out f m slots) ≡ some (if m =? name then f slot else slot)
  unfolding slot_named on_slot
  slot_named-on_slot f keeps m name [] slot h = ground (arith, h)
  slot_named-on_slot f keeps m name (s ∷ slots) slot h = ground (
    arith,
    h,
    keeps s,
    list_eqb_iff {K = ℕ} s.name name,
    list_eqb_iff {K = ℕ} s.name m,
    list_eqb_iff {K = ℕ} m name,
    slot_named-on_slot f keeps m name slots slot,
  )

  -- Only what awaits its recovery may differ.
  abbrev pub SameButStale : (slot' slot : AgentSlot out) → Type 0
  SameButStale slot' slot = slot' ≡ record slot { stale_sessions = slot'.stale_sessions }

  -- The slot of the name after a change of the slots, with what awaits its recovery.
  abbrev pub Awaits :
      Text → List (AgentSlot out) → AgentSlot out → (SessionKey → Option Text) → Type 0
  Awaits name slots slot expected =
      (slot' : AgentSlot out) × (slot_named out name slots ≡ some slot')
      × SameButStale slot' slot
      × ((key : SessionKey) → get key slot'.stale_sessions ≡ expected key)

  if_added-SameButStale :
      (b : Bool) (key : SessionKey) (id : Text) (slot slot' : AgentSlot out)
      → SameButStale slot' (if b then add_stale out key id slot else slot)
      → SameButStale slot' slot
  unfolding add_stale
  if_added-SameButStale true key id slot slot' h = h
  if_added-SameButStale false key id slot slot' h = h

  get_nil : (key : SessionKey) → get {V = Text} key [] ≡ none
  unfolding get
  get_nil key = refl

  get-or_insert :
      (j key : SessionKey) (id : Text) (m : Map SessionKey Text)
      → get key (or_insert j id m) ≡ first_of (get key m) (if j =? key then some id else none)
  get-or_insert j key id m = ground (arith, get-insert j key id m, list_eqb_iff {K = ℕ} j key)

  key_of_parsed :
      (key : Text) (row : PersistedSession) → from_str key ≡ some key → key_of out key row ≡ key
  unfolding key_of
  key_of_parsed key row h = ground (arith, h)

  -- What awaits its recovery after the first row and the later ones.
  expected_step :
      (name key j : Text) (row : PersistedSession) (rows : Sessions) (slot : AgentSlot out)
      → get j rows ≡ none
      → first_of
          (get key
            (if row.agent_name =? name
              then add_stale out j row.acp_session_id slot
              else slot).stale_sessions)
          (id_for name (get key rows))
        ≡ first_of (get key slot.stale_sessions) (id_for name (get key ((j, row) ∷ rows)))
  unfolding get add_stale
  expected_step name key j row rows slot h = ground (
    arith,
    h,
    get-or_insert j key row.acp_session_id slot.stale_sessions,
    list_eqb_iff {K = ℕ} j key,
  )

  restore-Awaits :
      (name : Text) (rows : Sessions) (slots : List (AgentSlot out)) (slot : AgentSlot out)
      → Distinct rows
      → AllKeys rows
      → slot_named out name slots ≡ some slot
      → Awaits name
          (restore out rows slots)
          slot
          (λ key. first_of (get key slot.stale_sessions) (id_for name (get key rows)))
  unfolding restore get add_stale
  restore-Awaits name [] slots slot d parse h = (slot, h, refl, λ key. ground arith)
  restore-Awaits name ((j, row) ∷ rows) slots slot d parse h =
      let add = add_stale out j row.acp_session_id in
      let later : List (AgentSlot out) = on_slot out add row.agent_name slots in
      let changed : AgentSlot out = if row.agent_name =? name then add slot else slot in
      let found = slot_named-on_slot add (λ s. refl) row.agent_name name slots slot h in
      let (last, named, rest, expected) =
        restore-Awaits name rows later changed d.1 parse.1 found in
      let same : restore out ((j, row) ∷ rows) slots ≡ restore out rows later =
        cc (key_of_parsed j row parse.0) in
      let rest' =
        if_added-SameButStale (row.agent_name =? name) j row.acp_session_id slot last rest in
      (
        last,
        cc (named, same),
        rest',
        λ key. expected key ∙ expected_step name key j row rows slot d.0,
      )

  pub restored_as :
      (deletes loads : Bool) (now session_ttl_secs : ℕ) (name : Text) (rows : Sessions)
      (slots : List (AgentSlot out)) (slot : AgentSlot out)
      → Distinct rows
      → AllKeys rows
      → slot_named out name slots ≡ some slot
      → slot.stale_sessions ≡ []
      → (slot' : AgentSlot out) × (slot_named out name
            (restore_sessions out deletes loads now session_ttl_secs rows slots)
          ≡ some slot')
        × SameButStale slot' slot
        × ((key : SessionKey)
            → get key slot'.stale_sessions
              ≡ recoverable deletes loads now session_ttl_secs name (get key rows))
  unfolding restore_sessions
  restored_as deletes loads now ttl name rows slots slot d parse h fresh =
      let open_rows = loaded deletes loads now ttl rows in
      let (distinct, keys) = loaded-Distinct deletes loads now ttl rows d parse in
      let (slot', named, rest, expected) =
        restore-Awaits name open_rows slots slot distinct keys h in
      let none_before : (key : SessionKey) → get key slot.stale_sessions ≡ none =
        λ key. ap (get key) fresh ∙ get_nil key in
      (
        slot',
        named,
        rest,
        λ key.
            expected key ∙ cc (none_before key, get-loaded deletes loads now ttl name key rows d),
      )

  -- The slot of an agent's name is still found after the start has restored the sessions, unchanged
  -- but for what awaits its recovery. Where nothing awaited its recovery before, it is then exactly
  -- one session for each row of the store that the agent left open and, where the store deletes
  -- the expired rows, that was last active no longer ago than the lifetime of sessions; nothing if
  -- the store cannot be read. The keys of the rows are distinct session keys.
  pub restored_sessions :
      (deletes loads : Bool) (now session_ttl_secs : ℕ) (name : Text) (rows : Sessions)
      (slots : List (AgentSlot out)) (slot : AgentSlot out)
      → Distinct rows
      → AllKeys rows
      → slot_named out name slots ≡ some slot
      → slot.stale_sessions ≡ []
      → (slot' : AgentSlot out) × (slot_named out name
            (restore_sessions out deletes loads now session_ttl_secs rows slots)
          ≡ some slot')
        × SameButStale slot' slot
        × ((key : SessionKey)
            → Expects deletes loads now session_ttl_secs name
                (get key rows)
                (get key slot'.stale_sessions))
  restored_sessions deletes loads now ttl name rows slots slot d parse h fresh =
      let (slot', named, rest, stale) =
        restored_as deletes loads now ttl name rows slots slot d parse h fresh in
      (
        slot',
        named,
        rest,
        λ key.
            subst (Expects deletes loads now ttl name (get key rows)) (sym (stale key))
              (recoverable-Expects deletes loads now ttl name (get key rows)),
      )
