-- ===== src/Agents/Sessions/Routing.antt =====
-- Updates of a session reach the channel that owns it: the two maps of a slot stay inverse.
use protoclaw.Base.{
  ◌≡◌, refl, ◌⊎◌, inl, inr, none, some, List, [], ◌∷◌, arith, nat_eq, list_eq, list_eqb_iff,
  Option-cases, Bool-cases,
}
use protoclaw.Base.Map.{get, remove, get-insert}
use protoclaw.Base.Text.{Text}
use protoclaw.SdkTypes.SessionKey.{SessionKey}
use protoclaw.Agents.Slot.{
  AgentsError, connection_closed, Result, ok, err, Outside, AgentSlot, has_session_capability,
}
use protoclaw.Agents.Sessions.{
  Replies, Stored, enter, cache_tool_context, create_session, heal_session, heal_by_create,
  heal_by_resume, heal_by_load,
}

pub Result-cases {ℓ} :
    {A : Type ℓ} (r : Result A) → ((a : A) × (r ≡ ok a)) ⊎ ((e : AgentsError) × (r ≡ err e))
Result-cases (ok a) = inl (a, refl)
Result-cases (err e) = inr (e, refl)

module _ (out : Outside) where
  -- Every session of the slot is found again by its id.
  abbrev pub Routed : AgentSlot out → Type 0
  Routed slot =
      (k : SessionKey) (id : Text)
      → get k slot.session_map ≡ some id
      → get id slot.reverse_map ≡ some k

  -- An id that the slot does not know, or knows as the id of this key.
  abbrev pub FreeFor : SessionKey → Text → AgentSlot out → Type 0
  FreeFor key id slot = (get id slot.reverse_map ≡ none) ⊎ (get id slot.reverse_map ≡ some key)

  pub enter-Routed :
      (key : SessionKey) (id : Text) (slot : AgentSlot out)
      → Routed slot
      → FreeFor key id slot
      → Routed (enter out key id slot)
  enter-Routed key id slot routed free k id' h = ground (
    arith,
    get-insert key k id slot.session_map,
    get-insert id id' key slot.reverse_map,
    list_eqb_iff key k,
    list_eqb_iff id id',
    routed k id',
  )

  -- The three outcomes of `create_session`: the session is there, none is made, or a new one is.
  pub create_cases {ℓ} :
      (P : AgentSlot out × Result Text × List Stored → Type ℓ) (key : SessionKey) (r : Replies)
      (slot : AgentSlot out)
      → ((id : Text) → get key slot.session_map ≡ some id → P (slot, ok id, []))
      → ((e : AgentsError) → P (slot, err e, []))
      → ((id : Text)
          → get key slot.session_map ≡ none
          → r.new_session ≡ ok id
          → P (
            enter out key id (cache_tool_context out r slot),
            ok id,
            record { agent_name = slot.name; session_key = key; acp_session_id = id } ∷ [],
          ))
      → P (create_session out key r slot)
  unfolding create_session
  create_cases P key r slot old fails fresh = elim (Option-cases (get key slot.session_map)) [
    | inr (id, e) ↦ rw (e, create_session) (old id e)
    | inl e ↦ elim (Option-cases r.tools_failure) [
      | inr (x, u) ↦ rw (e, create_session) (rw (u, create_session) (fails _))
      | inl t ↦ elim (Option-cases slot.connection) [
        | inl n ↦ rw (e, create_session) (rw (t, n, create_session) (fails connection_closed))
        | inr (c, n) ↦ elim (Result-cases r.new_session) [
          | inl (id, o) ↦ rw (e, create_session) (rw (t, n, o, create_session) (fresh id e o))
          | inr (x, o) ↦ rw (e, create_session) (rw (t, n, o, create_session) (fails x))
        ]
      ]
    ]
  ]

  pub create-Routed :
      (key : SessionKey) (r : Replies) (slot : AgentSlot out)
      → Routed slot
      → ((id : Text) → r.new_session ≡ ok id → FreeFor key id slot)
      → Routed (create_session out key r slot).0
  create-Routed key r slot routed free =
      create_cases (λ c. Routed c.0) key r slot (λ id e. routed) (λ e. routed)
        λ id e o. elim (Option-cases slot.tool_context) [
          | inl n ↦ rw n (enter-Routed key id slot routed (free id o))
          | inr (ctx, n) ↦ rw n (enter-Routed key id slot routed (free id o))
        ]

  heal_by_create-Routed :
      (key : SessionKey) (r : Replies) (slot : AgentSlot out)
      → Routed slot
      → ((id : Text) → r.new_session ≡ ok id → FreeFor key id slot)
      → Routed (heal_by_create out key r slot).0
  unfolding heal_by_create
  heal_by_create-Routed key r slot routed free =
      create-Routed key r (record slot { stale_sessions = remove key slot.stale_sessions }) routed
        free

  -- The ids that the agent returns for new, resumed and loaded sessions are free for the key.
  abbrev pub RepliesFree : SessionKey → Replies → AgentSlot out → Type 0
  RepliesFree key r slot =
      ((id : Text) → r.new_session ≡ ok id → FreeFor key id slot)
      × ((id : Text) → r.resumed ≡ some id → FreeFor key id slot)
      × ((id : Text) → r.loaded ≡ some id → FreeFor key id slot)

  heal_by_resume-Routed :
      (key : SessionKey) (r : Replies) (slot : AgentSlot out)
      → Routed slot
      → RepliesFree key r slot
      → Routed (heal_by_resume out key r slot).0
  unfolding heal_by_resume
  heal_by_resume-Routed key r slot routed free = elim (Option-cases slot.connection) [
    | inl n ↦ rw (n, heal_by_resume) routed
    | inr (c, n) ↦ elim (Option-cases r.resumed) [
      | inl m ↦ rw (n, m, heal_by_resume) (heal_by_create-Routed key r slot routed free.0)
      | inr (id, m) ↦ rw (n, m, heal_by_resume) (enter-Routed key id slot routed (free.1 id m))
    ]
  ]

  heal_by_load-Routed :
      (key : SessionKey) (r : Replies) (slot : AgentSlot out)
      → Routed slot
      → RepliesFree key r slot
      → Routed (heal_by_load out key r slot).0
  unfolding heal_by_load
  heal_by_load-Routed key r slot routed free = elim (Option-cases slot.connection) [
    | inl n ↦ rw (n, heal_by_load) routed
    | inr (c, n) ↦ elim (Option-cases r.loaded) [
      | inl m ↦ rw (n, m, heal_by_load) (heal_by_create-Routed key r slot routed free.0)
      | inr (id, m) ↦ rw (n, m, heal_by_load) (enter-Routed key id slot routed (free.2 id m))
    ]
  ]

  pub heal-Routed :
      (key : SessionKey) (r : Replies) (slot : AgentSlot out)
      → Routed slot
      → RepliesFree key r slot
      → Routed (heal_session out key r slot).0
  unfolding heal_session
  heal-Routed key r slot routed free =
      let created = heal_by_create-Routed key r slot routed free.0 in
      let resumed = heal_by_resume-Routed key r slot routed free in
      let loaded = heal_by_load-Routed key r slot routed free in
      elim (Option-cases (get key slot.stale_sessions)) [
        | inl n ↦ rw (n, heal_session) created
        | inr (id, n) ↦ elim (Bool-cases (has_session_capability out (λ c. c.resume) slot)) [
          | inl t ↦ rw (n, t, heal_session) resumed
          | inr f ↦ elim (Bool-cases (has_session_capability out (λ c. c.load_session) slot)) [
            | inl t ↦ rw (n, f, t, heal_session) loaded
            | inr g ↦ rw (n, f, g, heal_session) created
          ]
        ]
      ]
