-- ===== src/Agents/Recovery/Crash.antt =====
-- No session is lost when an agent crashes, and what becomes of its updates.
use protoclaw.Base.{
  Bool, true, false, ◌≡◌, refl, ◌∙◌, ap, ◌⊎◌, Option, none, some, List, [], ◌∷◌, arith, nat_eq,
  list_eq, list_eqb_iff,
}
use protoclaw.Base.Map.{Map, get, insert, Distinct, extend, or_else}
use protoclaw.Base.Text.{Text}
use protoclaw.SdkTypes.SessionKey.{SessionKey}
use protoclaw.Agents.Slot.{Outside, AgentSlot, Capabilities, has_session_capability}
use protoclaw.Agents.Sessions.{Replies}
use protoclaw.Agents.Incoming.{Update, forward_session_update}
use protoclaw.Agents.Recovery.{
  Request, session_resume, session_load, rename, drain_stale, restore_first, restore_one_of,
  try_restore_session, set_aside, restore_or_start_session,
}

module _ (out : Outside) where
  -- The ACP id by which a session can be continued, open or stale.
  abbrev pub known : SessionKey → AgentSlot out → Option Text
  known k slot = or_else (λ id. id) (get k slot.session_map) (get k slot.stale_sessions)

  abbrev pub WellKeyed : AgentSlot out → Type 0
  WellKeyed slot = Distinct slot.session_map × Distinct slot.stale_sessions

  -- The agent was asked for the one session, by resuming or by loading it, and gave back the id.
  abbrev pub Continued : Text → Text → Replies → List Request → Type 0
  Continued first returned r asked =
      ((asked ≡ session_resume first ∷ []) × (r.resumed ≡ some returned))
      ⊎ ((asked ≡ session_load first ∷ []) × (r.loaded ≡ some returned))

  -- What the attempt to restore makes of the stale sessions, one of which is `first`.
  abbrev pub Restored : Text → Replies → List Request → (before after : AgentSlot out) → Type 0
  Restored first r asked before after =
      (returned : Text) × Continued first returned r asked
      × ((k : SessionKey)
          → get k after.session_map
            ≡ or_else (rename first returned) (get k before.stale_sessions)
                (get k before.session_map))

  -- Either the attempt fails and changes nothing, or it restores all stale sessions.
  abbrev pub Attempt : Text → Replies → AgentSlot out → AgentSlot out × Bool × List Request → Type 0
  Attempt first r slot (slot', restored, asked) =
      ((slot' ≡ slot) × (restored ≡ false))
      ⊎ ((restored ≡ true) × Restored first r asked slot slot')

  forward_unknown :
      (u : Update out) (slot : AgentSlot out)
      → get u.session_id slot.reverse_map ≡ none
      → (forward_session_update out true u slot).delivered ≡ none
  unfolding forward_session_update
  forward_unknown u slot h = ground arith

  -- What an agent that answers session/resume with a new id loses: the session, which was asked
  -- for by its old id, is open under that
  -- id, but the slot does not find it by the id, and every update that carries it is dropped.
  pub renamed_session_unheard :
      (k : SessionKey) (first id : Text) (caps : Capabilities) (r : Replies) (slot : AgentSlot out)
      → slot.session_map ≡ (k, first) ∷ []
      → slot.stale_sessions ≡ []
      → slot.agent_capabilities ≡ some caps
      → caps.resume ≡ true
      → r.resumed ≡ some id
      → get id slot.reverse_map ≡ none
      → let (slot', asked) = restore_or_start_session out r slot in
        (asked ≡ session_resume first ∷ [])
        × (get k slot'.session_map ≡ some id)
        × ((u : Update out)
            → u.session_id ≡ id
            → (forward_session_update out true u slot').delivered ≡ none)
  unfolding restore_or_start_session try_restore_session set_aside restore_one_of restore_first
      drain_stale has_session_capability get insert extend
  renamed_session_unheard k first id caps r slot one none_stale has can returned unknown =
      rw (one, none_stale, has, can, returned)
        (
          refl,
          ground (arith, list_eqb_iff k k, list_eqb_iff first first),
          λ u own. forward_unknown u _ (ap (λ i. get i slot.reverse_map) own ∙ unknown),
        )
