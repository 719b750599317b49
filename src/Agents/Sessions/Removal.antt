-- ===== src/Agents/Sessions/Removal.antt =====
-- Forgetting and expiring a session keep the maps of a slot inverse.
use protoclaw.Base.{
  Bool, true, not, ◌≡◌, some, [], ◌∷◌, arith, inl, inr, ◌=?◌, nat_eq, list_eq, list_eqb_iff, retain,
  Option-cases,
}
use protoclaw.Base.Map.{Map, get, get-remove}
use protoclaw.Base.Text.{Text}
use protoclaw.SdkTypes.SessionKey.{SessionKey}
use protoclaw.Agents.Slot.{Outside, AgentSlot}
use protoclaw.Agents.Sessions.{forget_session, expire_session}
use protoclaw.Agents.Sessions.Routing.{Routed}

-- An entry that passes the test is still found, and whatever is found passes it.
get-retain_kept :
    (p : Text × SessionKey → Bool) (id : Text) (key : SessionKey) (m : Map Text SessionKey)
    → get id m ≡ some key
    → p (id, key) ≡ true
    → get id (retain p m) ≡ some key
unfolding get
get-retain_kept p id key [] h t = h
get-retain_kept p id key ((j, k) ∷ m) h t =
    ground (arith, list_eqb_iff j id, get-retain_kept p id key m)

pub get-retain_passes :
    (p : Text × SessionKey → Bool) (id : Text) (key : SessionKey) (m : Map Text SessionKey)
    → get id (retain p m) ≡ some key
    → p (id, key) ≡ true
unfolding get
get-retain_passes p id key [] h = cc
get-retain_passes p id key ((j, k) ∷ m) h =
    ground (arith, list_eqb_iff j id, get-retain_passes p id key m)

module _ (out : Outside) where
  pub forget-Routed :
      (key : SessionKey) (slot : AgentSlot out)
      → Routed out slot
      → Routed out (forget_session out key slot)
  unfolding forget_session
  forget-Routed key slot routed k id h = ground (
    arith,
    get-remove key k slot.session_map,
    list_eqb_iff key k,
    list_eqb_iff k key,
    routed k id,
    get-retain_kept (λ entry. not (entry.1 =? key)) id k slot.reverse_map,
  )

  pub expire-Routed :
      (key : SessionKey) (slot : AgentSlot out)
      → Routed out slot
      → Routed out (expire_session out key slot)
  unfolding expire_session
  expire-Routed key slot routed = elim (Option-cases (get key slot.session_map)) [
    | inl n ↦ rw (n, expire_session) routed
    | inr (acp_id, n) ↦
        rw (n, expire_session)
          λ k id h. ground (
            arith,
            get-remove key k slot.session_map,
            get-remove acp_id id slot.reverse_map,
            list_eqb_iff key k,
            list_eqb_iff acp_id id,
            routed k id,
            routed key acp_id,
          )
  ]
