-- ===== src/Agents/Sessions/Steps.antt =====
-- Every session operation of a slot keeps its maps inverse, and what /new does to the updates of
-- the conversation before it.
use protoclaw.Base.{
  true, false, not, ◌≡◌, ◌≢◌, some, arith, inl, inr, ◌=?◌, nat_eq, list_eq, list_eqb_iff,
  Option-cases, Bool-cases,
}
use protoclaw.Base.Map.{get, contains, get-insert, get-remove}
use protoclaw.Base.Text.{Text, bytes}
use protoclaw.SdkTypes.SessionKey.{SessionKey, channel_name}
use protoclaw.SdkTypes.SessionKey
use protoclaw.Agents.Slot.{ok, Outside, AgentSlot, has_session_capability}
use protoclaw.Agents.Incoming.{Update, forward_session_update}
use protoclaw.Agents.Sessions.{
  Replies, enter, create_session, heal_session, fork_session, new_conversation, forget_session,
  expire_session,
}
use protoclaw.Agents.Sessions.Routing.{
  Routed, FreeFor, RepliesFree, enter-Routed, create-Routed, heal-Routed, create_cases,
  Result-cases,
}
use protoclaw.Agents.Sessions.Removal.{get-retain_passes, forget-Routed, expire-Routed}

module _ (out : Outside) where
  abbrev fork_key : SessionKey → Text → SessionKey
  fork_key key id = SessionKey.new (channel_name key) (bytes "fork") id

  fork-Routed :
      (key : SessionKey) (r : Replies) (slot : AgentSlot out)
      → Routed out slot
      → ((id : Text) → r.forked ≡ ok id → FreeFor out (fork_key key id) id slot)
      → Routed out (fork_session out key r slot).0
  unfolding fork_session
  fork-Routed key r slot routed free =
      elim (Bool-cases (has_session_capability out (λ c. c.fork) slot)) [
        | inr f ↦ rw (f, fork_session) routed
        | inl t ↦ elim (Option-cases (get key slot.session_map)) [
          | inl n ↦ rw (t, n, fork_session) routed
          | inr (acp_id, n) ↦ elim (Option-cases slot.connection) [
            | inl m ↦ rw (t, n, m, fork_session) routed
            | inr (c, m) ↦ elim (Result-cases r.forked) [
              | inr (e, o) ↦ rw (t, n, m, o, fork_session) routed
              | inl (id, o) ↦
                  rw (t, n, m, o, fork_session)
                    (enter-Routed out (fork_key key id) id slot routed (free id o))
            ]
          ]
        ]
      ]

  pub data Operation : Type 0 where
    creates heals forks renews expires : SessionKey → Operation

  -- The slot after an operation, whose requests are answered as given.
  unfoldable pub operate : Operation → Replies → AgentSlot out → AgentSlot out
  operate (creates key) r slot = (create_session out key r slot).0
  operate (heals key) r slot = (heal_session out key r slot).0
  operate (forks key) r slot = (fork_session out key r slot).0
  operate (renews key) r slot = (new_conversation out key r slot).0
  operate (expires key) r slot = expire_session out key slot

  -- The agent hands out no id under which the slot knows another key.
  abbrev pub Fresh : Operation → Replies → AgentSlot out → Type 0
  Fresh (creates key) r slot = (id : Text) → r.new_session ≡ ok id → FreeFor out key id slot
  Fresh (heals key) r slot = RepliesFree out key r slot
  Fresh (forks key) r slot = (id : Text) → r.forked ≡ ok id → FreeFor out (fork_key key id) id slot
  Fresh (renews key) r slot =
      (id : Text) → r.new_session ≡ ok id → FreeFor out key id (forget_session out key slot)
  Fresh (expires key) r slot = Unit {0}

  -- Creating, healing, forking, renewing and expiring sessions keeps the maps of a slot inverse:
  -- each session of the slot is found again by its ACP id, so that its updates reach its channel.
  -- It needs an agent that does not hand out an id under which the slot knows another key. What a
  -- crash does to the sessions is none of these operations.
  pub operate-Routed :
      (o : Operation) (r : Replies) (slot : AgentSlot out)
      → Routed out slot
      → Fresh o r slot
      → Routed out (operate o r slot)
  unfolding operate new_conversation
  operate-Routed (creates key) r slot routed fresh = create-Routed out key r slot routed fresh
  operate-Routed (heals key) r slot routed fresh = heal-Routed out key r slot routed fresh
  operate-Routed (forks key) r slot routed fresh = fork-Routed key r slot routed fresh
  operate-Routed (renews key) r slot routed fresh =
      create-Routed out key r (forget_session out key slot) (forget-Routed out key slot routed)
        fresh
  operate-Routed (expires key) r slot routed fresh = expire-Routed out key slot routed

  abbrev Answers : Text → SessionKey → AgentSlot out → Type 0
  Answers id key slot =
      (get key slot.session_map ≡ some id)
      × (get id slot.reverse_map ≡ some key)
      × ((other : Text) → other ≢ id → get other slot.reverse_map ≢ some key)

  enter-Answers :
      (id : Text) (key : SessionKey) (slot : AgentSlot out)
      → ((other : Text) → get other slot.reverse_map ≢ some key)
      → Answers id key (enter out key id slot)
  enter-Answers id key slot none_else = (
    ground (arith, get-insert key key id slot.session_map, list_eqb_iff key key),
    ground (arith, get-insert id id key slot.reverse_map, list_eqb_iff id id),
    λ other differs.
        ground
          (arith, get-insert id other key slot.reverse_map, list_eqb_iff id other, none_else other),
  )

  forget_none :
      (key : SessionKey) (slot : AgentSlot out) (other : Text)
      → get other (forget_session out key slot).reverse_map ≢ some key
  unfolding forget_session
  forget_none key slot other h = ground (
    arith,
    list_eqb_iff key key,
    get-retain_passes (λ entry. not (entry.1 =? key)) other key slot.reverse_map h,
  )

  new_conversation-Answers :
      (key : SessionKey) (r : Replies) (slot : AgentSlot out) (id : Text)
      → (new_conversation out key r slot).1 ≡ ok id
      → Answers id key (new_conversation out key r slot).0
  unfolding new_conversation
  new_conversation-Answers key r slot id =
      create_cases out (λ c. c.1 ≡ ok id → Answers id key c.0) key r forgotten
        (λ old e h. absurd (
          unfold forget_session in
          ground (arith, get-remove key key slot.session_map, list_eqb_iff key key)))
        (λ e h. cc)
        λ id' e o h. rw (ok_injective id' id h) (elim (Option-cases slot.tool_context) [
          | inl n ↦
              unfold forget_session in rw n (enter-Answers id key forgotten (forget_none key slot))
          | inr (ctx, n) ↦
              unfold forget_session in rw n (enter-Answers id key forgotten (forget_none key slot))
        ])
    where
      forgotten : AgentSlot out
      forgotten = forget_session out key slot

      ok_injective : (a b : Text) → ok a ≡ ok b → a ≡ b
      ok_injective a b h = cc

  forward-Answers :
      (key : SessionKey) (slot : AgentSlot out) (id : Text) (u : Update out)
      → Answers id key slot
      → (u.session_id ≢ id
          → (forward_session_update out true u slot).delivered ≢ some (key, u.content))
        × (u.session_id ≡ id
            → contains id slot.awaiting_first_prompt ≡ false
            → (forward_session_update out true u slot).delivered ≡ some (key, u.content))
  unfolding forward_session_update
  forward-Answers key slot id u a =
      (λ differs. ground (arith, a.2 u.session_id), λ own heard. ground arith)

  -- After /new has made the session `id`, the slot answers for the conversation with `id` alone:
  -- an update of any other ACP session is not delivered to it, and an update of the new session
  -- is, if a channels manager is connected and the id is not held back as a replay.
  pub forward-new_conversation :
      (key : SessionKey) (r : Replies) (slot : AgentSlot out) (id : Text) (u : Update out)
      → let (slot', result, stored) = new_conversation out key r slot in
        result ≡ ok id
        → (u.session_id ≢ id
            → (forward_session_update out true u slot').delivered ≢ some (key, u.content))
          × (u.session_id ≡ id
              → contains id slot'.awaiting_first_prompt ≡ false
              → (forward_session_update out true u slot').delivered ≡ some (key, u.content))
  forward-new_conversation key r slot id u made =
      forward-Answers key (new_conversation out key r slot).0 id u
        (new_conversation-Answers key r slot id made)
