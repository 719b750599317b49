-- ===== src/Agents/Prompt/Sessions.antt =====
-- Prompts reach an open session whose updates are heard, with the tool context once.
use protoclaw.Base.{
  true, false, ◌≡◌, ap, ◌∙◌, inl, inr, some, List, arith, nat_eq, list_eq, list_eqb_iff,
  Option-cases,
}
use protoclaw.Base.Map.{get, contains, discard, contains-add, contains-discard}
use protoclaw.Base.Text.{Text}
use protoclaw.SdkTypes.SessionKey.{SessionKey}
use protoclaw.SdkTypes.Message.{ContentPart, MessageMetadata}
use protoclaw.Agents.SessionQueue.{RichPayload}
use protoclaw.Agents.Slot.{Result, ok, Outside, AgentSlot}
use protoclaw.Agents.Sessions.{heal_session}
use protoclaw.Agents.Sessions.Routing.{Routed, RepliesFree, heal-Routed, Result-cases}
use protoclaw.Agents.Incoming.{Update, forward_session_update}
use protoclaw.Agents.Prompt.{
  Answers, Sent, add_tool_context, pass_prompt, send_prompt, prompt_open, prompt_agent,
}

module _ (out : Outside) where
  abbrev Payload : Type 0
  Payload = RichPayload ContentPart MessageMetadata

  -- The session is open under an ACP id whose prompt is in flight, and the updates of that id
  -- reach the session.
  abbrev pub Heard : SessionKey → AgentSlot out → Type 0
  Heard key slot =
      (id : Text) × (get key slot.session_map ≡ some id)
      × (contains id slot.active_prompts ≡ true)
      × ((u : Update out)
          → u.session_id ≡ id
          → (forward_session_update out true u slot).delivered ≡ some (key, u.content))

  -- A prompt that could be sent.
  abbrev Accepted : SessionKey → AgentSlot out × List Sent × Result (Unit {0}) → Type 0
  Accepted key r = r.2 ≡ ok tt → Heard key r.0

  forward-heard :
      (key : SessionKey) (id : Text) (slot : AgentSlot out) (u : Update out)
      → get u.session_id slot.reverse_map ≡ some key
      → contains u.session_id slot.awaiting_first_prompt ≡ false
      → (forward_session_update out true u slot).delivered ≡ some (key, u.content)
  unfolding forward_session_update
  forward-heard key id slot u known awaited = ground arith

  unawaited :
      (id : Text) (slot : AgentSlot out)
      → contains id (discard id slot.awaiting_first_prompt) ≡ false
  unawaited id slot =
      ground (arith, contains-discard id id slot.awaiting_first_prompt, list_eqb_iff id id)

  -- The tool context leaves the sessions of the slot as they are.
  add_tool_context-sessions :
      (id : Text) (slot : AgentSlot out)
      → let slot' = (add_tool_context out id slot).0 in
        (slot'.session_map ≡ slot.session_map)
        × (slot'.reverse_map ≡ slot.reverse_map)
        × (slot'.awaiting_first_prompt ≡ slot.awaiting_first_prompt)
  unfolding add_tool_context
  add_tool_context-sessions id slot = (ground arith, ground arith, ground arith)

  pass_prompt-Heard :
      (a : Answers) (key : SessionKey) (id : Text) (parts : List ContentPart) (slot : AgentSlot out)
      → get key slot.session_map ≡ some id
      → get id slot.reverse_map ≡ some key
      → contains id slot.awaiting_first_prompt ≡ false
      → Accepted key (pass_prompt out a id parts slot)
  unfolding pass_prompt
  pass_prompt-Heard a key id parts slot «open» known heard = elim (Option-cases slot.connection) [
    | inl n ↦ rw (n, pass_prompt) λ done. cc
    | inr (c, n) ↦ elim (Result-cases a.prompt_sent) [
      | inr (e, o) ↦ rw (n, o, pass_prompt) λ done. cc
      | inl (u, o) ↦
          rw (n, o, pass_prompt)
            λ done. (
              id,
              «open»,
              ground (arith, contains-add id id slot.active_prompts, list_eqb_iff id id),
              λ u own. forward-heard key id _ u (rw own known) (rw own heard),
            )
    ]
  ]

  send_prompt-Heard :
      (a : Answers) (key : SessionKey) (id : Text) (p : Payload) (slot : AgentSlot out)
      → Routed out slot
      → get key slot.session_map ≡ some id
      → Accepted key (send_prompt out a id p slot)
  unfolding send_prompt
  send_prompt-Heard a key id p slot routed «open» =
      let heard : AgentSlot out = record slot {
        awaiting_first_prompt = discard id slot.awaiting_first_prompt;
      } in
      let (sessions, reverse, awaited) = add_tool_context-sessions id heard in
      pass_prompt-Heard a key id _ (add_tool_context out id heard).0
        (ap (get key) sessions ∙ «open») (ap (get id) reverse ∙ routed key id «open»)
        (ap (contains id) awaited ∙ unawaited id slot)

  prompt_open-Heard :
      (a : Answers) (key : SessionKey) (p : Payload) (slot : AgentSlot out)
      → Routed out slot
      → Accepted key (prompt_open out a key p slot)
  unfolding prompt_open
  prompt_open-Heard a key p slot routed = elim (Option-cases (get key slot.session_map)) [
    | inl n ↦ rw (n, prompt_open) λ done. cc
    | inr (id, n) ↦ rw (n, prompt_open) (send_prompt-Heard a key id p slot routed n)
  ]

  -- Whenever a prompt could be sent, its session is open under an ACP id, with the prompt in
  -- flight, and every update that carries this id is delivered to the session, also where the
  -- session had to be resumed, loaded or created for it. It needs a slot whose sessions are found
  -- by their ids, and an agent that does not hand out an id known under another key.
  pub prompt_agent-Heard :
      (a : Answers) (key : SessionKey) (p : Payload) (slot : AgentSlot out)
      → Routed out slot
      → RepliesFree out key a.replies slot
      → (prompt_agent out a key p slot).2 ≡ ok tt
      → Heard key (prompt_agent out a key p slot).0
  unfolding prompt_agent
  prompt_agent-Heard a key p slot routed free = elim (Option-cases (get key slot.session_map)) [
    | inr (id, n) ↦ rw (n, prompt_agent) (send_prompt-Heard a key id p slot routed n)
    | inl n ↦ elim (Result-cases (heal_session out key a.replies slot).1) [
      | inr (e, o) ↦ rw (n, o, prompt_agent) λ done. cc
      | inl (u, o) ↦
          rw (n, o, prompt_agent)
            (prompt_open-Heard a key p (heal_session out key a.replies slot).0
              (heal-Routed out key a.replies slot routed free))
    ]
  ]
