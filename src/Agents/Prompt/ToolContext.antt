-- ===== src/Agents/Prompt/ToolContext.antt =====
-- The tool context goes out with the first prompt of an ACP session, and never again.
use protoclaw.Base.{
  true, false, ◌≡◌, refl, some, List, [], ◌∷◌, ◌++◌, arith, nat_eq, list_eq, list_eqb_iff,
}
use protoclaw.Base.Map.{get, contains, contains-add}
use protoclaw.Base.Text.{Text}
use protoclaw.SdkTypes.SessionKey.{SessionKey}
use protoclaw.SdkTypes.Message.{ContentPart, text, MessageMetadata}
use protoclaw.Agents.SessionQueue.{RichPayload}
use protoclaw.Agents.Slot.{AgentsError, Result, ok, err, Outside, AgentSlot}
use protoclaw.Agents.Prompt.{
  Answers, Sent, session_prompt, add_tool_context, reply_context, pass_prompt, send_prompt,
  prompt_agent,
}

module _ (out : Outside) where
  abbrev Payload : Type 0
  Payload = RichPayload ContentPart MessageMetadata

  -- An open session of a connected agent.
  abbrev pub Ready : SessionKey → Text → AgentSlot out → Type 0
  Ready key id slot =
      (get key slot.session_map ≡ some id) × ((c : out.Connection) × (slot.connection ≡ some c))

  pub told_prompt :
      (a : Answers) (key : SessionKey) (id : Text) (p : Payload) (slot : AgentSlot out)
      → Ready key id slot
      → contains id slot.tool_context_sent ≡ true
      → a.prompt_sent ≡ ok tt
      → (prompt_agent out a key p slot).1 ≡ session_prompt id (reply_context p.1 ++ p.0) ∷ []
  unfolding prompt_agent send_prompt pass_prompt add_tool_context
  told_prompt a key id p slot ready told sent =
      rw (ready.0, prompt_agent) (rw (told, ready.1.1, sent, prompt_agent) refl)

  pub told_prompt_ok :
      (a : Answers) (key : SessionKey) (id : Text) (p : Payload) (slot : AgentSlot out)
      → Ready key id slot
      → contains id slot.tool_context_sent ≡ true
      → a.prompt_sent ≡ ok tt
      → (prompt_agent out a key p slot).2 ≡ ok tt
  unfolding prompt_agent send_prompt pass_prompt add_tool_context
  told_prompt_ok a key id p slot ready told sent =
      rw (ready.0, prompt_agent) (rw (told, ready.1.1, sent, prompt_agent) refl)

  -- What a prompt does to a session that has not had the tool context.
  abbrev Told :
      SessionKey
      → Text
      → Text
      → Payload
      → Result (Unit {0})
      → AgentSlot out × List Sent × Result (Unit {0})
      → Type 0
  Told key id ctx p answer r =
      Ready key id r.0
      × (contains id r.0.tool_context_sent ≡ true)
      × (r.1 ≡ elim answer [
        | ok u ↦ session_prompt id (text ctx ∷ reply_context p.1 ++ p.0) ∷ []
        | err e ↦ []
      ])

  untold_prompt :
      (a : Answers) (key : SessionKey) (id ctx : Text) (p : Payload) (slot : AgentSlot out)
      (answer : Result (Unit {0}))
      → Ready key id slot
      → contains id slot.tool_context_sent ≡ false
      → slot.tool_context ≡ some ctx
      → a.prompt_sent ≡ answer
      → Told key id ctx p answer (prompt_agent out a key p slot)
  unfolding prompt_agent send_prompt pass_prompt add_tool_context
  untold_prompt a key id ctx p slot (ok u) ready untold context sent =
      rw (ready.0, prompt_agent)
        (rw (untold, context, ready.1.1, sent, prompt_agent)
          (
            ready,
            ground (arith, contains-add id id slot.tool_context_sent, list_eqb_iff id id),
            refl,
          ))
  untold_prompt a key id ctx p slot (err e) ready untold context sent =
      rw (ready.0, prompt_agent)
        (rw (untold, context, ready.1.1, sent, prompt_agent)
          (
            ready,
            ground (arith, contains-add id id slot.tool_context_sent, list_eqb_iff id id),
            refl,
          ))

  -- Two prompts of an open session that has not had the tool context yet: the first one that
  -- could be sent carries it before all else, and the second one does not.
  pub tool_context_once :
      (a b : Answers) (key : SessionKey) (id ctx : Text) (p p' : Payload) (slot : AgentSlot out)
      → Ready key id slot
      → contains id slot.tool_context_sent ≡ false
      → slot.tool_context ≡ some ctx
      → a.prompt_sent ≡ ok tt
      → b.prompt_sent ≡ ok tt
      → let first = prompt_agent out a key p slot in
        let second = prompt_agent out b key p' first.0 in
        (first.1 ≡ session_prompt id (text ctx ∷ reply_context p.1 ++ p.0) ∷ [])
        × (second.1 ≡ session_prompt id (reply_context p'.1 ++ p'.0) ∷ [])
  tool_context_once a b key id ctx p p' slot ready untold context sent sent' =
      let first = untold_prompt a key id ctx p slot (ok tt) ready untold context sent in
      (first.2, told_prompt b key id p' _ first.0 first.1 sent')

  -- A prompt that could not be sent uses the tool context up: it reached no one, and the next
  -- prompt of the session goes out without it.
  pub unsent_prompt_loses_context :
      (a b : Answers) (key : SessionKey) (id ctx : Text) (p p' : Payload) (slot : AgentSlot out)
      (e : AgentsError)
      → Ready key id slot
      → contains id slot.tool_context_sent ≡ false
      → slot.tool_context ≡ some ctx
      → a.prompt_sent ≡ err e
      → b.prompt_sent ≡ ok tt
      → let first = prompt_agent out a key p slot in
        let second = prompt_agent out b key p' first.0 in
        (first.1 ≡ []) × (second.1 ≡ session_prompt id (reply_context p'.1 ++ p'.0) ∷ [])
  unsent_prompt_loses_context a b key id ctx p p' slot e ready untold context sent sent' =
      let first = untold_prompt a key id ctx p slot (err e) ready untold context sent in
      (first.2, told_prompt b key id p' _ first.0 first.1 sent')
