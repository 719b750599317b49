-- ===== src/Agents/Completion/Next.antt =====
-- The end of a prompt sends the messages that wait for its session.
use protoclaw.Base.{
  true, false, ◌≡◌, refl, ap, ◌∙◌, inl, inr, none, some, List, [], ◌∷◌, ◌++◌, map, if◌then◌else◌,
  nat_eq, list_eq, eq_self, is_empty, Bool-cases,
}
use protoclaw.Base.Map.{contains}
use protoclaw.Base.Text.{Text}
use protoclaw.SdkTypes.SessionKey.{SessionKey}
use protoclaw.SdkTypes.Message.{ContentPart, MessageMetadata}
use protoclaw.Agents.SessionQueue.{RichPayload}
use protoclaw.Agents.SessionQueue.Lines.{line, all_contents}
use protoclaw.Agents.SessionQueue.Dispatch.{
  complete, complete-line, complete_spec, absorb, absorb-all_contents,
}
use protoclaw.Agents.Slot.{ok, Outside, AgentSlot}
use protoclaw.Agents.Sessions.{expire_session}
use protoclaw.Agents.Prompt.Context.{platform_command}
use protoclaw.Agents.Prompt.{
  Answers, Sent, Queue, announce, reply_context, prompt_agent, prompt_session,
}
use protoclaw.Agents.Prompt.ToolContext.{Ready, told_prompt}
use protoclaw.Agents.Completion.{
  PromptCompletion, AgentsManager, find_session, cancel_session_by_key, report_completion,
  prompt_slot, dispatch_next, handle_prompt_completion,
}
use protoclaw.Agents.Completion.Expiry.{prompts, prompts-append, quiet, idle-quiet, report-quiet}

announce-quiet : (a : Answers) (key : SessionKey) → prompts (announce a key) ≡ []
announce-quiet a key = elim (Bool-cases a.sender) [ inl t ↦ rw t refl | inr f ↦ rw f refl ]

module _ (out : Outside) where
  abbrev Payload : Type 0
  Payload = RichPayload ContentPart MessageMetadata

  dispatch_next-told :
      (a : Answers) (key : SessionKey) (id : Text) (p : Payload) (slot : AgentSlot out)
      (others : List (AgentSlot out)) (queue : Queue)
      → is_empty slot.name ≡ false
      → Ready out key id slot
      → contains id slot.tool_context_sent ≡ true
      → a.prompt_sent ≡ ok tt
      → platform_command p.0 ≡ none
      → let (slots', queue', sent) = dispatch_next out a key (some p) (slot ∷ others) queue in
        (queue' ≡ queue) × (prompts sent ≡ (id, reply_context p.1 ++ p.0) ∷ [])
  unfolding dispatch_next find_session prompt_slot prompt_session
  dispatch_next-told a key id p slot others queue named ready told sent ordinary =
      rw (ready.0, dispatch_next)
        (rw named (
          rw (eq_self slot.name, prompt_slot)
            (rw (ordinary, prompt_session)
              (
                refl,
                prompts-append (announce a key) (prompt_agent out a key p slot).1
                    ∙ rw (announce-quiet a key)
                        (ap prompts (told_prompt out a key id p slot ready told sent)),
              ))))

  -- What is dispatched at the end of a prompt, and to which slots.
  abbrev next_dispatch :
      Answers → PromptCompletion → AgentsManager out → List (AgentSlot out) × Queue × List Sent
  next_dispatch a c m =
      let key = c.session_key in
      let kept = if c.session_expired then map (expire_session out key) m.slots else m.slots in
      dispatch_next out a key (complete key m.queue).1 kept (complete key m.queue).0

  handled-prompts :
      (a : Answers) (c : PromptCompletion) (m : AgentsManager out)
      → prompts (handle_prompt_completion out a c m).1 ≡ prompts (next_dispatch a c m).2
  unfolding handle_prompt_completion
  handled-prompts a c m =
      let kept =
        if c.session_expired then map (expire_session out c.session_key) m.slots else m.slots in
      quiet
        (if c.idle_timed_out
          then cancel_session_by_key out a.cancel_sent c.session_key m.slots
          else [])
        (report_completion out a.sender c m.streaming_completed kept) (next_dispatch a c m).2
        (idle-quiet out c.idle_timed_out a.cancel_sent c.session_key m.slots)
        (report-quiet out a.sender c m.streaming_completed kept)

  -- When a prompt of a session ends and messages wait for it, they go to the agent together, in
  -- one prompt that holds all their contents in order behind the reply context; nothing waits any
  -- more and the session stays busy. It is stated for a session that has not expired, open in the
  -- first slot, of a connected agent that has had the tool context and takes the prompt, and for
  -- contents that are no platform command.
  pub completion_sends_waiting :
      (a : Answers) (c : PromptCompletion) (m : AgentsManager out) (id : Text)
      (slot : AgentSlot out) (others : List (AgentSlot out)) (p : Payload) (ps : List Payload)
      → c.session_expired ≡ false
      → m.slots ≡ slot ∷ others
      → is_empty slot.name ≡ false
      → Ready out c.session_key id slot
      → contains id slot.tool_context_sent ≡ true
      → a.prompt_sent ≡ ok tt
      → line c.session_key m.queue ≡ record { busy = true; waiting = p ∷ ps }
      → platform_command (p.0 ++ all_contents ps) ≡ none
      → let (m', sent) = handle_prompt_completion out a c m in
        (line c.session_key m'.queue ≡ record { busy = true; waiting = [] })
        × (prompts sent
            ≡ (id, reply_context (absorb p.0 p.1 ps).1 ++ (p.0 ++ all_contents ps)) ∷ [])
  unfolding handle_prompt_completion
  completion_sends_waiting a c m id slot others p ps alive first named ready told sent waits
        ordinary =
      let key = c.session_key in
      let all = absorb p.0 p.1 ps in
      let merged = absorb-all_contents p.0 p.1 ps in
      let (next, left) = complete-line key key m.queue in
      let (same, prompted) =
        dispatch_next-told a key id all slot others (complete key m.queue).0 named ready told sent
          (ap platform_command merged ∙ ordinary) in
      let dispatched : next_dispatch a c m
          ≡ dispatch_next out a key (some all) (slot ∷ others) (complete key m.queue).0 =
        rw (alive, first, next ∙ ap (λ l. (complete_spec l).1) waits) refl in
      (
        ap (λ d. line key d.1) dispatched
            ∙ (ap (line key) same
                ∙ (left ∙ rw (eq_self key) (ap (λ l. (complete_spec l).0) waits))),
        handled-prompts a c m
            ∙ (ap (λ d. prompts d.2) dispatched
                ∙ (prompted ∙ ap (λ content. (id, reply_context all.1 ++ content) ∷ []) merged)),
      )
