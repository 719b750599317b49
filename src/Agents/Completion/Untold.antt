-- ===== src/Agents/Completion/Untold.antt =====
-- Whom a crash is reported to, after a prompt has ended.
use protoclaw.Base.{
  true, false, ◌≡◌, refl, ap, ◌∙◌, List, [], ◌∷◌, arith, nat_eq, list_eq, list_eqb_iff, eq_self,
}
use protoclaw.Base.Map.{contains}
use protoclaw.SdkTypes.SessionKey.{SessionKey}
use protoclaw.Agents.SessionQueue.Lines.{line}
use protoclaw.Agents.SessionQueue.Dispatch.{complete, complete-line, complete_spec}
use protoclaw.Agents.Slot.{Outside, AgentSlot}
use protoclaw.Agents.Prompt.{Answers}
use protoclaw.Agents.Prompt.Sessions.{Heard}
use protoclaw.Agents.Recovery.{notices, has_active_prompt, notify_crash_to_channels, keys}
use protoclaw.Agents.Completion.{
  PromptCompletion, AgentsManager, dispatch_next, handle_prompt_completion,
}

module _ (out : Outside) where
  notices-active :
      (key : SessionKey) (slot : AgentSlot out) (ks : List SessionKey)
      → has_active_prompt out key slot ≡ true
      → contains key (notices out ks slot) ≡ false
  unfolding notices contains
  notices-active key slot [] active = refl
  notices-active key slot (k ∷ ks) active = ground (
    arith,
    list_eqb_iff k key,
    notices-active key slot ks active,
    λ (e : k ≡ key). ap (λ j. has_active_prompt out j slot) e ∙ active,
  )

  -- What a crash does not report: a session whose prompt went out and has ended, with nothing
  -- waiting, is not told when its agent crashes, although no task is left that would tell it.
  pub completed_session_untold :
      (a : Answers) (c : PromptCompletion) (m : AgentsManager out) (slot : AgentSlot out)
      → m.slots ≡ slot ∷ []
      → Heard out c.session_key slot
      → c.session_expired ≡ false
      → line c.session_key m.queue ≡ record { busy = true; waiting = [] }
      → let m' = (handle_prompt_completion out a c m).0 in
        ((line c.session_key m'.queue).busy ≡ false)
        × (m'.slots ≡ slot ∷ [])
        × (contains c.session_key (notify_crash_to_channels out true slot).1 ≡ false)
  unfolding handle_prompt_completion dispatch_next notify_crash_to_channels
  completed_session_untold a c m slot only heard alive waits =
      let key = c.session_key in
      let (next, left) = complete-line key key m.queue in
      let idle : line key (complete key m.queue).0 ≡ record { busy = false; waiting = [] } =
        left ∙ rw (eq_self key) (ap (λ l. (complete_spec l).0) waits) in
      rw (alive, only, next ∙ ap (λ l. (complete_spec l).1) waits, handle_prompt_completion)
        (
          ap (λ l. l.busy) idle,
          refl,
          notices-active key slot (keys slot.session_map) (rw (heard.1, has_active_prompt) heard.2),
        )
