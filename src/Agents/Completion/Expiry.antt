-- ===== src/Agents/Completion/Expiry.antt =====
-- What the end of a prompt means for the messages that wait for its session.
use mathlib.Core.List.{append_assoc}
use protoclaw.Base.{
  Bool, true, false, ◌≡◌, refl, sym, ap, ◌∙◌, inl, inr, none, List, [], ◌∷◌, ◌++◌, map, arith,
  if◌then◌else◌, nat_eq, list_eq, list_eqb_iff, eq_self, Option-cases, Bool-cases,
}
use protoclaw.Base.Map.{get, get-remove, contains}
use protoclaw.Base.Text.{Text}
use protoclaw.SdkTypes.SessionKey.{SessionKey}
use protoclaw.SdkTypes.Message.{ContentPart, MessageMetadata}
use protoclaw.Agents.SessionQueue.{RichPayload}
use protoclaw.Agents.SessionQueue.Lines.{line}
use protoclaw.Agents.SessionQueue.Dispatch.{complete-line, complete_spec}
use protoclaw.Agents.Slot.{Result, Outside, AgentSlot}
use protoclaw.Agents.Sessions.{expire_session}
use protoclaw.Agents.Sessions.Routing.{Result-cases}
use protoclaw.Agents.Prompt.{Answers, Sent, session_prompt}
use protoclaw.Agents.Completion.{
  PromptCompletion, AgentsManager, find_session, cancel_session_by_key, final_result,
  report_completion, dispatch_next, handle_prompt_completion,
}

-- The prompts among what is sent.
abbrev prompt_of : Sent → List (Text × List ContentPart)
prompt_of (session_prompt id parts) = (id, parts) ∷ []
prompt_of _ = []

abbrev pub prompts : List Sent → List (Text × List ContentPart)
prompts [] = []
prompts (x ∷ sent) = prompt_of x ++ prompts sent

pub prompts-append : (xs ys : List Sent) → prompts (xs ++ ys) ≡ prompts xs ++ prompts ys
prompts-append [] ys = refl
prompts-append (x ∷ xs) ys =
    rw (prompts-append xs ys) (sym (append_assoc (prompt_of x) (prompts xs) (prompts ys)))

pub quiet :
    (xs ys zs : List Sent)
    → prompts xs ≡ []
    → prompts ys ≡ []
    → prompts (xs ++ (ys ++ zs)) ≡ prompts zs
quiet xs ys zs h g =
    prompts-append xs (ys ++ zs)
    ∙ (ap (λ l. l ++ prompts (ys ++ zs)) h ∙ (prompts-append ys zs ∙ ap (λ l. l ++ prompts zs) g))

module _ (out : Outside) where
  expire_none :
      (key : SessionKey) (slot : AgentSlot out)
      → get key (expire_session out key slot).session_map ≡ none
  unfolding expire_session
  expire_none key slot = ground (arith, get-remove key key slot.session_map, list_eqb_iff key key)

  find_session-expired :
      (key : SessionKey) (slots : List (AgentSlot out))
      → find_session out key (map (expire_session out key) slots) ≡ none
  unfolding find_session
  find_session-expired key [] = refl
  find_session-expired key (slot ∷ slots) =
      rw (expire_none key slot, find_session) (find_session-expired key slots)

  cancel-quiet :
      (sent : Result (Unit {0})) (key : SessionKey) (slots : List (AgentSlot out))
      → prompts (cancel_session_by_key out sent key slots) ≡ []
  unfolding cancel_session_by_key
  cancel-quiet sent key slots = elim (Option-cases (find_session out key slots)) [
    | inl n ↦ rw (n, cancel_session_by_key) refl
    | inr ((slot, id), n) ↦ elim (Option-cases slot.connection) [
      | inl d ↦ rw (n, cancel_session_by_key) (rw d refl)
      | inr (c, d) ↦ elim (Result-cases sent) [
        | inl (u, s) ↦ rw (n, cancel_session_by_key) (rw (d, s) refl)
        | inr (e, s) ↦ rw (n, cancel_session_by_key) (rw (d, s) refl)
      ]
    ]
  ]

  pub report-quiet :
      (sender : Bool) (c : PromptCompletion) (streamed : List SessionKey)
      (slots : List (AgentSlot out))
      → prompts (report_completion out sender c streamed slots) ≡ []
  unfolding report_completion final_result
  report-quiet false c streamed slots = refl
  report-quiet true c streamed slots = elim (Bool-cases (contains c.session_key streamed)) [
    | inl t ↦ rw (t, report_completion) refl
    | inr f ↦ elim (Option-cases c.error_message) [
      | inl n ↦ rw (f, n, report_completion) refl
      | inr (e, n) ↦ rw (f, n, report_completion) refl
    ]
  ]

  pub idle-quiet :
      (idle : Bool) (sent : Result (Unit {0})) (key : SessionKey) (slots : List (AgentSlot out))
      → prompts (if idle then cancel_session_by_key out sent key slots else []) ≡ []
  idle-quiet true sent key slots = cancel-quiet sent key slots
  idle-quiet false sent key slots = refl

  -- What the end of a prompt loses when the agent no longer knows the session: the messages that
  -- wait for it are taken from the queue and no prompt is sent for them, while the session goes
  -- on counting as busy.
  pub expired_drops_waiting :
      (a : Answers) (c : PromptCompletion) (m : AgentsManager out)
      (p : RichPayload ContentPart MessageMetadata)
      (ps : List (RichPayload ContentPart MessageMetadata))
      → c.session_expired ≡ true
      → line c.session_key m.queue ≡ record { busy = true; waiting = p ∷ ps }
      → let (m', sent) = handle_prompt_completion out a c m in
        (line c.session_key m'.queue ≡ record { busy = true; waiting = [] }) × (prompts sent ≡ [])
  unfolding handle_prompt_completion dispatch_next
  expired_drops_waiting a c m p ps expired waits =
      let key = c.session_key in
      let (next, left) = complete-line key key m.queue in
      rw (expired, next ∙ ap (λ l. (complete_spec l).1) waits, handle_prompt_completion)
        (rw (find_session-expired key m.slots, dispatch_next)
          (
            left ∙ (rw (eq_self key) (ap (λ l. (complete_spec l).0) waits)),
            quiet
                (if c.idle_timed_out
                  then cancel_session_by_key out a.cancel_sent key m.slots
                  else [])
                (report_completion out a.sender (record c { session_expired = true })
                  m.streaming_completed (map (expire_session out key) m.slots))
                [] (idle-quiet c.idle_timed_out a.cancel_sent key m.slots)
                (report-quiet a.sender (record c { session_expired = true }) m.streaming_completed
                  _),
          ))
