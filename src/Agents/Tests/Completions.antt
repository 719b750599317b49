-- ===== src/Agents/Tests/Completions.antt =====
-- Instances of the theorems on the end of a prompt.
use protoclaw.Base.{◌≡◌, refl, true, false, none, [], ◌∷◌, ◌++◌, nat_eq, list_eq, list_eqb}
use protoclaw.Base.Map.{get, contains, insert, add}
use protoclaw.Base.Text.{bytes}
use protoclaw.SdkTypes.Message.{end_turn}
use protoclaw.Agents.SessionQueue.Lines.{line, all_contents}
use protoclaw.Agents.SessionQueue.Dispatch.{absorb}
use protoclaw.Agents.Slot.{AgentSlot}
use protoclaw.Agents.Prompt.Context.{platform_command, extract_command_text}
use protoclaw.Agents.Prompt.{
  reply_context, prompt_agent, send_prompt, pass_prompt, add_tool_context,
}
use protoclaw.Agents.Prompt.Sessions.{Heard, prompt_agent-Heard}
use protoclaw.Agents.Recovery.{notify_crash_to_channels}
use protoclaw.Agents.Completion.{PromptCompletion, AgentsManager, handle_prompt_completion}
use protoclaw.Agents.Completion.Expiry.{prompts, expired_drops_waiting}
use protoclaw.Agents.Completion.Next.{completion_sends_waiting}
use protoclaw.Agents.Completion.Untold.{completed_session_untold}
use protoclaw.Agents.Tests.Slots.{world, alice, alice_slot, alice-Routed}
use protoclaw.Agents.Tests.Prompts.{able, hello, again, willing-Free}

-- The slot of Alice's session with its first prompt in flight.
abbrev told_slot : AgentSlot world
told_slot = (prompt_agent world able alice hello alice_slot).0

told-Heard : Heard world alice told_slot
unfolding get contains list_eqb insert prompt_agent send_prompt pass_prompt add_tool_context
told-Heard = prompt_agent-Heard world able alice hello alice_slot alice-Routed willing-Free refl

abbrev ended : PromptCompletion
ended = record {
  session_key = alice;
  session_expired = false;
  idle_timed_out = false;
  error_message = none;
  stop_reason = end_turn;
}

abbrev expired : PromptCompletion
expired = record ended { session_expired = true }

abbrev manager_with_two : AgentsManager world
manager_with_two = record {
  slots = told_slot ∷ [];
  queue = record { queues = (alice, hello ∷ again ∷ []) ∷ []; active = alice ∷ [] };
  streaming_completed = [];
}

abbrev manager_with_none : AgentsManager world
manager_with_none = record manager_with_two { queue = record { queues = []; active = alice ∷ [] } }

expired_drops_waiting_example :
    let (m', sent) = handle_prompt_completion world able expired manager_with_two in
    (line alice m'.queue ≡ record { busy = true; waiting = [] }) × (prompts sent ≡ [])
unfolding get contains list_eqb
expired_drops_waiting_example =
    expired_drops_waiting world able expired manager_with_two hello (again ∷ []) refl refl

completion_sends_waiting_example :
    let (m', sent) = handle_prompt_completion world able ended manager_with_two in
    (line alice m'.queue ≡ record { busy = true; waiting = [] })
    × (prompts sent ≡ (bytes "s1", hello.0 ++ again.0) ∷ [])
unfolding get contains list_eqb insert all_contents absorb reply_context platform_command
    extract_command_text prompt_agent send_prompt pass_prompt add_tool_context add
completion_sends_waiting_example =
    completion_sends_waiting world able ended manager_with_two (bytes "s1") told_slot [] hello
      (again ∷ []) refl refl refl (refl, (tt, refl)) refl refl refl refl

completed_session_untold_example :
    let m' = (handle_prompt_completion world able ended manager_with_none).0 in
    ((line alice m'.queue).busy ≡ false)
    × (m'.slots ≡ told_slot ∷ [])
    × (contains alice (notify_crash_to_channels world true told_slot).1 ≡ false)
unfolding get contains list_eqb
completed_session_untold_example =
    completed_session_untold world able ended manager_with_none told_slot refl told-Heard refl refl
