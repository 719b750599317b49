-- ===== src/Agents/Tests/Prompts.antt =====
-- Tests of the platform commands and the reply context, and instances of the theorems on prompts.
use protoclaw.Base.{
  ◌≡◌, refl, inl, true, false, none, some, [], ◌∷◌, ◌++◌, nat_eq, list_eq, list_eqb,
}
use protoclaw.Base.Map.{get, contains, insert}
use protoclaw.Base.Text.{Text, bytes}
use protoclaw.SdkTypes.Message.{ContentPart, text, MessageMetadata}
use protoclaw.Agents.SessionQueue.{RichPayload, is_active}
use protoclaw.Agents.Slot.{connection_closed, ok, err}
use protoclaw.Agents.Sessions.{cancel_session}
use protoclaw.Agents.Sessions.Routing.{RepliesFree}
use protoclaw.Agents.Prompt.Context.{
  new_command, match_platform_command, before_mention, find_command, strip_slash, platform_command,
  extract_command_text, build_reply_context, trim_start, trim_end, thread_part, reply_part, id_part,
  quoted_part,
}
use protoclaw.Agents.Prompt.{
  Answers, Desk, session_prompt, session_cancel, send_synthetic_chunk, announce, reply_context,
  prompt_agent, pass_prompt, send_prompt, add_tool_context, enqueue_message,
}
use protoclaw.Agents.Prompt.Sessions.{Heard, prompt_agent-Heard}
use protoclaw.Agents.Prompt.ToolContext.{Ready, tool_context_once}
use protoclaw.Agents.Prompt.Waiting.{
  Waits, waiting, enqueue_messages, enqueue_message-waiting, failed_dispatch_blocks,
  cancel_drops_waiting,
}
use protoclaw.Agents.Tests.Slots.{world, alice, alice_slot, willing, alice-Routed}

command_test : match_platform_command (bytes "/new@MyBot") ≡ some new_command
unfolding match_platform_command before_mention find_command strip_slash list_eqb
command_test = refl

no_command_test : match_platform_command (bytes "/unknown") ≡ none
unfolding match_platform_command before_mention find_command strip_slash list_eqb
no_command_test = refl

quote_test :
    build_reply_context (record {
      reply_to_message_id = some (bytes "42");
      reply_to_text = some (bytes "hi");
      reply_to_sender = some (bytes "Bob");
      reply_to_sender_id = none;
      reply_to_is_quote = some true;
      reply_to_media_type = none;
      thread_id = none;
    })
    ≡ some (bytes "[Quoting Bob id:42]\n\"hi\"\n[/Quoting]")
unfolding build_reply_context trim_start trim_end thread_part reply_part id_part quoted_part
quote_test = refl

abbrev pub able : Answers
able = record { replies = willing; cancel_sent = ok tt; prompt_sent = ok tt; sender = true }

abbrev unable : Answers
unable = record able { prompt_sent = err connection_closed }

abbrev pub hello : RichPayload ContentPart MessageMetadata
hello = (text (bytes "hello") ∷ [], none)

abbrev pub again : RichPayload ContentPart MessageMetadata
again = (text (bytes "again") ∷ [], none)

-- The ids that the agent can give are not known to the slot.
pub willing-Free : RepliesFree world alice willing alice_slot
unfolding get insert list_eqb
willing-Free =
    (λ id e. rw⁻¹ (new_id id e) (inl refl), λ id e. rw⁻¹ (resumed_id id e) (inl refl), λ id e. cc)
  where
    new_id : (id : Text) → willing.new_session ≡ ok id → bytes "s2" ≡ id
    new_id id e = cc

    resumed_id : (id : Text) → willing.resumed ≡ some id → bytes "s3" ≡ id
    resumed_id id e = cc

prompt_agent-Heard_example : Heard world alice (prompt_agent world able alice hello alice_slot).0
unfolding prompt_agent send_prompt pass_prompt add_tool_context get insert list_eqb contains
prompt_agent-Heard_example =
    prompt_agent-Heard world able alice hello alice_slot alice-Routed willing-Free refl

tool_context_once_example :
    let first = prompt_agent world able alice hello alice_slot in
    let second = prompt_agent world able alice again first.0 in
    (first.1 ≡ session_prompt (bytes "s1") (text (bytes "tools") ∷ [] ++ hello.0) ∷ [])
    × (second.1 ≡ session_prompt (bytes "s1") again.0 ∷ [])
unfolding get insert list_eqb contains reply_context
tool_context_once_example =
    tool_context_once world able able alice (bytes "s1") (bytes "tools") hello again alice_slot
      (refl, (tt, refl)) refl refl refl refl

abbrev idle_desk : Desk world
idle_desk = record { slot = alice_slot; queue = record { queues = []; active = [] } }

-- A prompt is in flight and a message waits.
abbrev busy_desk : Desk world
busy_desk = record {
  slot = alice_slot;
  queue = record { queues = (alice, again ∷ []) ∷ []; active = alice ∷ [] };
}

enqueue_message-waiting_example :
    let (d', sent, result) = enqueue_message world able alice hello idle_desk in
    (is_active alice idle_desk.queue ≡ true → Waits world alice hello idle_desk (d', sent, result))
    × (is_active alice idle_desk.queue ≡ false
        → get alice idle_desk.queue.queues ≡ none
        → (is_active alice d'.queue ≡ true)
          × (waiting world alice d' ≡ [])
          × ((id : Text)
              → Ready world alice id idle_desk.slot
              → contains id idle_desk.slot.tool_context_sent ≡ true
              → able.prompt_sent ≡ ok tt
              → (sent
                  ≡ announce able alice
                    ++ session_prompt id (reply_context hello.1 ++ hello.0) ∷ [])
                × (result ≡ ok tt)))
unfolding platform_command extract_command_text match_platform_command before_mention strip_slash
enqueue_message-waiting_example = enqueue_message-waiting world able alice hello idle_desk refl

failed_dispatch_blocks_example :
    let (d', sent, result) = enqueue_message world unable alice hello idle_desk in
    let (d'', sent') = enqueue_messages world alice ((able, again) ∷ []) d' in
    (result ≡ err connection_closed) × (waiting world alice d'' ≡ again ∷ []) × (sent' ≡ [])
unfolding platform_command extract_command_text match_platform_command before_mention strip_slash
    is_active get contains prompt_agent send_prompt pass_prompt add_tool_context insert list_eqb
failed_dispatch_blocks_example =
    failed_dispatch_blocks world unable alice hello ((able, again) ∷ []) idle_desk connection_closed
      refl (refl, tt) refl refl refl

abbrev cancel_message : RichPayload ContentPart MessageMetadata
cancel_message = (text (bytes "/cancel") ∷ [], none)

cancel_drops_waiting_example :
    let (d', sent, result) = enqueue_message world able alice cancel_message busy_desk in
    (waiting world alice busy_desk ≡ again ∷ [])
    × (waiting world alice d' ≡ [])
    × (is_active alice d'.queue ≡ true)
    × (sent
        ≡ session_cancel (bytes "s1")
          ∷ send_synthetic_chunk true alice (bytes "Operation cancelled."))
unfolding platform_command extract_command_text match_platform_command before_mention strip_slash
    find_command is_active get contains insert list_eqb cancel_session
cancel_drops_waiting_example =
    cancel_drops_waiting world able alice (bytes "s1") cancel_message again busy_desk refl refl refl
      refl
