-- ===== src/Agents/Prompt/Waiting.antt =====
-- What becomes of the messages that wait while a session is busy.
use mathlib.Core.List.{append_assoc, append-nil}
use protoclaw.Base.{
  true, false, ◌≡◌, refl, sym, ap, ◌∙◌, none, some, List, [], ◌∷◌, ◌++◌, map, arith, nat_eq,
  list_eq, list_eqb_iff, eq_self, or_default,
}
use protoclaw.Base.Map.{get, insert, contains, contains-add, get-insert, get-remove}
use protoclaw.Base.Text.{Text, bytes}
use protoclaw.SdkTypes.SessionKey.{SessionKey}
use protoclaw.SdkTypes.Message.{ContentPart, MessageMetadata}
use protoclaw.Agents.SessionQueue.{
  RichPayload, push, push_only, flush_pending, mark_idle, is_active,
}
use protoclaw.Agents.Slot.{AgentsError, ok, err, Outside}
use protoclaw.Agents.Sessions.{cancel_session}
use protoclaw.Agents.Prompt.Context.{platform_command, cancel_command}
use protoclaw.Agents.Prompt.{
  Answers, Sent, Queue, Desk, Outcome, session_cancel, send_synthetic_chunk, prompt_agent,
  prompt_session, handle_platform_command, run_cancel, flush_and_dispatch, enqueue_message,
  announce, session_prompt, reply_context,
}
use protoclaw.Agents.Prompt.ToolContext.{Ready, told_prompt, told_prompt_ok}

module _ (out : Outside) where
  abbrev Payload : Type 0
  Payload = RichPayload ContentPart MessageMetadata

  -- The messages that wait for a session.
  abbrev pub waiting : SessionKey → Desk out → List Payload
  waiting key d = or_default (get key d.queue.queues)

  -- A message that is alone comes back from the queue as it is, and makes the session busy.
  flush_alone :
      (key : SessionKey) (p : Payload) (queue : Queue)
      → is_active key queue ≡ false
      → get key queue.queues ≡ none
      → let (queue', batch) = flush_pending key (push_only key p queue).0 in
        (batch ≡ some p) × (is_active key queue' ≡ true) × (get key queue'.queues ≡ none)
  unfolding flush_pending push_only is_active
  flush_alone key p queue idle empty =
      let pushed = insert key (p ∷ []) queue.queues in
      rw (empty, idle, flush_pending)
        (rw (get-insert key key (p ∷ []) queue.queues, eq_self key)
          (
            refl,
            ground (arith, contains-add key key queue.active, list_eqb_iff key key),
            ground (arith, get-remove key key pushed, list_eqb_iff key key),
          ))

  abbrev pub Waits : SessionKey → Payload → Desk out → Outcome out → Type 0
  Waits key p d (d', sent, result) =
      (waiting key d' ≡ waiting key d ++ p ∷ [])
      × (is_active key d'.queue ≡ true)
      × (d'.slot ≡ d.slot)
      × (sent ≡ [])
      × (result ≡ ok tt)

  enqueue_busy :
      (a : Answers) (key : SessionKey) (p : Payload) (d : Desk out)
      → platform_command p.0 ≡ none
      → is_active key d.queue ≡ true
      → Waits key p d (enqueue_message out a key p d)
  unfolding enqueue_message push is_active
  enqueue_busy a key p d ordinary busy =
      rw (ordinary, enqueue_message)
        (rw busy (
          ground (
            arith,
            get-insert key key (waiting key d ++ p ∷ []) d.queue.queues,
            list_eqb_iff key key,
          ),
          busy,
          refl,
          refl,
          refl,
        ))

  enqueue_idle :
      (a : Answers) (key : SessionKey) (p : Payload) (d : Desk out)
      → platform_command p.0 ≡ none
      → is_active key d.queue ≡ false
      → get key d.queue.queues ≡ none
      → let (d', sent, result) = enqueue_message out a key p d in
        let (slot', sent', result') = prompt_agent out a key p d.slot in
        (is_active key d'.queue ≡ true)
        × (waiting key d' ≡ [])
        × (d'.slot ≡ slot')
        × (sent ≡ announce a key ++ sent')
        × (result ≡ result')
  unfolding enqueue_message flush_and_dispatch prompt_session push
  enqueue_idle a key p d ordinary idle empty =
      let (flushed, active, none_left) = flush_alone key p d.queue idle empty in
      rw (ordinary, idle, enqueue_message)
        (rw (flushed, flush_and_dispatch)
          (rw (ordinary, prompt_session) (active, ap or_default none_left, refl, refl, refl)))

  -- A message for a session with a prompt in flight waits behind those that are there: it is not
  -- lost, nothing is sent, and the slot is as it was. A message for an idle session with none
  -- waiting makes the session busy and does not wait itself. Where the session is open at a
  -- connected agent that has had the tool context and takes the prompt, one prompt with the message
  -- behind its reply context is sent at once, after the announcement to the channel.
  pub enqueue_message-waiting :
      (a : Answers) (key : SessionKey) (p : Payload) (d : Desk out)
      → platform_command p.0 ≡ none
      → let (d', sent, result) = enqueue_message out a key p d in
        (is_active key d.queue ≡ true → Waits key p d (d', sent, result))
        × (is_active key d.queue ≡ false
            → get key d.queue.queues ≡ none
            → (is_active key d'.queue ≡ true)
              × (waiting key d' ≡ [])
              × ((id : Text)
                  → Ready out key id d.slot
                  → contains id d.slot.tool_context_sent ≡ true
                  → a.prompt_sent ≡ ok tt
                  → (sent ≡ announce a key ++ session_prompt id (reply_context p.1 ++ p.0) ∷ [])
                    × (result ≡ ok tt)))
  enqueue_message-waiting a key p d ordinary = (
    λ busy. enqueue_busy a key p d ordinary busy,
    λ idle empty.
        let (active, left, same, sent, result) = enqueue_idle a key p d ordinary idle empty in
        (
          active,
          left,
          λ id ready told taken. (
            sent
                ∙ ap (λ s. announce a key ++ s)
                    (told_prompt out a key id p d.slot ready told taken),
            result ∙ told_prompt_ok out a key id p d.slot ready told taken,
          ),
        ),
  )

  -- Messages for one session, one after another: the desk after them, and all that was sent.
  unfoldable pub enqueue_messages :
      SessionKey → List (Answers × Payload) → Desk out → Desk out × List Sent
  enqueue_messages key [] d = (d, [])
  enqueue_messages key ((a, p) ∷ rest) d =
      let (d', sent, result) = enqueue_message out a key p d in
      let (d'', later) = enqueue_messages key rest d' in (d'', sent ++ later)

  abbrev pub Ordinary : List (Answers × Payload) → Type 0
  Ordinary [] = Unit {0}
  Ordinary ((a, p) ∷ rest) = (platform_command p.0 ≡ none) × Ordinary rest

  enqueue_messages-busy :
      (key : SessionKey) (later : List (Answers × Payload)) (d : Desk out)
      → Ordinary later
      → is_active key d.queue ≡ true
      → let (d', sent) = enqueue_messages key later d in
        (waiting key d' ≡ waiting key d ++ map (λ m. m.1) later) × (sent ≡ [])
  unfolding enqueue_messages
  enqueue_messages-busy key [] d ordinary busy = (sym (append-nil (waiting key d)), refl)
  enqueue_messages-busy key ((a, p) ∷ rest) d ordinary busy =
      let (waits, active, slot, quiet, result) = enqueue_busy a key p d ordinary.0 busy in
      let (all, silent) =
        enqueue_messages-busy key rest (enqueue_message out a key p d).0 ordinary.1 active in
      (
        all ∙ (ap (λ w. w ++ map (λ m. m.1) rest) waits ∙ append_assoc (waiting key d) (p ∷ []) _),
        rw (quiet, silent) refl,
      )

  -- What a message that could not be dispatched does to its session: it was idle with none
  -- waiting, and from then on it counts as busy with no prompt in flight, so that all its later
  -- messages wait and none of them is sent to the agent.
  pub failed_dispatch_blocks :
      (a : Answers) (key : SessionKey) (p : Payload) (later : List (Answers × Payload))
      (d : Desk out) (e : AgentsError)
      → platform_command p.0 ≡ none
      → Ordinary later
      → is_active key d.queue ≡ false
      → get key d.queue.queues ≡ none
      → (prompt_agent out a key p d.slot).2 ≡ err e
      → let (d', sent, result) = enqueue_message out a key p d in
        let (d'', sent') = enqueue_messages key later d' in
        (result ≡ err e) × (waiting key d'' ≡ map (λ m. m.1) later) × (sent' ≡ [])
  failed_dispatch_blocks a key p later d e ordinary all idle empty failed =
      let (active, none_left, slot, sent, result) = enqueue_idle a key p d ordinary idle empty in
      let (waits, silent) =
        enqueue_messages-busy key later (enqueue_message out a key p d).0 all active in
      (result ∙ failed, waits ∙ ap (λ w. w ++ map (λ m. m.1) later) none_left, silent)

  -- What /cancel loses: the message that waits for the session is taken from the queue and sent
  -- nowhere, and the session stays busy.
  pub cancel_drops_waiting :
      (a : Answers) (key : SessionKey) (id : Text) (command p : Payload) (d : Desk out)
      → platform_command command.0 ≡ some cancel_command
      → cancel_session out key a.cancel_sent d.slot ≡ ok id
      → is_active key d.queue ≡ true
      → get key d.queue.queues ≡ some (p ∷ [])
      → let (d', sent, result) = enqueue_message out a key command d in
        (waiting key d ≡ p ∷ [])
        × (waiting key d' ≡ [])
        × (is_active key d'.queue ≡ true)
        × (sent
            ≡ session_cancel id ∷ send_synthetic_chunk a.sender key (bytes "Operation cancelled."))
  unfolding enqueue_message handle_platform_command run_cancel mark_idle is_active
  cancel_drops_waiting a key id command p d cancels done busy one =
      rw (cancels, enqueue_message)
        (rw (done, one, handle_platform_command, run_cancel, mark_idle)
          (
            refl,
            ground (arith, get-remove key key d.queue.queues, list_eqb_iff key key),
            busy,
            refl,
          ))
