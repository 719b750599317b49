-- ===== src/Agents/Tests/Slots.antt =====
-- Instances of the theorems on sessions, prompts, permissions and crashes, on a slot of one agent.
use protoclaw.Base.{
  ℕ, ◌≡◌, refl, inl, ◌≢◌, true, false, none, some, [], ◌∷◌, nat_eq, list_eq, list_eqb,
}
use protoclaw.Base.Map.{get, contains, insert, remove}
use protoclaw.Base.Text.{Text, bytes}
use protoclaw.SdkTypes.SessionKey.{SessionKey}
use protoclaw.Core.Backoff
use protoclaw.Core.CrashTracker
use protoclaw.Agents.Slot.{ok, Outside, AgentSlot}
use protoclaw.Agents.Sessions.{
  Replies, enter, new_conversation, create_session, start_session, forget_session,
}
use protoclaw.Agents.Sessions.Routing.{Routed, FreeFor, enter-Routed}
use protoclaw.Agents.Sessions.Steps.{creates, operate, operate-Routed, forward-new_conversation}
use protoclaw.Agents.Incoming.{
  Update, forward_session_update, PermissionRequest, permission_request_id, route_permission,
  answer, handle_permission_request, respond_permission,
}
use protoclaw.Agents.Incoming.Permissions.{
  Unroutable, first_option, permission_answered_once, permission_handled,
}
use protoclaw.Agents.Recovery.{session_resume, restore_or_start_session}
use protoclaw.Agents.Recovery.Crash.{renamed_session_unheard}

abbrev pub world : Outside
world = record { Connection = Unit; Token = Unit; Value = ℕ; Permission = ℕ }

abbrev pub alice : SessionKey
alice = bytes "telegram:direct:alice"

abbrev bob : SessionKey
bob = bytes "telegram:direct:bob"

-- A connected agent that can resume, with no session.
abbrev pub empty_slot : AgentSlot world
empty_slot = record {
  name = bytes "default";
  connection = some tt;
  lifecycle = record {
    cancel_token = tt;
    backoff = Backoff.default;
    crash_tracker = CrashTracker.default;
    disabled = false;
  };
  agent_capabilities = some (record { resume = true; load_session = false; fork = false });
  session_map = [];
  reverse_map = [];
  pending_permissions = [];
  stale_sessions = [];
  awaiting_first_prompt = [];
  last_available_commands = none;
  tool_context = some (bytes "tools");
  tool_context_sent = [];
  active_prompts = [];
}

abbrev pub willing : Replies
willing = record {
  tools_failure = none;
  tool_context = none;
  new_session = ok (bytes "s2");
  resumed = some (bytes "s3");
  loaded = none;
  forked = ok (bytes "s4");
}

abbrev pub alice_slot : AgentSlot world
alice_slot = enter world alice (bytes "s1") empty_slot

empty-Routed : Routed world empty_slot
unfolding get
empty-Routed k id h = cc

pub alice-Routed : Routed world alice_slot
unfolding get
alice-Routed = enter-Routed world alice (bytes "s1") empty_slot empty-Routed (inl refl)

-- The agent gives the id s2, which the slot does not know.
willing-Free : FreeFor world bob (bytes "s2") alice_slot
unfolding get insert list_eqb
willing-Free = inl refl

new_session_id : (id : Text) → willing.new_session ≡ ok id → bytes "s2" ≡ id
new_session_id id e = cc

-- An update of the session that Alice had before.
abbrev late_update : Update world
late_update = record {
  session_id = bytes "s1";
  is_result = false;
  is_commands = false;
  content = 7;
}

operate-Routed_example : Routed world (operate world (creates bob) willing alice_slot)
operate-Routed_example =
    operate-Routed world (creates bob) willing alice_slot alice-Routed
      λ id e. rw⁻¹ (new_session_id id e) willing-Free

forward-new_conversation_example :
    let slot' = (new_conversation world alice willing alice_slot).0 in
    (late_update.session_id ≢ bytes "s2"
      → (forward_session_update world true late_update slot').delivered ≢ some (alice, 7))
    × (late_update.session_id ≡ bytes "s2"
        → contains (bytes "s2") slot'.awaiting_first_prompt ≡ false
        → (forward_session_update world true late_update slot').delivered ≡ some (alice, 7))
unfolding new_conversation create_session start_session forget_session get insert list_eqb remove
forward-new_conversation_example =
    forward-new_conversation world alice willing alice_slot (bytes "s2") late_update refl

renamed_session_unheard_example :
    let (slot', asked) = restore_or_start_session world willing alice_slot in
    (asked ≡ session_resume (bytes "s1") ∷ [])
    × (get alice slot'.session_map ≡ some (bytes "s3"))
    × ((u : Update world)
        → u.session_id ≡ bytes "s3"
        → (forward_session_update world true u slot').delivered ≡ none)
unfolding get insert list_eqb
renamed_session_unheard_example =
    renamed_session_unheard world alice (bytes "s1") (bytes "s3")
      (record { resume = true; load_session = false; fork = false }) willing alice_slot refl refl
      refl refl refl refl

-- The agent asks whether it may write a file.
abbrev write_request : PermissionRequest ℕ
write_request = record {
  param_request_id = none;
  rpc_id = some (bytes "12");
  session_id = bytes "s1";
  options = bytes "allow" ∷ bytes "reject" ∷ [];
  pending = 5;
}

permission_answered_once_example :
    let (slot', asked) = handle_permission_request world (some true) write_request alice_slot in
    let (slots, first) =
      respond_permission world (bytes "12") (bytes "reject") (empty_slot ∷ slot' ∷ []) in
    let (slots', second) = respond_permission world (bytes "12") (bytes "allow") slots in
    (asked ≡ route_permission alice (bytes "12") write_request.options)
    × (first ≡ some (5, bytes "reject"))
    × (second ≡ none)
unfolding get insert list_eqb permission_request_id
permission_answered_once_example =
    permission_answered_once world write_request alice tt alice_slot (empty_slot ∷ []) []
      (bytes "reject") (bytes "allow") refl refl (refl, tt) tt

permission_handled_example :
    let (slot', sent) = handle_permission_request world none write_request alice_slot in
    ((key : SessionKey)
      → none ≡ some true
      → get (bytes "s1") alice_slot.reverse_map ≡ some key
      → (sent ≡ route_permission key (bytes "12") write_request.options)
        × (get (bytes "12") slot'.pending_permissions ≡ some 5))
    × (Unroutable world none write_request alice_slot
        → (sent ≡ answer (bytes "12") (first_option world write_request.options))
          × (slot' ≡ alice_slot))
unfolding permission_request_id
permission_handled_example = permission_handled world none write_request tt alice_slot refl
