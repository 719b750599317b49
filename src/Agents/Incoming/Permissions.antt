-- ===== src/Agents/Incoming/Permissions.antt =====
-- A permission request of an agent is answered, and answered once.
use protoclaw.Base.{
  Bool, true, false, ◌≡◌, ◌≢◌, refl, ap, ◌⊎◌, inl, inr, Option, none, some, List, [], ◌∷◌, ◌++◌,
  arith, nat_eq, list_eq, list_eqb_iff, Option-cases,
}
use protoclaw.Base.Map.{get, insert, remove, get-insert, get-remove}
use protoclaw.Base.Text.{Text, bytes}
use protoclaw.SdkTypes.SessionKey.{SessionKey}
use protoclaw.Agents.Slot.{Outside, AgentSlot}
use protoclaw.Agents.Incoming.{
  PermissionRequest, permission_request_id, route_permission, answer, auto_option, auto_approve,
  handle_permission_request, respond_permission,
}

module _ (out : Outside) where
  -- No slot of the list has the request pending.
  abbrev pub NonePending : Text → List (AgentSlot out) → Type 0
  NonePending id [] = Unit {0}
  NonePending id (slot ∷ slots) = (get id slot.pending_permissions ≡ none) × NonePending id slots

  abbrev answered : Text → AgentSlot out → AgentSlot out
  answered id slot = record slot { pending_permissions = remove id slot.pending_permissions }

  respond-none :
      (id option_id : Text) (slots : List (AgentSlot out))
      → NonePending id slots
      → respond_permission out id option_id slots ≡ (slots, none)
  unfolding respond_permission
  respond-none id option_id [] n = refl
  respond-none id option_id (slot ∷ slots) (n, ns) =
      rw (n, respond_permission) (rw (respond-none id option_id slots ns) refl)

  respond-pending :
      (id option_id : Text) (before after : List (AgentSlot out)) (slot : AgentSlot out)
      (perm : out.Permission) (c : out.Connection)
      → NonePending id before
      → get id slot.pending_permissions ≡ some perm
      → slot.connection ≡ some c
      → respond_permission out id option_id (before ++ slot ∷ after)
        ≡ (before ++ answered id slot ∷ after, some (perm, option_id))
  unfolding respond_permission
  respond-pending id option_id [] after slot perm c ns pending connected =
      rw (pending, connected, respond_permission) refl
  respond-pending id option_id (s ∷ before) after slot perm c (n, ns) pending connected =
      rw (n, respond_permission)
        (rw (respond-pending id option_id before after slot perm c ns pending connected) refl)

  NonePending-append :
      (id : Text) (before after : List (AgentSlot out))
      → NonePending id before
      → NonePending id after
      → NonePending id (before ++ after)
  NonePending-append id [] after n m = m
  NonePending-append id (s ∷ before) after (n, ns) m = (n, NonePending-append id before after ns m)

  -- A permission request that goes to a channel is pending in its slot; the first answer of the
  -- user goes to the agent with the option that was chosen, and a second answer goes nowhere. It
  -- needs a connected agent, and that no other slot has a request pending under the same id.
  pub permission_answered_once :
      (p : PermissionRequest out.Permission) (key : SessionKey) (c : out.Connection)
      (slot : AgentSlot out) (before after : List (AgentSlot out)) (chosen again : Text)
      → get p.session_id slot.reverse_map ≡ some key
      → slot.connection ≡ some c
      → NonePending (permission_request_id out p) before
      → NonePending (permission_request_id out p) after
      → let id = permission_request_id out p in
        let (slot', asked) = handle_permission_request out (some true) p slot in
        let (slots, first) = respond_permission out id chosen (before ++ slot' ∷ after) in
        let (slots', second) = respond_permission out id again slots in
        (asked ≡ route_permission key id p.options)
        × (first ≡ some (p.pending, chosen))
        × (second ≡ none)
  unfolding handle_permission_request
  permission_answered_once p key c slot before after chosen again known connected nb na =
      let id = permission_request_id out p in
      let slot' : AgentSlot out = record slot {
        pending_permissions = insert id p.pending slot.pending_permissions;
      } in
      let first =
        respond-pending id chosen before after slot' p.pending c nb
          (ground (arith, get-insert id id p.pending slot.pending_permissions, list_eqb_iff id id))
          connected in
      let gone : get id (answered id slot').pending_permissions ≡ none =
        ground (arith, get-remove id id slot'.pending_permissions, list_eqb_iff id id) in
      rw (known, handle_permission_request)
        (rw first (
          refl,
          refl,
          ap (λ r. r.1)
              (respond-none id again _
                (NonePending-append id before (answered id slot' ∷ after) nb (gone, na))),
        ))

  -- The first of the options, or else `once`.
  abbrev pub first_option : List Text → Text
  first_option [] = bytes "once"
  first_option (o ∷ options) = o

  -- The session is not known, or no channels manager takes the question.
  abbrev pub Unroutable : Option Bool → PermissionRequest out.Permission → AgentSlot out → Type 0
  Unroutable sender p slot = (get p.session_id slot.reverse_map ≡ none) ⊎ (sender ≢ some true)

  approved :
      (p : PermissionRequest out.Permission) (c : out.Connection) (slot : AgentSlot out)
      → slot.connection ≡ some c
      → let id = permission_request_id out p in
        let (slot', sent) = auto_approve out p id slot in
        (sent ≡ answer id (first_option p.options)) × (slot' ≡ slot)
  unfolding auto_approve auto_option
  approved p c slot connected = (ground (arith, connected), ground arith)

  refused :
      (sender : Option Bool) (p : PermissionRequest out.Permission) (c : out.Connection)
      (slot : AgentSlot out)
      → slot.connection ≡ some c
      → Unroutable sender p slot
      → let (slot', sent) = handle_permission_request out sender p slot in
        (sent ≡ answer (permission_request_id out p) (first_option p.options)) × (slot' ≡ slot)
  unfolding handle_permission_request
  refused sender p c slot connected (inl n) =
      rw (n, handle_permission_request) (approved p c slot connected)
  refused (some true) p c slot connected (inr h) = absurd (h refl)
  refused (some false) p c slot connected (inr h) =
      elim (Option-cases (get p.session_id slot.reverse_map)) [
        | inl n ↦ rw (n, handle_permission_request) (approved p c slot connected)
        | inr (key, n) ↦ rw (n, handle_permission_request) (approved p c slot connected)
      ]
  refused none p c slot connected (inr h) =
      elim (Option-cases (get p.session_id slot.reverse_map)) [
        | inl n ↦ rw (n, handle_permission_request) (approved p c slot connected)
        | inr (key, n) ↦ rw (n, handle_permission_request) (approved p c slot connected)
      ]

  -- With a connected agent no permission request is left without an answer. Exactly where its
  -- session is known and the channels manager takes the question, the channel of that session is
  -- asked and the request is pending in the slot. Otherwise the agent is answered at once, with the
  -- first option of the request, or `once` where it gives none, and the slot stays as it was.
  pub permission_handled :
      (sender : Option Bool) (p : PermissionRequest out.Permission) (c : out.Connection)
      (slot : AgentSlot out)
      → slot.connection ≡ some c
      → let id = permission_request_id out p in
        let (slot', sent) = handle_permission_request out sender p slot in
        ((key : SessionKey)
          → sender ≡ some true
          → get p.session_id slot.reverse_map ≡ some key
          → (sent ≡ route_permission key id p.options)
            × (get id slot'.pending_permissions ≡ some p.pending))
        × (Unroutable sender p slot → (sent ≡ answer id (first_option p.options)) × (slot' ≡ slot))
  unfolding handle_permission_request
  permission_handled sender p c slot connected = (
    λ key taken known.
        rw (known, handle_permission_request)
          (rw (taken, handle_permission_request)
            (
              refl,
              ground (
                arith,
                get-insert (permission_request_id out p) (permission_request_id out p) p.pending
                    slot.pending_permissions,
                list_eqb_iff (permission_request_id out p) (permission_request_id out p),
              ),
            )),
    λ unroutable. refused sender p c slot connected unroutable,
  )
