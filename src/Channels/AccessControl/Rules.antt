-- ===== src/Channels/AccessControl/Rules.antt =====
-- The rules of access control, one for each decision.
use protoclaw.Base.{
  Bool, true, false, is_empty, if◌then◌else◌, ◌≡◌, refl, ◌↔◌, ◌⊎◌, Option, none, some, List, [],
  ◌∷◌, map, arith, list_eqb_iff, nat_eq,
}
use protoclaw.Base.Map.{get}
use protoclaw.Base.Text.{Text, lower, ℤ, int_eq, int_eqb_iff}
use protoclaw.Channels.AccessControl.{
  AllowlistEntry, wildcard, user_id, username, SenderIdentity, matches, matches_any, GroupPolicy,
  GroupConfig, allowlist, disabled, AccessConfig, group_disabled, group_policy_disabled,
  group_sender_not_allowed, dm_sender_not_allowed, AccessDecision, allow, deny, skip_no_mention,
  evaluate_access, should_suppress_reply_context, effective_policy, effective_users,
  effective_mention, is_disabled,
}

-- An entry stands for everyone, for a number, or for a name up to the case of ASCII letters.
abbrev pub Matches : SenderIdentity → AllowlistEntry → Type 0
Matches s wildcard = Unit {0}
Matches s (user_id id) = s.user_id ≡ some id
Matches s (username name) = (u : Text) × (s.username ≡ some u) × (map lower u ≡ map lower name)

abbrev pub Permitted : SenderIdentity → List AllowlistEntry → Type 0
Permitted s [] = ⊥
Permitted s (a ∷ entries) = Matches s a ⊎ Permitted s entries

matches_iff : (s : SenderIdentity) (a : AllowlistEntry) → (matches s a ≡ true) ↔ Matches s a
unfolding matches
matches_iff s wildcard = (λ _. tt, λ _. refl)
matches_iff s (user_id id) = go s.user_id refl
  where
    go : (n : Option ℤ) → s.user_id ≡ n → (matches s (user_id id) ≡ true) ↔ (s.user_id ≡ some id)
    go none h = ground arith
    go (some n) h = ground (arith, int_eqb_iff n id)
matches_iff s (username name) = go s.username refl
  where
    go :
        (n : Option Text)
        → s.username ≡ n
        → (matches s (username name) ≡ true)
          ↔ ((u : Text) × (s.username ≡ some u) × (map lower u ≡ map lower name))
    go none h = (λ e. cc, λ (u, e, f). cc)
    go (some n) h = (
      λ e. (n, h, (list_eqb_iff (map lower n) (map lower name)).1 (rw (h, matches) at e)),
      λ (u, e, f). rw (e, matches) ((list_eqb_iff (map lower u) (map lower name)).0 f),
    )

matches_any_iff :
    (s : SenderIdentity) (entries : List AllowlistEntry)
    → (matches_any s entries ≡ true) ↔ Permitted s entries
unfolding matches_any
matches_any_iff s [] = (λ e. cc, λ h. absurd h)
matches_any_iff s (a ∷ entries) = ground (arith, matches_iff s a, matches_any_iff s entries)

-- What the configuration of a group, if it has one, says of its messages.
abbrev pub Off : Option GroupConfig → Type 0
Off none = ⊥
Off (some gc) = gc.enabled ≡ false

-- The policy of the group, or else that of the whole configuration.
abbrev pub Policy : AccessConfig → Option GroupConfig → GroupPolicy → Type 0
Policy cfg none p = cfg.group_policy ≡ p
Policy cfg (some gc) p =
    (gc.group_policy ≡ some p) ⊎ ((gc.group_policy ≡ none) × (cfg.group_policy ≡ p))

-- By the group's own list of users, or by the one of the configuration where it is empty.
abbrev pub Member : AccessConfig → Option GroupConfig → SenderIdentity → Type 0
Member cfg none s = Permitted s cfg.allowed_users
Member cfg (some gc) s =
    Permitted s gc.allowed_users ⊎ ((gc.allowed_users ≡ []) × Permitted s cfg.allowed_users)

abbrev pub MentionNeeded : AccessConfig → Option GroupConfig → Type 0
MentionNeeded cfg none = cfg.default_require_mention ≡ true
MentionNeeded cfg (some gc) = gc.require_mention ≡ true

is_disabled_iff : (g : Option GroupConfig) → (is_disabled g ≡ true) ↔ Off g
unfolding is_disabled
is_disabled_iff none = ground arith
is_disabled_iff (some gc) = ground arith

effective_policy_iff :
    (cfg : AccessConfig) (g : Option GroupConfig) (p : GroupPolicy)
    → (effective_policy cfg g ≡ p) ↔ Policy cfg g p
unfolding effective_policy
effective_policy_iff cfg none p = ground arith
effective_policy_iff cfg (some gc) p = ground arith

effective_mention_iff :
    (cfg : AccessConfig) (g : Option GroupConfig)
    → (effective_mention cfg g ≡ true) ↔ MentionNeeded cfg g
unfolding effective_mention
effective_mention_iff cfg none = ground arith
effective_mention_iff cfg (some gc) = ground arith

listed_iff :
    (cfg : AccessConfig) (s : SenderIdentity) (users : List AllowlistEntry)
    → (matches_any s (if is_empty users then cfg.allowed_users else users) ≡ true)
      ↔ (Permitted s users ⊎ ((users ≡ []) × Permitted s cfg.allowed_users))
listed_iff cfg s [] = ground (arith, matches_any_iff s cfg.allowed_users)
listed_iff cfg s (u ∷ users) = ground (arith, matches_any_iff s (u ∷ users))

effective_users_iff :
    (cfg : AccessConfig) (g : Option GroupConfig) (s : SenderIdentity)
    → (matches_any s (effective_users cfg g) ≡ true) ↔ Member cfg g s
unfolding effective_users
effective_users_iff cfg none s = matches_any_iff s cfg.allowed_users
effective_users_iff cfg (some gc) s = listed_iff cfg s gc.allowed_users

-- What must hold for a message of a group to get to the test of the mention.
abbrev pub Heard : AccessConfig → Option GroupConfig → SenderIdentity → Type 0
Heard cfg g s = (¬ Off g) × (¬ Policy cfg g disabled) × (Policy cfg g allowlist → Member cfg g s)

-- What must hold for a decision.
abbrev pub Rule : AccessConfig → ℤ → SenderIdentity → Bool → Bool → AccessDecision → Type 0
Rule cfg chat s false mentioned allow = Permitted s cfg.allowed_users
Rule cfg chat s false mentioned (deny dm_sender_not_allowed) = ¬ Permitted s cfg.allowed_users
Rule cfg chat s false mentioned _ = ⊥
Rule cfg chat s true mentioned allow =
    let g = get chat cfg.groups in Heard cfg g s × (MentionNeeded cfg g → mentioned ≡ true)
Rule cfg chat s true mentioned skip_no_mention =
    let g = get chat cfg.groups in Heard cfg g s × MentionNeeded cfg g × (mentioned ≡ false)
Rule cfg chat s true mentioned (deny group_disabled) = Off (get chat cfg.groups)
Rule cfg chat s true mentioned (deny group_policy_disabled) =
    let g = get chat cfg.groups in (¬ Off g) × Policy cfg g disabled
Rule cfg chat s true mentioned (deny group_sender_not_allowed) =
    let g = get chat cfg.groups in (¬ Off g) × Policy cfg g allowlist × (¬ Member cfg g s)
Rule cfg chat s true mentioned (deny dm_sender_not_allowed) = ⊥

-- Access control takes a decision exactly when its rule holds. A direct message is allowed for a
-- permitted sender. A message in a group is allowed if the group is enabled, the policy in force
-- is not `disabled`, the sender is permitted where the policy is `allowlist`, and the bot is
-- mentioned where a mention is required. The policy is the group's own, if it has one; the list of
-- users is the group's own, unless it is empty; whether a mention is required is said by the group,
-- or for a group without a configuration by the default. Each refusal names the first of these
-- tests that fails, and a missing mention alone skips the message.
pub evaluate_access_rules :
    (cfg : AccessConfig) (chat : ℤ) (s : SenderIdentity) (is_group mentioned : Bool)
    (d : AccessDecision)
    → (evaluate_access cfg chat s is_group mentioned ≡ d) ↔ Rule cfg chat s is_group mentioned d
unfolding evaluate_access
evaluate_access_rules cfg chat s false mentioned (deny dm_sender_not_allowed) =
    ground (arith, matches_any_iff s cfg.allowed_users)
evaluate_access_rules cfg chat s false mentioned d =
    ground (arith, matches_any_iff s cfg.allowed_users)
evaluate_access_rules cfg chat s true mentioned (deny dm_sender_not_allowed) = ground arith
evaluate_access_rules cfg chat s true mentioned d =
    let g = get chat cfg.groups in
    ground (
      arith,
      is_disabled_iff g,
      effective_policy_iff cfg g disabled,
      effective_policy_iff cfg g allowlist,
      effective_users_iff cfg g s,
      effective_mention_iff cfg g,
    )

-- The reply context of a group message is held back exactly when its author, writing in that
-- group, would be refused as a sender who is not allowed, provided that the group is enabled; of
-- a direct message it never is.
pub should_suppress_rules :
    (cfg : AccessConfig) (chat : ℤ) (s : SenderIdentity) (mentioned : Bool)
    → (should_suppress_reply_context cfg chat s false ≡ false)
      × (is_disabled (get chat cfg.groups) ≡ false
          → (should_suppress_reply_context cfg chat s true ≡ true)
            ↔ (evaluate_access cfg chat s true mentioned ≡ deny group_sender_not_allowed))
unfolding evaluate_access should_suppress_reply_context
should_suppress_rules cfg chat s mentioned = (refl, λ enabled. ground arith)
