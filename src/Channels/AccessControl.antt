-- ===== src/Channels/AccessControl.antt =====
-- crates/anyclaw-channels/src/access_control.rs: the types and the evaluation.
pub mod Rules
pub mod Options
use protoclaw.Base.{
  Bool, true, false, not, ◌&&◌, Option, none, some, List, [], ◌∷◌, map, if◌then◌else◌, any,
  is_empty, ◌=?◌, nat_eq, list_eq,
}
use protoclaw.Base.Map.{Map, get}
use protoclaw.Base.Text.{Text, lower, ℤ, int_eq}

pub data AllowlistEntry : Type 0 where
  wildcard : AllowlistEntry
  user_id : ℤ → AllowlistEntry
  username : Text → AllowlistEntry

pub record SenderIdentity : Type 0 where
  pub user_id : Option ℤ
  pub username : Option Text

-- `str::eq_ignore_ascii_case`.
abbrev pub eq_ignore_ascii_case : Text → Text → Bool
eq_ignore_ascii_case s t = map lower s =? map lower t

unfoldable pub matches : SenderIdentity → AllowlistEntry → Bool
matches s wildcard = true
matches s (user_id id) = elim s.user_id [ none ↦ false | some n ↦ n =? id ]
matches s (username name) = elim s.username [ none ↦ false | some u ↦ eq_ignore_ascii_case u name ]

unfoldable pub matches_any : SenderIdentity → List AllowlistEntry → Bool
matches_any s entries = any (matches s) entries

pub data GroupPolicy : Type 0 where
  «open» : GroupPolicy
  allowlist : GroupPolicy
  disabled : GroupPolicy

pub record GroupConfig : Type 0 where
  pub enabled : Bool
  pub group_policy : Option GroupPolicy
  pub allowed_users : List AllowlistEntry
  pub require_mention : Bool

pub record AccessConfig : Type 0 where
  pub group_policy : GroupPolicy
  pub allowed_users : List AllowlistEntry
  pub groups : Map ℤ GroupConfig
  pub default_require_mention : Bool

unfoldable pub default : AccessConfig
default = record {
  group_policy = «open»;
  allowed_users = wildcard ∷ [];
  groups = [];
  default_require_mention = false;
}

pub data DenyReason : Type 0 where
  group_disabled : DenyReason
  group_policy_disabled : DenyReason
  group_sender_not_allowed : DenyReason
  dm_sender_not_allowed : DenyReason

pub data AccessDecision : Type 0 where
  allow : AccessDecision
  deny : DenyReason → AccessDecision
  skip_no_mention : AccessDecision

evaluate_dm : AccessConfig → SenderIdentity → AccessDecision
evaluate_dm cfg sender =
    if matches_any sender cfg.allowed_users then allow else deny dm_sender_not_allowed

abbrev pub unwrap_or : {A : Type 0} → Option A → A → A
unwrap_or none d = d
unwrap_or (some a) d = a

-- `group_cfg.and_then(|gc| gc.group_policy).unwrap_or(cfg.group_policy)`.
pub effective_policy : AccessConfig → Option GroupConfig → GroupPolicy
effective_policy cfg none = cfg.group_policy
effective_policy cfg (some gc) = unwrap_or gc.group_policy cfg.group_policy

-- The users of the group, or those of the whole configuration if the group lists none.
pub effective_users : AccessConfig → Option GroupConfig → List AllowlistEntry
effective_users cfg none = cfg.allowed_users
effective_users cfg (some gc) =
    if is_empty gc.allowed_users then cfg.allowed_users else gc.allowed_users

pub effective_mention : AccessConfig → Option GroupConfig → Bool
effective_mention cfg none = cfg.default_require_mention
effective_mention cfg (some gc) = gc.require_mention

-- The test of the mention, last in `evaluate_group`.
check_mention : AccessConfig → Option GroupConfig → Bool → AccessDecision
unfolding effective_mention
check_mention cfg group_cfg bot_mentioned =
    if effective_mention cfg group_cfg && not bot_mentioned then skip_no_mention else allow

-- `evaluate_group` behind the test of `enabled`.
check_policy :
    GroupPolicy → AccessConfig → Option GroupConfig → SenderIdentity → Bool → AccessDecision
unfolding check_mention effective_users
check_policy disabled cfg group_cfg sender bot_mentioned = deny group_policy_disabled
check_policy allowlist cfg group_cfg sender bot_mentioned =
    if not (matches_any sender (effective_users cfg group_cfg))
    then deny group_sender_not_allowed
    else check_mention cfg group_cfg bot_mentioned
check_policy «open» cfg group_cfg sender bot_mentioned = check_mention cfg group_cfg bot_mentioned

pub is_disabled : Option GroupConfig → Bool
is_disabled none = false
is_disabled (some gc) = not gc.enabled

evaluate_group : AccessConfig → ℤ → SenderIdentity → Bool → AccessDecision
unfolding check_policy effective_policy is_disabled
evaluate_group cfg chat_id sender bot_mentioned =
    let group_cfg = get chat_id cfg.groups in
    if is_disabled group_cfg
    then deny group_disabled
    else check_policy (effective_policy cfg group_cfg) cfg group_cfg sender bot_mentioned

unfoldable pub evaluate_access : AccessConfig → ℤ → SenderIdentity → Bool → Bool → AccessDecision
unfolding evaluate_dm evaluate_group
evaluate_access cfg chat_id sender is_group bot_mentioned =
    if not is_group then evaluate_dm cfg sender else evaluate_group cfg chat_id sender bot_mentioned

suppress_under : GroupPolicy → AccessConfig → Option GroupConfig → SenderIdentity → Bool
unfolding effective_users
suppress_under allowlist cfg group_cfg reply_sender =
    not (matches_any reply_sender (effective_users cfg group_cfg))
suppress_under _ cfg group_cfg reply_sender = false

unfoldable pub should_suppress_reply_context : AccessConfig → ℤ → SenderIdentity → Bool → Bool
unfolding suppress_under effective_policy
should_suppress_reply_context cfg chat_id reply_sender is_group =
    let group_cfg = get chat_id cfg.groups in
    if not is_group
    then false
    else suppress_under (effective_policy cfg group_cfg) cfg group_cfg reply_sender
