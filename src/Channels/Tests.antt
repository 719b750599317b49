-- ===== src/Channels/Tests.antt =====
-- Instances of the theorems on access control, with the options
-- {"access_control": {"allowed_users": 3, "groups": {"-7": {"enabled": false}}}}.
mod Manager
mod Context
use protoclaw.Base.{
  ◌≡◌, refl, ◌↔◌, Bool, true, false, Option, none, some, List, [], ◌∷◌, map, ◌=?◌, if◌then◌else◌,
  nat_eq, list_eq, list_eqb, arith,
}
use protoclaw.Base.Map.{get}
use protoclaw.Base.Text.{Text, bytes, lower, ℤ, pos, negsuc, int_eq, parse_i64}
use protoclaw.Base.Json.{Json}
use protoclaw.Channels.AccessControl.{
  AllowlistEntry, wildcard, user_id, SenderIdentity, matches, «open», allowlist, AccessConfig,
  allow, deny, group_disabled, group_sender_not_allowed, dm_sender_not_allowed, evaluate_access,
  should_suppress_reply_context, is_disabled,
}
use protoclaw.Channels.AccessControl.Rules.{Rule, evaluate_access_rules, should_suppress_rules}
use protoclaw.Channels.AccessControl.Options.{from_options, parse_allowlist_text}
use protoclaw.Channels.AccessControl.Options.Laws.{
  from_options_defaults, disabled_group, username_entry,
}

data Doc : Type 0 where
  options access users groups group off : Doc

field_of : Text → Doc → Option Doc
field_of key options = if key =? bytes "access_control" then some access else none
field_of key access =
    if key =? bytes "groups"
    then some groups
    else if key =? bytes "allowed_users"
    then some users
    else none
field_of key group = if key =? bytes "enabled" then some off else none
field_of key _ = none

as_i64_of : Doc → Option ℤ
as_i64_of users = some (pos 3)
as_i64_of _ = none

as_bool_of : Doc → Option Bool
as_bool_of off = some false
as_bool_of _ = none

as_object_of : Doc → Option (List (Text × Doc))
as_object_of options = some ((bytes "access_control", access) ∷ [])
as_object_of access = some ((bytes "allowed_users", users) ∷ (bytes "groups", groups) ∷ [])
as_object_of groups = some ((bytes "-7", group) ∷ [])
as_object_of group = some ((bytes "enabled", off) ∷ [])
as_object_of _ = none

abbrev json : Json
json = record {
  Value = Doc;
  field = field_of;
  as_i64 = as_i64_of;
  as_str = λ v. none;
  as_bool = as_bool_of;
  as_array = λ v. none;
  as_object = as_object_of;
}

abbrev carol : SenderIdentity
carol = record { user_id = some (pos 5); username = some (bytes "Carol") }

-- The group -7 admits the user 5 alone, and wants a mention.
abbrev small_group : AccessConfig
small_group = record {
  group_policy = «open»;
  allowed_users = wildcard ∷ [];
  groups =
      (
        negsuc 6,
        record {
          enabled = true;
          group_policy = some allowlist;
          allowed_users = user_id (pos 5) ∷ [];
          require_mention = true;
        },
      )
      ∷ [];
  default_require_mention = false;
}

evaluate_access_rules_example :
    (evaluate_access small_group (negsuc 6) carol true true ≡ allow)
    ↔ Rule small_group (negsuc 6) carol true true allow
evaluate_access_rules_example = evaluate_access_rules small_group (negsuc 6) carol true true allow
