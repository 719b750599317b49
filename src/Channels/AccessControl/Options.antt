-- ===== src/Channels/AccessControl/Options.antt =====
-- crates/anyclaw-channels/src/access_control.rs: `AccessConfig::from_options` and the parsers it
-- calls. `str::to_lowercase`, which follows the Unicode tables, is a parameter.
pub mod Laws
use protoclaw.Base.{
  Bool, true, false, Option, none, some, List, [], ◌∷◌, if◌then◌else◌, is_empty, ◌=?◌, nat_eq,
  list_eq, nat_eqb,
}
use protoclaw.Base.Map.{Map, insert}
use protoclaw.Base.Text.{Text, bytes, ℤ, int_eq, parse_i64}
use protoclaw.Base.Json.{Json}
use protoclaw.Channels.AccessControl.{
  AllowlistEntry, wildcard, user_id, username, GroupPolicy, «open», allowlist, disabled,
  GroupConfig, AccessConfig, default, unwrap_or,
}

unfoldable pub parse_group_policy : Text → Option GroupPolicy
parse_group_policy s =
    if s =? bytes "open"
    then some «open»
    else if s =? bytes "allowlist"
    then some allowlist
    else if s =? bytes "disabled"
    then some disabled
    else none

-- `s.strip_prefix('@').unwrap_or(s)`.
unfoldable pub strip_at : Text → Text
strip_at [] = []
strip_at (c ∷ s) = if nat_eqb c b'@' then s else c ∷ s

infixl 5 ◌>>=◌
abbrev pub ◌>>=◌ : {A B : Type 0} → Option A → (A → Option B) → Option B
none >>= f = none
some a >>= f = f a

abbrev pub filter_map : {A B : Type 0} → (A → Option B) → List A → List B
filter_map f [] = []
filter_map f (x ∷ xs) = let rest = filter_map f xs in elim (f x) [ none ↦ rest | some y ↦ y ∷ rest ]

-- `collect()` into the `HashMap`: a later entry replaces an earlier one of the same key.
unfoldable pub collect : List (ℤ × GroupConfig) → Map ℤ GroupConfig → Map ℤ GroupConfig
collect [] groups = groups
collect ((k, g) ∷ rest) groups = collect rest (insert k g groups)

module _ (json : Json) (to_lowercase : Text → Text) where
  open json use {Value, field, as_i64, as_str, as_bool, as_array, as_object}

  unfoldable pub parse_allowlist_text : Text → Option AllowlistEntry
  parse_allowlist_text s = if s =? bytes "*" then some wildcard else elim (parse_i64 s) [
    | some n ↦ some (user_id n)
    | none ↦
        let name = strip_at s in if is_empty name then none else some (username (to_lowercase name))
  ]

  unfoldable pub parse_allowlist_entry : Value → Option AllowlistEntry
  unfolding parse_allowlist_text
  parse_allowlist_entry value = elim (as_i64 value) [
    | some n ↦ some (user_id n)
    | none ↦ elim (as_str value) [ none ↦ none | some s ↦ parse_allowlist_text s ]
  ]

  unfoldable pub parse_allowlist : Value → List AllowlistEntry
  parse_allowlist value = elim (as_array value) [
    | none ↦ []
    | some values ↦ filter_map parse_allowlist_entry values
  ]

  -- `ac.get("group_policy").and_then(as_str).and_then(parse_group_policy)`.
  unfoldable pub policy_field : Value → Option GroupPolicy
  policy_field v = do p ← field (bytes "group_policy") v; s ← as_str p; parse_group_policy s

  unfoldable pub bool_field : Text → Bool → Value → Bool
  bool_field key absent v = unwrap_or (field key v >>= as_bool) absent

  unfoldable pub group_config : Value → GroupConfig
  group_config v = record {
    enabled = bool_field (bytes "enabled") true v;
    group_policy = policy_field v;
    allowed_users = elim (field (bytes "allowed_users") v) [
      | none ↦ []
      | some users ↦ parse_allowlist users
    ];
    require_mention = bool_field (bytes "require_mention") false v;
  }

  -- The closure over the entries of `groups`.
  unfoldable pub parse_group : Text × Value → Option (ℤ × GroupConfig)
  parse_group (key, v) = do chat_id ← parse_i64 key; some (chat_id, group_config v)

  unfoldable pub parse_groups : Value → Map ℤ GroupConfig
  parse_groups ac = elim (field (bytes "groups") ac >>= as_object) [
    | none ↦ []
    | some entries ↦ collect (filter_map parse_group entries) []
  ]

  unfoldable pub from_options : Value → AccessConfig
  from_options options = elim (field (bytes "access_control") options) [
    | none ↦ default
    | some ac ↦ record {
      group_policy = unwrap_or (policy_field ac) «open»;
      allowed_users = elim (field (bytes "allowed_users") ac) [
        | none ↦ wildcard ∷ []
        | some users ↦ parse_allowlist users
      ];
      groups = parse_groups ac;
      default_require_mention = bool_field (bytes "require_mention") false ac;
    }
  ]
