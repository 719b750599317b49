-- ===== src/Channels/AccessControl/Options/Laws.antt =====
-- What configured options mean for the access of messages.
use protoclaw.Base.{
  Option-cases, inl, inr, ◌<◌, Bool, true, false, ◌≡◌, refl, sym, ◌∙◌, ap, ◌≢◌, Option, none, some,
  List, [], ◌∷◌, ◌++◌, map, arith, ◌=?◌, if◌then◌else◌, list_eqb, list_eqb_iff, nat_eq,
}
use protoclaw.Base.Map.{Map, get, insert, get-insert}
use protoclaw.Base.Text.{Text, bytes, lower, ℤ, int_eq, int_eqb_iff, parse_i64}
use protoclaw.Base.Json.{Json}
use protoclaw.Channels.AccessControl.{
  AllowlistEntry, username, SenderIdentity, matches, allow, deny, group_disabled,
  dm_sender_not_allowed, evaluate_access, default, GroupConfig, matches_any,
}
use protoclaw.Channels.AccessControl.Options.{
  parse_allowlist_text, parse_allowlist, parse_group, collect, parse_groups, from_options,
  filter_map, group_config, bool_field, strip_at,
}

-- The value under the last pair of the key.
abbrev last_of {ℓ} : {V : Type ℓ} → ℤ → List (ℤ × V) → Option V → Option V
last_of k [] found = found
last_of k ((j, v) ∷ rest) found = last_of k rest (if j =? k then some v else found)

get-collect :
    (k : ℤ) (entries : List (ℤ × GroupConfig)) (groups : Map ℤ GroupConfig)
    → get k (collect entries groups) ≡ last_of k entries (get k groups)
unfolding collect
get-collect k [] groups = refl
get-collect k ((j, g) ∷ rest) groups =
    get-collect k rest (insert j g groups) ∙ ap (last_of k rest) (get-insert j k g groups)

module _ (json : Json) (to_lowercase : Text → Text) where
  open json use {Value, field, as_bool, as_array, as_object}

  -- No access control configured lets every message through, in a group with or without a
  -- mention. An `allowed_users` that is no array shuts out every direct message.
  pub from_options_defaults :
      (options : Value) (s : SenderIdentity) (chat : ℤ) (is_group mentioned : Bool)
      → (field (bytes "access_control") options ≡ none
          → evaluate_access (from_options json to_lowercase options) chat s is_group mentioned
            ≡ allow)
        × ((ac users : Value)
            → field (bytes "access_control") options ≡ some ac
            → field (bytes "allowed_users") ac ≡ some users
            → as_array users ≡ none
            → evaluate_access (from_options json to_lowercase options) chat s false mentioned
              ≡ deny dm_sender_not_allowed)
  unfolding evaluate_access from_options default matches_any matches get parse_allowlist
  from_options_defaults options s chat is_group mentioned =
      (λ h. ground arith, λ ac users h g f. ground arith)

  -- No later entry of the list is for the chat.
  abbrev pub NoneFor : ℤ → List (Text × Value) → Type 0
  NoneFor chat [] = Unit {0}
  NoneFor chat ((key, v) ∷ rest) = (parse_i64 key ≢ some chat) × NoneFor chat rest

  last_of-none :
      (chat : ℤ) (rest : List (Text × Value)) (found : Option GroupConfig)
      → NoneFor chat rest
      → last_of chat (filter_map (parse_group json to_lowercase) rest) found ≡ found
  unfolding parse_group
  last_of-none chat [] found h = refl
  last_of-none chat ((key, v) ∷ rest) found h = elim (Option-cases (parse_i64 key)) [
    | inl e ↦ ground (arith, last_of-none chat rest found h.1)
    | inr (k, e) ↦ ground (arith, h.0, int_eqb_iff k chat, last_of-none chat rest found h.1)
  ]

  last_of-append :
      (chat : ℤ) (key : Text) (v : Value) (before after : List (Text × Value))
      (found : Option GroupConfig)
      → parse_i64 key ≡ some chat
      → NoneFor chat after
      → last_of chat (filter_map (parse_group json to_lowercase) (before ++ (key, v) ∷ after)) found
        ≡ some (group_config json to_lowercase v)
  unfolding parse_group
  last_of-append chat key v [] after found e h =
      let own = some (group_config json to_lowercase v) in
      ground (arith, int_eqb_iff chat chat, last_of-none chat after own h)
  last_of-append chat key v ((key', v') ∷ before) after found e h =
      elim (Option-cases (parse_i64 key')) [
        | inl e' ↦ ground (arith, last_of-append chat key v before after found e h)
        | inr (k, e') ↦
            let own = some (group_config json to_lowercase v') in
            ground (
              arith,
              last_of-append chat key v before after found e h,
              last_of-append chat key v before after own e h,
            )
      ]

  configured_group :
      (options ac gs v : Value) (key : Text) (chat : ℤ) (before after : List (Text × Value))
      → field (bytes "access_control") options ≡ some ac
      → field (bytes "groups") ac ≡ some gs
      → as_object gs ≡ some (before ++ (key, v) ∷ after)
      → parse_i64 key ≡ some chat
      → NoneFor chat after
      → get chat (from_options json to_lowercase options).groups
        ≡ some (group_config json to_lowercase v)
  unfolding from_options parse_groups get
  configured_group options ac gs v key chat before after h g o k n =
      rw (h, from_options)
        (rw (g, parse_groups)
          (rw (o, parse_groups)
            (get-collect chat _ [] ∙ last_of-append chat key v before after none k n)))

  disabled_config :
      (v e : Value)
      → field (bytes "enabled") v ≡ some e
      → as_bool e ≡ some false
      → (group_config json to_lowercase v).enabled ≡ false
  unfolding group_config bool_field
  disabled_config v e f b = ground arith

  -- A chat is governed by the last entry of `groups` whose key is its number: if that entry says
  -- `enabled: false`, every message in the chat is refused, whoever writes it.
  pub disabled_group :
      (options ac gs v e : Value) (key : Text) (chat : ℤ) (before after : List (Text × Value))
      (s : SenderIdentity) (mentioned : Bool)
      → field (bytes "access_control") options ≡ some ac
      → field (bytes "groups") ac ≡ some gs
      → as_object gs ≡ some (before ++ (key, v) ∷ after)
      → parse_i64 key ≡ some chat
      → NoneFor chat after
      → field (bytes "enabled") v ≡ some e
      → as_bool e ≡ some false
      → evaluate_access (from_options json to_lowercase options) chat s true mentioned
        ≡ deny group_disabled
  unfolding evaluate_access
  disabled_group options ac gs v e key chat before after s mentioned h g o k n f b = ground (
    arith,
    configured_group options ac gs v key chat before after h g o k n,
    disabled_config v e f b,
  )

lower-lower : (s : Text) → map lower (map lower s) ≡ map lower s
lower-lower [] = refl
lower-lower (c ∷ s) = ground (arith, lower-lower s)

abbrev pub IsAscii : Text → Type 0
IsAscii [] = Unit {0}
IsAscii (c ∷ s) = (c < 128) × IsAscii s

-- An entry "@name" of the options admits the sender of that name, in whatever case either is
-- written, for an ASCII name that is not empty. It assumes of Unicode lower-casing that it is the
-- ASCII one on ASCII text.
pub username_entry :
    (json : Json) (to_lowercase : Text → Text)
    → ((t : Text) → IsAscii t → to_lowercase t ≡ map lower t)
    → (name other : Text) (s : SenderIdentity) → name ≢ []
    → IsAscii name
    → s.username ≡ some other
    → map lower other ≡ map lower name
    → (e : AllowlistEntry) × (parse_allowlist_text json to_lowercase (b'@' ∷ name) ≡ some e)
      × (matches s e ≡ true)
unfolding parse_allowlist_text parse_i64 matches list_eqb strip_at
username_entry json to_lowercase lowers [] other s h a u l = absurd (h refl)
username_entry json to_lowercase lowers (c ∷ name) other s h a u l = (
  username (to_lowercase (c ∷ name)),
  refl,
  rw (u, matches)
      ((list_eqb_iff (map lower other) (map lower (to_lowercase (c ∷ name)))).0
        (l ∙ sym (lower-lower (c ∷ name)) ∙ ap (map lower) (sym (lowers (c ∷ name) a)))),
)
