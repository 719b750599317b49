-- ===== src/Config/Hosts.antt =====
-- crates/anyclaw-config/src/validate.rs: `is_valid_host`. The parser of IP addresses is a parameter.
use protoclaw.Base.{
  ℕ, Bool, true, false, not, ◌&&◌, ◌||◌, none, some, List, [], ◌∷◌, length, is_empty, if◌then◌else◌,
  leb, ltb, nat_eqb,
}
use protoclaw.Base.Text.{Text}
use protoclaw.Config.{Outside, split_last}

-- `split('.')`.
unfoldable pub split_dots : Text → List Text
split_dots [] = [] ∷ []
split_dots (c ∷ s) =
    let rest = split_dots s in
    if nat_eqb c b'.'
    then [] ∷ rest
    else elim rest [ [] ↦ (c ∷ []) ∷ [] | label ∷ labels ↦ (c ∷ label) ∷ labels ]

unfoldable pub all : {A : Type 0} → (A → Bool) → List A → Bool
all p [] = true
all p (x ∷ xs) = p x && all p xs

-- `is_ascii_alphanumeric`, or a hyphen.
unfoldable pub is_label_char : ℕ → Bool
is_label_char c =
    (leb b'0' c && leb c b'9')
    || (leb b'A' c && leb c b'Z')
    || (leb b'a' c && leb c b'z')
    || nat_eqb c b'-'

unfoldable pub starts_with_hyphen : Text → Bool
starts_with_hyphen [] = false
starts_with_hyphen (c ∷ s) = nat_eqb c b'-'

unfoldable pub ends_with_hyphen : Text → Bool
unfolding split_last
ends_with_hyphen s = elim (split_last s) [ none ↦ false | some (t, c) ↦ nat_eqb c b'-' ]

unfoldable pub is_valid_label : Text → Bool
unfolding all is_label_char starts_with_hyphen ends_with_hyphen
is_valid_label label =
    not (is_empty label)
    && leb (length label) 63
    && all is_label_char label
    && not (starts_with_hyphen label)
    && not (ends_with_hyphen label)

module _ (out : Outside) where
  unfoldable pub is_valid_host : Text → Bool
  unfolding all split_dots is_valid_label
  is_valid_host host =
      if is_empty host
      then false
      else if out.is_ip host
      then true
      else if ltb 253 (length host)
      then false
      else all is_valid_label (split_dots host)
