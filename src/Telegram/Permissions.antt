-- ===== src/Telegram/Permissions.antt =====
-- ext/channels/telegram/src/permissions.rs: the data of a permission button, which Telegram limits
-- to 64 bytes, and how it is read when the button is pressed. The sending of the answer is not
-- modelled.
pub mod Buttons
use protoclaw.Base.{
  ℕ, zero, suc, ◌+◌, ◌-◌, ◌%◌, ◌^◌, Bool, true, false, ◌&&◌, Option, none, some, List, [], ◌∷◌,
  ◌++◌, if◌then◌else◌, length, ltb, leb, nat_eqb,
}
use protoclaw.Base.Text.{Text}

-- A byte of UTF-8 that goes on with the character before it.
abbrev pub is_continuation : ℕ → Bool
is_continuation c = leb 128 c && ltb c 192

-- `chars().take(n).collect()` on the bytes of a string.
unfoldable pub take_chars : ℕ → Text → Text
take_chars n [] = []
take_chars zero (c ∷ s) = let same = take_chars zero s in if is_continuation c then c ∷ same else []
take_chars (suc n) (c ∷ s) =
    let same = take_chars (suc n) s in
    let later = take_chars n s in if is_continuation c then c ∷ same else c ∷ later

abbrev button_text : Text → Text → Text
button_text request_id option_id = request_id ++ (b':' ∷ option_id)

-- `64 - 1 - option_id.len()` in `usize`, wrapping around as in a release build.
abbrev pub max_req_len : Text → ℕ
max_req_len option_id =
    if leb (length option_id) 63
    then 63 - length option_id
    else (2 ^ 64 + 63 - length option_id) % 2 ^ 64

-- The callback data of the button of an option, as in `build_permission_keyboard`.
unfoldable pub callback_data : Text → Text → Text
unfolding take_chars
callback_data request_id option_id =
    if ltb 64 (length (button_text request_id option_id))
    then button_text (take_chars (max_req_len option_id) request_id) option_id
    else button_text request_id option_id

-- What stands before and behind the last colon.
unfoldable pub parse_callback_data : Text → Option (Text × Text)
parse_callback_data [] = none
parse_callback_data (c ∷ s) =
    let later = parse_callback_data s in
    elim later [
      | some (request_id, option_id) ↦ some (c ∷ request_id, option_id)
      | none ↦ if nat_eqb c b':' then some ([], s) else none
    ]
