-- ===== src/Telegram/Permissions/Buttons.antt =====
-- What pressing a permission button gives back.
use protoclaw.Base.{
  ℕ, zero, suc, ◌+◌, ◌-◌, ◌≤◌, ◌<◌, ◌≡◌, refl, sym, ap, ◌∙◌, ◌≢◌, inl, inr, none, some, [], ◌∷◌,
  ◌++◌, arith, length, length-append, ltb, Bool-cases,
}
use protoclaw.Base.Text.{Text}
use protoclaw.SdkTypes.SessionKey.Laws.{NoColon}
use protoclaw.Telegram.Permissions.{take_chars, callback_data, parse_callback_data, max_req_len}

parse-NoColon : (s : Text) → NoColon s → parse_callback_data s ≡ none
unfolding parse_callback_data
parse-NoColon [] h = refl
parse-NoColon (c ∷ s) h = ground (arith, h.0, parse-NoColon s h.1)

parse-button :
    (request_id option_id : Text)
    → NoColon option_id
    → parse_callback_data (request_id ++ (b':' ∷ option_id)) ≡ some (request_id, option_id)
unfolding parse_callback_data
parse-button [] option_id h = ground (arith, parse-NoColon option_id h)
parse-button (c ∷ request_id) option_id h =
    rw (parse-button request_id option_id h, parse_callback_data) refl

-- Only ASCII bytes.
abbrev pub OneByte : Text → Type 0
OneByte [] = Unit {0}
OneByte (c ∷ s) = (c < 128) × OneByte s

length-take_chars : (n : ℕ) (s : Text) → OneByte s → n ≤ length s → length (take_chars n s) ≡ n
unfolding take_chars
length-take_chars zero [] h le = refl
length-take_chars (suc n) [] h le = ground arith
length-take_chars zero (c ∷ s) h le = ground (arith, h.0)
length-take_chars (suc n) (c ∷ s) h le =
    ground (arith, h.0, length-take_chars n s h.1 (omega (arith, le)))

-- Pressing a button gives back the id of the request and the option, if the option's id has no
-- colon and both fit into 64 bytes.
pub parse-callback_data :
    (request_id option_id : Text)
    → NoColon option_id
    → length request_id + length option_id ≤ 63
    → parse_callback_data (callback_data request_id option_id) ≡ some (request_id, option_id)
unfolding callback_data
parse-callback_data request_id option_id h fits =
    elim (Bool-cases (ltb 64 (length (request_id ++ (b':' ∷ option_id))))) [
      | inl t ↦ ground (arith, fits, length-append request_id (b':' ∷ option_id))
      | inr f ↦ rw (f, callback_data) (parse-button request_id option_id h)
    ]

-- What a longer id of a request, of ASCII characters, comes to: the data has exactly 64 bytes, so
-- that Telegram takes the button, but pressing it gives another id, under which no request is
-- pending.
pub long_request_lost :
    (request_id option_id : Text)
    → NoColon option_id
    → OneByte request_id
    → length option_id ≤ 63
    → 63 < length request_id + length option_id
    → (length (callback_data request_id option_id) ≡ 64)
      × ((other : Text) × (parse_callback_data (callback_data request_id option_id)
            ≡ some (other, option_id))
          × (other ≢ request_id))
unfolding callback_data
long_request_lost request_id option_id h ascii short long =
    elim (Bool-cases (ltb 64 (length (request_id ++ (b':' ∷ option_id))))) [
      | inr f ↦ ground (arith, long, length-append request_id (b':' ∷ option_id))
      | inl t ↦
          let room : max_req_len option_id ≡ 63 - length option_id = ground (arith, short) in
          let kept : length (take_chars (63 - length option_id) request_id)
              ≡ 63 - length option_id =
            length-take_chars (63 - length option_id) request_id ascii (omega (arith, long)) in
          rw (t, room, callback_data)
            (
              omega (
                arith,
                kept,
                short,
                length-append (take_chars (63 - length option_id) request_id) (b':' ∷ option_id),
              ),
              (
                take_chars (63 - length option_id) request_id,
                parse-button (take_chars (63 - length option_id) request_id) option_id h,
                λ e. omega (arith, sym kept ∙ ap length e, long, short),
              ),
            )
    ]
