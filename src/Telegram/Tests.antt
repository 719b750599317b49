-- ===== src/Telegram/Tests.antt =====
-- Instances of the theorems on permission buttons.
mod Formats
mod Turns
mod Splits
use protoclaw.Base.{ℕ, zero, suc, ◌≡◌, ◌≢◌, some, [], ◌∷◌, arith, length}
use protoclaw.Base.Text.{Text, bytes}
use protoclaw.SdkTypes.SessionKey.Laws.{NoColon}
use protoclaw.Telegram.Permissions.{callback_data, parse_callback_data}
use protoclaw.Telegram.Permissions.Buttons.{OneByte, parse-callback_data}

abbrev allow_option : Text
allow_option = bytes "ok"

allow-NoColon : NoColon allow_option
allow-NoColon = (λ e. ground arith, (λ e. ground arith, tt))

parse-callback_data_example :
    parse_callback_data (callback_data (bytes "7:1") allow_option)
    ≡ some (bytes "7:1", allow_option)
parse-callback_data_example =
    parse-callback_data (bytes "7:1") allow_option allow-NoColon (omega arith)

abbrev digits : ℕ → Text
digits zero = []
digits (suc n) = b'7' ∷ digits n

digits-OneByte : (n : ℕ) → OneByte (digits n)
digits-OneByte zero = tt
digits-OneByte (suc n) = (omega arith, digits-OneByte n)

-- An id of 70 digits.
