-- ===== src/SdkTypes/Tests.antt =====
-- An instance of the theorem on session keys.
use protoclaw.Base.{arith}
use protoclaw.Base.Text.{Text, bytes}
use protoclaw.SdkTypes.SessionKey.Laws.{NoColon}

abbrev telegram : Text
telegram = bytes "tg"

abbrev direct : Text
direct = bytes "dm"

-- The peer's id has a colon of its own.
abbrev peer : Text
peer = bytes "4:2"

telegram-NoColon : NoColon telegram
telegram-NoColon = (λ e. ground arith, (λ e. ground arith, tt))

direct-NoColon : NoColon direct
direct-NoColon = (λ e. ground arith, (λ e. ground arith, tt))
