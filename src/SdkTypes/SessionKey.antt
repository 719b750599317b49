-- ===== src/SdkTypes/SessionKey.antt =====
-- crates/anyclaw-sdk-types/src/session_key.rs. A key is its text.
pub mod Laws
use protoclaw.Base.{
  ℕ, Bool, true, false, Option, none, some, List, [], ◌∷◌, ◌++◌, if◌then◌else◌, ltb, nat_eqb,
  count_where,
}
use protoclaw.Base.Text.{Text, bytes}

abbrev pub SessionKey : Type 0
SessionKey = Text

abbrev pub is_colon : ℕ → Bool
is_colon c = nat_eqb c b':'

-- format!("{channel_name}:{kind}:{peer_id}")
unfoldable pub new : Text → Text → Text → SessionKey
new channel_name kind peer_id = channel_name ++ (b':' ∷ (kind ++ (b':' ∷ peer_id)))

-- `split(':').next()`: what stands before the first colon.
unfoldable pub channel_name : SessionKey → Text
channel_name [] = []
channel_name (c ∷ s) = let rest = channel_name s in if is_colon c then [] else c ∷ rest

-- `none` is the error of a text with fewer than two colons.
unfoldable pub from_str : Text → Option SessionKey
from_str s = if ltb (count_where is_colon s) 2 then none else some s
