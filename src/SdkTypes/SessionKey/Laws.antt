-- ===== src/SdkTypes/SessionKey/Laws.antt =====
-- Session keys keep the parts that they are made of.
use protoclaw.Base.{◌≡◌, refl, ◌≢◌, some, [], ◌∷◌, ◌++◌, arith, count_where-append}
use protoclaw.Base.Text.{Text}
use protoclaw.SdkTypes.SessionKey.{is_colon, new, channel_name, from_str}

abbrev pub NoColon : Text → Type 0
NoColon [] = Unit {0}
NoColon (c ∷ s) = (c ≢ b':') × NoColon s

channel_name-append : (s rest : Text) → NoColon s → channel_name (s ++ (b':' ∷ rest)) ≡ s
unfolding channel_name
channel_name-append [] rest h = refl
channel_name-append (c ∷ s) rest h = ground (arith, h.0, channel_name-append s rest h.1)

-- A list up to its first colon, and what follows, are determined by the whole.
split_unique :
    (s t rest rest' : Text)
    → NoColon s
    → NoColon t
    → s ++ (b':' ∷ rest) ≡ t ++ (b':' ∷ rest')
    → (s ≡ t) × (rest ≡ rest')
split_unique [] [] rest rest' h g e = (refl, cc)
split_unique [] (d ∷ t) rest rest' h g e = ground (arith, g.0)
split_unique (c ∷ s) [] rest rest' h g e = ground (arith, h.0)
split_unique (c ∷ s) (d ∷ t) rest rest' h g e = ground (arith, split_unique s t rest rest' h.1 g.1)

-- A key made of a channel name without a colon parses back to itself and gives the channel name
-- back; and keys are equal only if all three parts are, for channel names and kinds with no colon.
pub new_parts :
    (channel kind peer channel' kind' peer' : Text)
    → NoColon channel
    → NoColon channel'
    → NoColon kind
    → NoColon kind'
    → (from_str (new channel kind peer) ≡ some (new channel kind peer))
      × (channel_name (new channel kind peer) ≡ channel)
      × (new channel kind peer ≡ new channel' kind' peer'
          → (channel ≡ channel') × (kind ≡ kind') × (peer ≡ peer'))
unfolding new from_str
new_parts channel kind peer channel' kind' peer' c c' k k' = (
  ground (
    arith,
    count_where-append is_colon channel (b':' ∷ (kind ++ (b':' ∷ peer))),
    count_where-append is_colon kind (b':' ∷ peer),
  ),
  channel_name-append channel _ c,
  λ e.
      let (first, rest) = split_unique channel channel' _ _ c c' e in
      let (second, third) = split_unique kind kind' peer peer' k k' rest in (first, second, third),
)
