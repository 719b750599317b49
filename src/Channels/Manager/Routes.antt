-- ===== src/Channels/Manager/Routes.antt =====
-- The routes of crates/anyclaw-channels/src/manager.rs: an entry of the routing table and the
-- slot that its index names.
use protoclaw.Base.{
  ◌≡◌, refl, ◌⊎◌, inl, inr, none, some, List, [], ◌∷◌, length, ◌<◌, get_elem?, nat_eq, list_eq,
  Option-cases, arith, ℕ, zero, suc,
}
use protoclaw.Base.Map.{get}
use protoclaw.SdkTypes.SessionKey.{SessionKey}
use protoclaw.Channels.Manager.{RoutingEntry, Outside, ChannelSlot, Sent, ChannelsManager, on_entry}

pub get_elem?-within :
    {A : Type 0} (xs : List A) (i : ℕ) → i < length xs → (x : A) × (get_elem? xs i ≡ some x)
get_elem?-within [] i h = absurd (omega (arith, h))
get_elem?-within (x ∷ xs) zero h = (x, refl)
get_elem?-within (x ∷ xs) (suc i) h = get_elem?-within xs i (omega (arith, h))

pub get_elem?-lt :
    {A : Type 0} (xs : List A) (i : ℕ) (x : A) → get_elem? xs i ≡ some x → i < length xs
get_elem?-lt [] i x e = absurd (ground (arith, e))
get_elem?-lt (y ∷ xs) zero x e = omega arith
get_elem?-lt (y ∷ xs) (suc i) x e = omega (arith, get_elem?-lt xs i x e)

module _ (out : Outside) where
  -- Every route leads to a slot.
  abbrev pub Routable : ChannelsManager out → Type 0
  Routable m =
      (key : SessionKey) (entry : RoutingEntry)
      → get key m.routing_table ≡ some entry
      → entry.slot_index < length m.slots

  abbrev pub Found : ChannelsManager out → SessionKey → RoutingEntry → ChannelSlot out → Type 0
  Found m key entry slot =
      (get key m.routing_table ≡ some entry) × (get_elem? m.slots entry.slot_index ≡ some slot)

  pub route-cases :
      (m : ChannelsManager out) (key : SessionKey)
      → Routable m
      → (get key m.routing_table ≡ none)
        ⊎ ((entry : RoutingEntry) × (slot : ChannelSlot out) × Found m key entry slot)
  route-cases m key r = elim (Option-cases (get key m.routing_table)) [
    | inl n ↦ inl n
    | inr (entry, e) ↦
        let (slot, s) = get_elem?-within m.slots entry.slot_index (r key entry e) in
        inr (entry, slot, (e, s))
  ]

  pub on_entry-none :
      (m : ChannelsManager out) (key : SessionKey)
      (f : RoutingEntry → ChannelSlot out → List (Sent out))
      → get key m.routing_table ≡ none
      → on_entry out m key f ≡ some []
  unfolding on_entry
  on_entry-none m key f n = rw (on_entry, n) refl

  pub on_entry-Found :
      (m : ChannelsManager out) (key : SessionKey)
      (f : RoutingEntry → ChannelSlot out → List (Sent out)) (entry : RoutingEntry)
      (slot : ChannelSlot out)
      → Found m key entry slot
      → on_entry out m key f ≡ some (f entry slot)
  unfolding on_entry
  on_entry-Found m key f entry slot (e, s) = rw (on_entry, e, s) refl

  pub on_entry_runs :
      (m : ChannelsManager out) (key : SessionKey)
      (f : RoutingEntry → ChannelSlot out → List (Sent out))
      → Routable m
      → (sent : List (Sent out)) × (on_entry out m key f ≡ some sent)
  on_entry_runs m key f r = elim (route-cases m key r) [
    | inl n ↦ ([], on_entry-none m key f n)
    | inr (entry, slot, found) ↦ (f entry slot, on_entry-Found m key f entry slot found)
  ]
