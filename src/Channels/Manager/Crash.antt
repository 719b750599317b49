-- ===== src/Channels/Manager/Crash.antt =====
-- crates/anyclaw-channels/src/manager.rs: the exit of a channel's subprocess, its restart, and the
-- start of the channels. The outcome of starting a subprocess (`spawn_and_initialize`) is an
-- answer; the wait before it takes no step. The order of the defaults is the map's.
use protoclaw.Base.{
  ℕ, zero, suc, Bool, false, Option, none, some, List, [], ◌∷◌, get_elem?, not, any, nat_eq,
  list_eq,
}
use protoclaw.Base.Map.{Map, get, insert}
use protoclaw.Base.Text.{Text}
use protoclaw.Core.SlotLifecycle.{SlotLifecycle, CrashAction, restart_after, record_crash_and_check}
use protoclaw.Core.Backoff.{reset}
use protoclaw.Channels.Manager.{Outside, ChannelSlot, ChannelsManager}

unfoldable pub set_elem : {A : Type 0} → ℕ → A → List A → List A
set_elem i y [] = []
set_elem zero y (x ∷ xs) = y ∷ xs
set_elem (suc i) y (x ∷ xs) = x ∷ set_elem i y xs

-- `options.entry(k).or_insert(v)` for each of the defaults.
unfoldable pub merge_defaults : {V : Type 0} → Map Text V → Map Text V → Map Text V
merge_defaults [] options = options
merge_defaults ((k, v) ∷ defaults) options =
    let added = insert k v options in
    merge_defaults defaults (elim (get k options) [ none ↦ added | some old ↦ options ])

module _ (out : Outside) where
  open out use {json, Connection, Token}

  -- A started subprocess, with the defaults of its options.
  abbrev pub Spawned : Type 0
  Spawned = Option (Connection × Option (Map Text json.Value))

  unfoldable pub merged : Option (Map Text json.Value) → Map Text json.Value → Map Text json.Value
  unfolding merge_defaults
  merged none options = options
  merged (some defaults) options = merge_defaults defaults options

  unfoldable pub respawned : Spawned → SlotLifecycle Token → ChannelSlot out → ChannelSlot out
  unfolding merged
  respawned none l slot = record slot { lifecycle = l; connection = none }
  respawned (some (conn, defaults)) l slot = record slot {
    lifecycle = record l { backoff = reset l.backoff };
    connection = some conn;
    options = merged defaults slot.options;
  }

  -- `none` is the panic of the backoff.
  unfoldable pub crash_slot : (now later : ℕ) → Spawned → ChannelSlot out → Option (ChannelSlot out)
  unfolding record_crash_and_check respawned
  crash_slot now later spawned slot = elim (record_crash_and_check now later slot.lifecycle) [
    | none ↦ none
    | some (l, CrashAction.disabled) ↦ some (record slot { lifecycle = l; connection = none })
    | some (l, restart_after delay) ↦ some (respawned spawned l slot)
  ]

  unfoldable pub handle_channel_crash :
      (now later : ℕ) → Spawned → ℕ → ChannelsManager out → Option (ChannelsManager out)
  unfolding crash_slot set_elem
  handle_channel_crash now later spawned slot_index m = elim (get_elem? m.slots slot_index) [
    | none ↦ none
    | some slot ↦ elim (crash_slot now later spawned slot) [
      | none ↦ none
      | some slot' ↦ some (record m { slots = set_elem slot_index slot' m.slots })
    ]
  ]

  -- The subset of a channel's configuration that decides its slot.
  pub record ChannelConfig : Type 0 where
    pub enabled : Bool
    pub agent : Text
    pub options : Map Text json.Value

  unfoldable pub start_channel_slot :
      Spawned → Text → ChannelConfig → SlotLifecycle Token → ChannelSlot out
  unfolding merged
  start_channel_slot none name config l = record {
    name = name;
    agent = config.agent;
    options = config.options;
    connection = none;
    channel_id = name;
    lifecycle = l;
  }
  start_channel_slot (some (conn, defaults)) name config l = record {
    name = name;
    agent = config.agent;
    options = merged defaults config.options;
    connection = some conn;
    channel_id = name;
    lifecycle = l;
  }

  unfoldable pub is_healthy : ChannelSlot out → Bool
  is_healthy slot = elim slot.connection [ none ↦ false | some c ↦ not slot.lifecycle.disabled ]

  unfoldable pub health_check : ChannelsManager out → Bool
  unfolding is_healthy
  health_check m = any is_healthy m.slots
