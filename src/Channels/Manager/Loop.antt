-- ===== src/Channels/Manager/Loop.antt =====
-- crates/anyclaw-channels/src/manager.rs: the loop of `run`. The streams are those of the slots
-- whose frames the loop awaits; a stream ends when its subprocess exits.
pub mod Slots
pub mod Bounds
use protoclaw.Base.{
  ℕ, suc, Bool, true, false, Option, none, some, List, [], ◌∷◌, ◌++◌, get_elem?, if◌then◌else◌,
  nat_eq, list_eq,
}
use protoclaw.Base.Map.{Set, contains, add, discard}
use protoclaw.Base.Text.{Text}
use protoclaw.Channels.Manager.{Outside, ChannelSlot, Sent, ChannelsManager, Outcome}
use protoclaw.Channels.Manager.Events.{
  ChannelEvent, ChannelsCommand, handle_channel_event, handle_command, shutdown_all,
}
use protoclaw.Channels.Manager.Forward.{Answers}
use protoclaw.Channels.Manager.Collect.{collect_channel_message}
use protoclaw.Channels.Manager.Crash.{Spawned, handle_channel_crash}

module _ (out : Outside) (cancel : out.Token → out.Token) where
  pub data Input : Type 0 where
    cancelled : Input
    command : ChannelsCommand out → Input
    event : ChannelEvent out → Input
    incoming : Answers → ℕ → Text → Option out.json.Value → Input
    exited : (now later : ℕ) → Spawned out → ℕ → Input

  pub record Loop : Type 0 where
    pub manager : ChannelsManager out
    pub streams : Set ℕ
    pub running : Bool

  indices : ℕ → List (ChannelSlot out) → Set ℕ
  indices i [] = []
  indices i (slot ∷ slots) =
      let rest = indices (suc i) slots in elim slot.connection [ none ↦ rest | some c ↦ i ∷ rest ]

  unfoldable pub start_loop : ChannelsManager out → Loop
  unfolding indices
  start_loop m = record { manager = m; streams = indices 0 m.slots; running = true }

  unfoldable pub with_manager : Loop → Outcome out → Option (Loop × List (Sent out))
  with_manager l none = none
  with_manager l (some (m, sent)) = some (record l { manager = m }, sent)

  unfoldable pub after_command :
      Loop → Option (ChannelsManager out × List (Sent out) × Bool) → Option (Loop × List (Sent out))
  after_command l none = none
  after_command l (some (m, sent, stop)) =
      some (record l { manager = m; running = if stop then false else l.running }, sent)

  -- The stream of the slot is awaited again if the slot has a connection.
  unfoldable pub reawait : ℕ → ChannelsManager out → Set ℕ → Set ℕ
  reawait slot_index m streams = elim (get_elem? m.slots slot_index) [
    | none ↦ streams
    | some slot ↦ elim slot.connection [ none ↦ streams | some c ↦ add slot_index streams ]
  ]

  unfoldable pub after_exit :
      ℕ → Loop → Option (ChannelsManager out) → Option (Loop × List (Sent out))
  unfolding reawait
  after_exit slot_index l none = none
  after_exit slot_index l (some m) =
      some (
        record l { manager = m; streams = reawait slot_index m (discard slot_index l.streams) },
        [],
      )

  -- One turn of the loop. Nothing comes from a slot whose stream is not awaited.
  unfoldable pub turn : Input → Loop → Option (Loop × List (Sent out))
  unfolding with_manager after_command after_exit shutdown_all handle_command handle_channel_event
      collect_channel_message handle_channel_crash
  turn cancelled l = some (
    record l {
      manager = record l.manager { slots = shutdown_all out cancel l.manager.slots };
      running = false;
    },
    [],
  )
  turn (command c) l = after_command l (handle_command out cancel c l.manager)
  turn (event e) l = with_manager l (handle_channel_event out e l.manager)
  turn (incoming a slot_index method params) l =
      if contains slot_index l.streams
      then with_manager l (collect_channel_message out a slot_index method params l.manager)
      else some (l, [])
  turn (exited now later spawned slot_index) l =
      if contains slot_index l.streams
      then after_exit slot_index l (handle_channel_crash out now later spawned slot_index l.manager)
      else some (l, [])

  -- The turns until the manager stops, with all that is sent.
  unfoldable pub run : List Input → Loop → Option (Loop × List (Sent out))
  unfolding turn
  run [] l = some (l, [])
  run (input ∷ inputs) l =
      if l.running
      then elim (turn input l) [
        | none ↦ none
        | some (l', sent) ↦ elim (run inputs l') [
          | none ↦ none
          | some (l'', more) ↦ some (l'', sent ++ more)
        ]
      ]
      else some (l, [])
