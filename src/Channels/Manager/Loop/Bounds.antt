-- ===== src/Channels/Manager/Loop/Bounds.antt =====
-- The loop of the channels manager runs on without a panic, and its routes and streams stay
-- within the slots.
use protoclaw.Base.{
  ◌≡◌, refl, sym, subst, inl, inr, ℕ, Bool, true, false, Option, some, List, [], ◌∷◌, ◌++◌, length,
  ◌<◌, ◌=?◌, nat_eq, list_eq, Bool-cases, Option-cases, arith,
}
use protoclaw.Base.Map.{Set, contains, add, discard, contains-add, contains-discard}
use protoclaw.Channels.Manager.{
  Outside, ChannelSlot, ChannelsManager, Sent, Outcome, deliver_message, forwarded,
  request_permission, notify,
}
use protoclaw.Channels.Manager.Routes.{Routable, get_elem?-within, on_entry_runs}
use protoclaw.Channels.Manager.Events.{
  ChannelsCommand, deliver_to_channel, permission_to_channel, shutdown, handle_command,
  shutdown_all, handle_channel_event,
}
use protoclaw.Channels.Manager.Events.Steps.{after, event_runs}
use protoclaw.Channels.Manager.Collect.Routing.{Runs}
use protoclaw.Channels.Manager.Collect.Runs.{collect_channel_message-Runs}
use protoclaw.Channels.Manager.Crash.{Spawned, handle_channel_crash, set_elem}
use protoclaw.Channels.Manager.Loop.{
  Input, cancelled, command, event, incoming, exited, Loop, with_manager, after_command, reawait,
  after_exit, turn, run,
}
use protoclaw.Channels.Manager.Loop.Slots.{
  AllDouble, get_elem?-AllDouble, set_elem-AllDouble, length-set_elem, crash_slot_runs,
  shutdown_all-kept,
}

module _ (out : Outside) (cancel : out.Token → out.Token) where
  abbrev Within : Set ℕ → ChannelsManager out → Type 0
  Within streams m = (i : ℕ) → contains i streams ≡ true → i < length m.slots

  -- Routes and streams lead to slots, and no delay of a slot leaves the range of `Duration`.
  abbrev pub Valid : Loop out cancel → Type 0
  Valid l = Routable out l.manager × AllDouble out l.manager.slots × Within l.streams l.manager

  abbrev Goes : Option (Loop out cancel × List (Sent out)) → Type 0
  Goes o = (l : Loop out cancel) × (sent : List (Sent out)) × (o ≡ some (l, sent)) × Valid l

  -- Other slots, as many as before.
  reslotted-Routable :
      (m : ChannelsManager out) (slots : List (ChannelSlot out))
      → length slots ≡ length m.slots
      → Routable out m
      → Routable out (record m { slots = slots })
  reslotted-Routable m slots e r key entry g = omega (arith, e, r key entry g)

  reslotted-Within :
      (streams : Set ℕ) (m : ChannelsManager out) (slots : List (ChannelSlot out))
      → length slots ≡ length m.slots
      → Within streams m
      → Within streams (record m { slots = slots })
  reslotted-Within streams m slots e w i h = omega (arith, e, w i h)

  with_manager-Goes :
      (l : Loop out cancel) (o : Outcome out)
      → Valid l
      → Runs out l.manager o
      → Goes (with_manager out cancel l o)
  unfolding with_manager
  with_manager-Goes l o (r, d, w) (m, sent, e, k, r') = (
    record l { manager = m },
    sent,
    rw (e) refl,
    (r', subst (AllDouble out) (sym k) d, λ i h. subst (λ s. i < length s) (sym k) (w i h)),
  )

  shutdown-Valid :
      (l : Loop out cancel) (running : Bool)
      → Valid l
      → Valid (record l {
        manager = record l.manager { slots = shutdown_all out cancel l.manager.slots };
        running = running;
      })
  shutdown-Valid l running (r, d, w) =
      let (e, d') = shutdown_all-kept out cancel l.manager.slots d in
      let slots = shutdown_all out cancel l.manager.slots in
      (reslotted-Routable l.manager slots e r, d', reslotted-Within l.streams l.manager slots e w)

  command_runs :
      (c : ChannelsCommand out) (l : Loop out cancel)
      → Valid l
      → Goes (after_command out cancel l (handle_command out cancel c l.manager))
  unfolding handle_command after_command
  command_runs (deliver_to_channel key content) l v =
      let (sent, q) =
        on_entry_runs out l.manager key
          (λ entry slot. notify out slot (deliver_message entry.acp_session_id (forwarded content)))
          v.0 in
      (l, sent, rw (handle_command, q) refl, v)
  command_runs (permission_to_channel key id description options) l v =
      let (sent, q) =
        on_entry_runs out l.manager key
          (λ entry slot.
            notify out slot (request_permission id entry.acp_session_id description options))
          v.0 in
      (l, sent, rw (handle_command, q) refl, v)
  command_runs shutdown l v = (
    record l {
      manager = record l.manager { slots = shutdown_all out cancel l.manager.slots };
      running = false;
    },
    [],
    refl,
    shutdown-Valid l false v,
  )

  discard-Within :
      (i : ℕ) (streams : Set ℕ) (m : ChannelsManager out)
      → Within streams m
      → Within (discard i streams) m
  discard-Within i streams m w j h = w j (ground (arith, h, contains-discard i j streams))

  add-Within :
      (i : ℕ) (streams : Set ℕ) (m : ChannelsManager out)
      → i < length m.slots
      → Within streams m
      → Within (add i streams) m
  add-Within i streams m b w j h = elim (Bool-cases (i =? j)) [
    | inl t ↦ ground (arith, t, b)
    | inr f ↦ w j (ground (arith, h, f, contains-add i j streams))
  ]

  reawait-Within :
      (i : ℕ) (m : ChannelsManager out) (streams : Set ℕ)
      → i < length m.slots
      → Within streams m
      → Within (reawait out cancel i m (discard i streams)) m
  unfolding reawait
  reawait-Within i m streams h w =
      let (slot, s) = get_elem?-within m.slots i h in
      elim (Option-cases slot.connection) [
        | inl n ↦ rw (reawait, s, n) (discard-Within i streams m w)
        | inr (c, e) ↦
            rw (reawait, s, e) (add-Within i (discard i streams) m h (discard-Within i streams m w))
      ]

  exit_runs :
      (now later : ℕ) (spawned : Spawned out) (i : ℕ) (l : Loop out cancel)
      → Valid l
      → i < length l.manager.slots
      → Goes (after_exit out cancel i l (handle_channel_crash out now later spawned i l.manager))
  unfolding handle_channel_crash after_exit
  exit_runs now later spawned i l (r, d, w) h =
      let (slot, s) = get_elem?-within l.manager.slots i h in
      let (slot', e, d') =
        crash_slot_runs out now later spawned slot
          (get_elem?-AllDouble out l.manager.slots i slot s d) in
      let slots = set_elem i slot' l.manager.slots in
      let n = length-set_elem i slot' l.manager.slots in
      let m' : ChannelsManager out = record l.manager { slots = slots } in
      (
        record l { manager = m'; streams = reawait out cancel i m' (discard i l.streams) },
        [],
        rw (handle_channel_crash, s, e) refl,
        (
          reslotted-Routable l.manager slots n r,
          set_elem-AllDouble out i slot' l.manager.slots d' d,
          reawait-Within i m' l.streams (omega (arith, n, h))
              (reslotted-Within l.streams l.manager slots n w),
        ),
      )

  turn_runs :
      (input : Input out cancel) (l : Loop out cancel) → Valid l → Goes (turn out cancel input l)
  unfolding turn after_exit after
  turn_runs cancelled l v = (
    record l {
      manager = record l.manager { slots = shutdown_all out cancel l.manager.slots };
      running = false;
    },
    [],
    refl,
    shutdown-Valid l false v,
  )
  turn_runs (command c) l v = command_runs c l v
  turn_runs (event e) l v =
      let (sent, q) = event_runs out e l.manager v.0 in
      with_manager-Goes l (handle_channel_event out e l.manager) v
        (after out e l.manager, sent, q, refl, v.0)
  turn_runs (incoming a i method params) l v = elim (Bool-cases (contains i l.streams)) [
    | inl t ↦
        rw (turn, t)
          (with_manager-Goes l _ v
            (collect_channel_message-Runs out a i method params l.manager v.0 (v.2 i t)))
    | inr f ↦ (l, [], rw (turn, f) refl, v)
  ]
  turn_runs (exited now later spawned i) l v = elim (Bool-cases (contains i l.streams)) [
    | inl t ↦ rw (turn, t) (exit_runs now later spawned i l v (v.2 i t))
    | inr f ↦ (l, [], rw (turn, f) refl, v)
  ]

  -- From a state in which every route and every awaited stream leads to a slot and the restart
  -- delays can be doubled, any sequence of commands, events, messages, exits of channels and
  -- cancellations, with any answers, is handled to its end or to the manager's stop without a
  -- panic, and such a state is left: no handler ever indexes the slots out of bounds.
  pub run-Valid :
      (inputs : List (Input out cancel)) (l : Loop out cancel)
      → Routable out l.manager
      → AllDouble out l.manager.slots
      → Within l.streams l.manager
      → (l' : Loop out cancel) × (sent : List (Sent out)) × (run out cancel inputs l
          ≡ some (l', sent))
        × Valid l'
  unfolding run
  run-Valid [] l r d w = (l, [], refl, (r, d, w))
  run-Valid (input ∷ inputs) l r d w = elim (Bool-cases l.running) [
    | inr f ↦ (l, [], rw (run, f) refl, (r, d, w))
    | inl t ↦
        let (l', sent, e, v) = turn_runs input l (r, d, w) in
        let (l'', more, e', v') = run-Valid inputs l' v.0 v.1 v.2 in
        (l'', sent ++ more, rw (run, e, e', t) refl, v')
  ]
