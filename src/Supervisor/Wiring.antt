-- ===== src/Supervisor/Wiring.antt =====
-- What a restarted manager is connected to.
use protoclaw.Base.{◌≡◌, refl, ◌≢◌, ◌<◌, ◌≤◌, ℕ, suc, true, false, Option, none, some, arith}
use protoclaw.Base.Text.{Text}
use protoclaw.Core.SlotLifecycle.{SlotLifecycle, restart_after, record_crash_and_check}
use protoclaw.Supervisor.{
  Name, agents, channels, Manager, error, Task, running, finished, Supervisor, Answer,
  create_manager, sender_or_new, ManagerSlot, recreate, restarted, after_crash, crashed, check_slot,
}

next-sender_or_new : (o : Option ℕ) (n : ℕ) → n ≤ (sender_or_new o n).1
unfolding sender_or_new
next-sender_or_new none n = omega arith
next-sender_or_new (some tx) n = omega arith

module _ {Token : Type 0} (child_token : Token → Token) (root : Token) where
  abbrev pub slot_of : Name → Option Task → SlotLifecycle Token → ManagerSlot child_token root
  slot_of name handle l = record { name = name; join_handle = handle; lifecycle = l }

  -- Where the agents manager has crashed and the check restarts it, the new one has no sender for
  -- the events of the channels, and the supervisor goes on handing out the sender of the old one's
  -- commands: a channels manager that the next check restarts sends its commands on a channel that
  -- the new agents manager does not receive from, and it gets no events.
  pub restart-unwired :
      (a b : Answer) (x y : Text) (l l' k k' : SlotLifecycle Token) (delay delay' tx : ℕ)
      (s : Supervisor)
      → record_crash_and_check a.now a.later l ≡ some (l', restart_after delay)
      → record_crash_and_check b.now b.later k ≡ some (k', restart_after delay')
      → a.started ≡ true
      → b.started ≡ true
      → s.agents_cmd_tx ≡ some tx
      → tx < s.next_channel
      → (la : SlotLifecycle Token) × (lc : SlotLifecycle Token) × (s1 : Supervisor)
        × (s2 : Supervisor) × (ma : Manager) × (mc : Manager) × (check_slot child_token root a
              (slot_of agents (some (finished (error x))) l)
              s
            ≡ some (slot_of agents (some (running ma)) la, s1))
        × (check_slot child_token root b (slot_of channels (some (finished (error y))) k) s1
            ≡ some (slot_of channels (some (running mc)) lc, s2))
        × (ma.channel_events ≡ false)
        × (mc.channel_events ≡ false)
        × (mc.agents_cmd_tx ≢ some ma.command_rx)
  unfolding check_slot crashed after_crash restarted recreate create_manager
  restart-unwired a b x y l l' k k' delay delay' tx s e f t u h o =
      let (to_tools, n) = sender_or_new s.tools_tx s.next_channel in
      let (_, m) = sender_or_new s.tools_tx (suc n) in
      let s1 : Supervisor = record s { next_channel = suc n } in
      (
        record l' { cancel_token = child_token root },
        record k' { cancel_token = child_token root },
        s1,
        record s1 { next_channel = suc m },
        record {
          command_rx = n;
          tools_tx = some to_tools;
          agents_cmd_tx = none;
          channel_events = false;
        },
        record { command_rx = m; tools_tx = none; agents_cmd_tx = some tx; channel_events = false },
        rw (crashed, e, t) refl,
        rw (crashed, f, u, create_manager, h) refl,
        refl,
        refl,
        λ p. ground (arith, p, o, next-sender_or_new s.tools_tx s.next_channel),
      )
