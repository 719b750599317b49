-- ===== src/Supervisor/Restarts/Recreated.antt =====
-- The manager that takes the place of a crashed one.
use protoclaw.Base.{◌≡◌, refl, ℕ, suc, false, none, some}
use protoclaw.Supervisor.{
  Name, tools, agents, channels, Manager, Supervisor, create_manager, sender_or_new, recreate,
}

-- The supervisor has a sender for the commands of the agents, as after a boot.
abbrev pub HasSender : Supervisor → Type 0
HasSender s = (tx : ℕ) × (s.agents_cmd_tx ≡ some tx)

module _ {Token : Type 0} (child_token : Token → Token) (root : Token) where
  pub recreate-makes :
      (name : Name) (s : Supervisor)
      → HasSender s
      → (s' : Supervisor) × (m : Manager) × (recreate child_token root name s ≡ (s', some m))
        × (s'.root_cancelled ≡ s.root_cancelled)
        × HasSender s'
  unfolding recreate create_manager
  recreate-makes tools s h =
      let (_, n) = sender_or_new s.tools_tx s.next_channel in
      (
        record s { tools_tx = some n; next_channel = suc n },
        record { command_rx = n; tools_tx = none; agents_cmd_tx = none; channel_events = false },
        refl,
        refl,
        h,
      )
  recreate-makes agents s h =
      let (tools_tx, n) = sender_or_new s.tools_tx s.next_channel in
      (
        record s { next_channel = suc n },
        record {
          command_rx = n;
          tools_tx = some tools_tx;
          agents_cmd_tx = none;
          channel_events = false;
        },
        refl,
        refl,
        h,
      )
  recreate-makes channels s (tx, e) =
      let (_, n) = sender_or_new s.tools_tx s.next_channel in
      (
        record s { next_channel = suc n },
        record { command_rx = n; tools_tx = none; agents_cmd_tx = some tx; channel_events = false },
        rw (create_manager, e) refl,
        refl,
        (tx, e),
      )
