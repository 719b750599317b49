-- ===== src/Supervisor/Health.antt =====
-- crates/anyclaw-core/src/health.rs and `refresh_health_snapshot` of
-- crates/anyclaw-supervisor/src/health.rs. The names are the keys of the configuration's maps; the
-- names of the MCP servers are those of its enabled tools of that type.
use protoclaw.Base.{Bool, true, false, not, ◌&&◌, none, some, List, [], map, any, if◌then◌else◌}
use protoclaw.Base.Text.{Text}
use protoclaw.Base.{ℕ}
use protoclaw.Supervisor.{Name, agents, channels, ManagerSlot}
use protoclaw.Supervisor.Boot.{is_name}

pub data HealthStatus : Type 0 where
  healthy degraded : HealthStatus

pub record AgentHealth : Type 0 where
  pub name : Text
  pub connected : Bool
  pub session_count : ℕ

pub record HealthSnapshot : Type 0 where
  pub status : HealthStatus
  pub agents : List AgentHealth
  pub channels : List Text
  pub mcp_servers : List Text

module _ {Token : Type 0} (child_token : Token → Token) (root : Token) where
  -- The slot of the manager has a task, whether it runs or has finished.
  unfoldable pub has_task : Name → ManagerSlot child_token root → Bool
  unfolding is_name
  has_task name slot =
      is_name name slot.name && elim slot.join_handle [ none ↦ false | some task ↦ true ]

  unfoldable pub refresh_health_snapshot :
      (agent_names channel_names mcp_names : List Text)
      → List (ManagerSlot child_token root)
      → HealthSnapshot
  unfolding has_task
  refresh_health_snapshot agent_names channel_names mcp_names slots =
      let connected = any (has_task agents) slots in
      let health : List AgentHealth =
        map (λ name. record { name = name; connected = connected; session_count = 0 })
          agent_names in
      record {
        status = if any (λ a. not a.connected) health then degraded else healthy;
        agents = health;
        channels = if any (has_task channels) slots then channel_names else [];
        mcp_servers = mcp_names;
      }
