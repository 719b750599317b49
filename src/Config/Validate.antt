-- ===== src/Config/Validate.antt =====
-- crates/anyclaw-config/src/validate.rs: `validate_config`. The reason of an error is the one of the
-- limit; warnings are never made.
use protoclaw.Base.{
  Bool, true, false, ◌&&◌, ◌||◌, Option, none, some, List, [], ◌∷◌, ◌++◌, nat_eqb, any,
}
use protoclaw.Base.Text.{Text, bytes}
use protoclaw.Config.Hosts.{is_valid_host}
use protoclaw.Config.{
  LocalWorkspaceConfig, DockerWorkspaceConfig, WorkspaceConfig, local, docker, AnyclawConfig,
  Outside, Limit, accepted, rejected, parse_memory_limit, parse_cpu_limit,
}

pub data ValidationError : Type 0 where
  binary_not_found : Text → Text → ValidationError
  working_dir_not_found : Text → ValidationError
  invalid_memory_limit : Text → Text → Text → ValidationError
  invalid_cpu_limit : Text → Text → Text → ValidationError
  invalid_docker_host : Text → Text → ValidationError
  invalid_volume_mount : Text → Text → ValidationError
  invalid_extra_host : Text → Text → ValidationError
  invalid_tools_server_host : Text → Text → ValidationError

abbrev pub Errors : Type 0
Errors = List ValidationError

unfoldable pub starts_with : Text → Text → Bool
starts_with [] s = true
starts_with (c ∷ p) [] = false
starts_with (c ∷ p) (d ∷ s) = nat_eqb c d && starts_with p s

unfoldable pub has_colon : Text → Bool
has_colon s = any (λ c. nat_eqb c b':') s

-- Two checks, one after the other, that push their errors.
unfoldable pub both : Option Errors → Option Errors → Option Errors
both none other = none
both (some errors) none = none
both (some errors) (some more) = some (errors ++ more)

unfoldable pub each : {A : Type 0} → (A → Option Errors) → List A → Option Errors
unfolding both
each check [] = some []
each check (x ∷ xs) = both (check x) (each check xs)

unfoldable pub push_unless : Bool → ValidationError → Option Errors
push_unless true error = some []
push_unless false error = some (error ∷ [])

unfoldable pub agent_field : Text → Text → Text
agent_field name field = bytes "agents_manager.agents." ++ (name ++ (bytes ".workspace." ++ field))

module _ (out : Outside) where
  unfoldable pub validate_tools_server_host : AnyclawConfig → Option Errors
  unfolding is_valid_host push_unless
  validate_tools_server_host config =
      push_unless (is_valid_host out config.tools_server_host) (
        invalid_tools_server_host (bytes "tools_manager.tools_server_host")
          config.tools_server_host)

  unfoldable pub check_binary : Text → Text → Option Errors
  unfolding push_unless
  check_binary field binary = push_unless (out.binary_exists binary) (binary_not_found field binary)

  unfoldable pub check_working_dir : Option Text → Option Errors
  unfolding push_unless
  check_working_dir none = some []
  check_working_dir (some path) = push_unless (out.path_exists path) (working_dir_not_found path)

  -- An empty list of the command and its arguments is indexed at 0.
  unfoldable pub validate_local_agent : Text → LocalWorkspaceConfig → Option Errors
  unfolding both check_binary check_working_dir agent_field
  validate_local_agent name config = elim config.binary [
    | [] ↦ none
    | binary ∷ args ↦
        both (check_binary (agent_field name (bytes "binary")) binary)
          (check_working_dir config.working_dir)
  ]

  unfoldable pub limit_errors : (Text → ValidationError) → Option Limit → Option Errors
  limit_errors error none = none
  limit_errors error (some (accepted n)) = some []
  limit_errors error (some (rejected reason)) = some (error reason ∷ [])

  unfoldable pub check_memory : Text → Option Text → Option Errors
  unfolding limit_errors parse_memory_limit agent_field
  check_memory name none = some []
  check_memory name (some limit) =
      limit_errors (invalid_memory_limit (agent_field name (bytes "memory_limit")) limit)
        (parse_memory_limit out limit)

  unfoldable pub check_cpu : Text → Option Text → Option Errors
  unfolding limit_errors parse_cpu_limit agent_field
  check_cpu name none = some []
  check_cpu name (some limit) =
      limit_errors (invalid_cpu_limit (agent_field name (bytes "cpu_limit")) limit)
        (some (parse_cpu_limit out limit))

  unfoldable pub check_docker_host : Text → Option Text → Option Errors
  unfolding starts_with push_unless agent_field
  check_docker_host name none = some []
  check_docker_host name (some host) =
      push_unless (starts_with (bytes "unix://") host || starts_with (bytes "tcp://") host)
        (invalid_docker_host (agent_field name (bytes "docker_host")) host)

  unfoldable pub check_colon : (Text → ValidationError) → Text → Option Errors
  unfolding has_colon push_unless
  check_colon error entry = push_unless (has_colon entry) (error entry)

  unfoldable pub validate_docker_agent : Text → DockerWorkspaceConfig → Option Errors
  unfolding both each check_memory check_cpu check_docker_host check_colon agent_field
  validate_docker_agent name config = both (check_memory name config.memory_limit) (
      both (check_cpu name config.cpu_limit) (
        both (check_docker_host name config.docker_host) (
          both
            (each (check_colon (invalid_volume_mount (agent_field name (bytes "volumes"))))
              config.volumes)
            (each (check_colon (invalid_extra_host (agent_field name (bytes "extra_hosts"))))
              config.extra_hosts))))

  unfoldable pub validate_agent : Text × WorkspaceConfig → Option Errors
  unfolding validate_local_agent validate_docker_agent
  validate_agent (name, local config) = validate_local_agent name config
  validate_agent (name, docker config) = validate_docker_agent name config

  unfoldable pub validate_channel_binary : Text × Text → Option Errors
  unfolding check_binary
  validate_channel_binary (name, binary) =
      check_binary (bytes "channels_manager.channels." ++ (name ++ bytes ".binary")) binary

  unfoldable pub validate_tool_binary : Text × Option Text → Option Errors
  unfolding check_binary
  validate_tool_binary (name, none) = some []
  validate_tool_binary (name, some binary) =
      check_binary (bytes "tools_manager.tools." ++ (name ++ bytes ".binary")) binary

  -- The errors in their order.
  unfoldable pub validate_config : AnyclawConfig → Option Errors
  unfolding both each validate_tools_server_host validate_agent validate_channel_binary
      validate_tool_binary
  validate_config config = both (validate_tools_server_host config) (
      both (each validate_agent config.agents) (
        both (each validate_channel_binary config.channels)
          (each validate_tool_binary config.tools)))
