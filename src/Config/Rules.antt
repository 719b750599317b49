-- ===== src/Config/Rules.antt =====
-- What a configuration without errors is, as rules on the texts in it.
pub mod Limits
pub mod Hosts
pub mod Checks
use protoclaw.Base.{
  ◌≡◌, refl, ◌≢◌, ◌↔◌, ◌⊎◌, inl, inr, sym, ◌∙◌, ap, ℕ, Bool, true, false, ◌||◌, Option, none, some,
  List, [], ◌∷◌, ◌++◌, any, nat_eqb, Bool-cases, Option-cases, arith,
}
use protoclaw.Base.Map.{Map}
use protoclaw.Base.Text.{Text, bytes, ℤ}
use protoclaw.Config.{
  LocalWorkspaceConfig, DockerWorkspaceConfig, WorkspaceConfig, local, docker, AnyclawConfig,
  Outside, Limit, accepted, rejected, parse_memory_limit, parse_cpu_limit,
}
use protoclaw.Config.Hosts.{is_valid_host}
use protoclaw.Config.Validate.{
  ValidationError, Errors, invalid_memory_limit, invalid_cpu_limit, invalid_volume_mount,
  invalid_extra_host, agent_field, starts_with, has_colon, both, each, push_unless,
  validate_tools_server_host, check_binary, check_working_dir, validate_local_agent, limit_errors,
  check_memory, check_cpu, check_docker_host, check_colon, validate_docker_agent, validate_agent,
  validate_channel_binary, validate_tool_binary, validate_config,
}
use protoclaw.Config.Rules.Limits.{
  ValidMemory, ValidCpu, memory_valid, valid_memory, cpu_valid, valid_cpu,
}
use protoclaw.Config.Rules.Hosts.{All, ValidHost, host_valid, valid_host}
use protoclaw.Config.Rules.Checks.{
  HasColon, Clean, push_unless-Clean, both-Clean, each-Clean, via, starts_with_iff, has_colon_iff,
  or_iff,
}

-- The text, if there is one, has the property.
abbrev pub IfGiven : {A : Type 0} → (A → Type 0) → Option A → Type 0
IfGiven P none = Unit
IfGiven P (some a) = P a

module _ (out : Outside) where
  abbrev pub ValidDockerHost : Text → Type 0
  ValidDockerHost host =
      ((rest : Text) × (host ≡ bytes "unix://" ++ rest))
      ⊎ ((rest : Text) × (host ≡ bytes "tcp://" ++ rest))

  -- A command that exists, and a directory that exists if one is given.
  abbrev pub ValidLocal : LocalWorkspaceConfig → Type 0
  ValidLocal config =
      ((binary : Text) × (args : List Text) × (config.binary ≡ binary ∷ args)
        × (out.binary_exists binary ≡ true))
      × IfGiven (λ path. out.path_exists path ≡ true) config.working_dir

  abbrev pub ValidDocker : DockerWorkspaceConfig → Type 0
  ValidDocker config =
      IfGiven (ValidMemory out) config.memory_limit
      × (IfGiven (ValidCpu out) config.cpu_limit
          × (IfGiven ValidDockerHost config.docker_host
              × (All HasColon config.volumes × All HasColon config.extra_hosts)))

  abbrev pub ValidAgent : Text × WorkspaceConfig → Type 0
  ValidAgent (name, local config) = ValidLocal config
  ValidAgent (name, docker config) = ValidDocker config

  abbrev pub ValidConfig : AnyclawConfig → Type 0
  ValidConfig config =
      ValidHost out config.tools_server_host
      × (All ValidAgent config.agents
          × (All (λ channel. out.binary_exists channel.1 ≡ true) config.channels
              × All (λ tool. IfGiven (λ binary. out.binary_exists binary ≡ true) tool.1)
                  config.tools))

  working_dir-Clean :
      (dir : Option Text)
      → Clean (check_working_dir out dir) (IfGiven (λ path. out.path_exists path ≡ true) dir)
  unfolding check_working_dir
  working_dir-Clean none = ((λ h. tt), (λ h. refl))
  working_dir-Clean (some path) = push_unless-Clean (out.path_exists path) _

  limit-Clean :
      {P : Type 0} (error : Text → ValidationError) (o : Option Limit)
      → (P → (n : ℤ) × (o ≡ some (accepted n)))
      → ((n : ℤ) → o ≡ some (accepted n) → P)
      → Clean (limit_errors out error o) P
  unfolding limit_errors
  limit-Clean error none f g =
      ((λ h. absurd (ground (arith, h))), (λ p. absurd (ground (arith, (f p).1))))
  limit-Clean error (some (accepted n)) f g = ((λ h. g n refl), (λ p. refl))
  limit-Clean error (some (rejected reason)) f g =
      ((λ h. absurd (ground (arith, h))), (λ p. absurd (ground (arith, (f p).1))))

  memory-Clean :
      (name : Text) (limit : Option Text)
      → Clean (check_memory out name limit) (IfGiven (ValidMemory out) limit)
  unfolding check_memory limit_errors
  memory-Clean name none = ((λ h. tt), (λ h. refl))
  memory-Clean name (some limit) =
      limit-Clean (invalid_memory_limit (agent_field name (bytes "memory_limit")) limit)
        (parse_memory_limit out limit) (memory_valid out limit) (valid_memory out limit)

  cpu-Clean :
      (name : Text) (limit : Option Text)
      → Clean (check_cpu out name limit) (IfGiven (ValidCpu out) limit)
  unfolding check_cpu limit_errors
  cpu-Clean name none = ((λ h. tt), (λ h. refl))
  cpu-Clean name (some limit) =
      limit-Clean (invalid_cpu_limit (agent_field name (bytes "cpu_limit")) limit)
        (some (parse_cpu_limit out limit))
        (λ v. let (n, e) = cpu_valid out limit v in (n, ap some e))
        (λ n e. valid_cpu out limit n (ground (arith, e)))

  docker_host-Clean :
      (name : Text) (host : Option Text)
      → Clean (check_docker_host out name host) (IfGiven ValidDockerHost host)
  unfolding check_docker_host
  docker_host-Clean name none = ((λ h. tt), (λ h. refl))
  docker_host-Clean name (some host) =
      via (check_docker_host out name (some host))
        (push_unless-Clean (starts_with (bytes "unix://") host || starts_with (bytes "tcp://") host)
          _)
        (or_iff (starts_with (bytes "unix://") host) (starts_with (bytes "tcp://") host)
          (starts_with_iff (bytes "unix://") host) (starts_with_iff (bytes "tcp://") host))

  colon-Clean :
      (error : Text → ValidationError) (entry : Text)
      → Clean (check_colon out error entry) (HasColon entry)
  unfolding check_colon
  colon-Clean error entry =
      via (check_colon out error entry) (push_unless-Clean (has_colon entry) (error entry))
        (has_colon_iff entry)

  local-Clean :
      (name : Text) (binary : List Text) (dir : Option Text)
      → (let config : LocalWorkspaceConfig = record { binary = binary; working_dir = dir } in
          Clean (validate_local_agent out name config) (ValidLocal config))
  unfolding validate_local_agent check_binary
  local-Clean name [] dir =
      ((λ h. absurd (ground (arith, h))), (λ p. absurd (ground (arith, p.0.2))))
  local-Clean name (binary ∷ args) dir =
      both-Clean (check_binary out (agent_field name (bytes "binary")) binary)
        (check_working_dir out dir)
        (via (check_binary out (agent_field name (bytes "binary")) binary)
          (push_unless-Clean (out.binary_exists binary) _)
          ((λ h. (binary, args, refl, h)), (λ p. ground (arith, p.2, p.3))))
        (working_dir-Clean dir)

  agent-Clean :
      (agent : Text × WorkspaceConfig) → Clean (validate_agent out agent) (ValidAgent agent)
  unfolding validate_agent validate_docker_agent
  agent-Clean (name, local config) = local-Clean name config.binary config.working_dir
  agent-Clean (name, docker config) =
      let volume = check_colon out (invalid_volume_mount (agent_field name (bytes "volumes"))) in
      let host = check_colon out (invalid_extra_host (agent_field name (bytes "extra_hosts"))) in
      both-Clean _ _ (memory-Clean name config.memory_limit) (
        both-Clean _ _ (cpu-Clean name config.cpu_limit) (
          both-Clean _ _ (docker_host-Clean name config.docker_host) (
            both-Clean _ _ (each-Clean volume HasColon config.volumes (colon-Clean _))
              (each-Clean host HasColon config.extra_hosts (colon-Clean _)))))

  tool-Clean :
      (tool : Text × Option Text)
      → Clean
          (validate_tool_binary out tool)
          (IfGiven (λ binary. out.binary_exists binary ≡ true) tool.1)
  unfolding validate_tool_binary check_binary
  tool-Clean (name, none) = ((λ h. tt), (λ h. refl))
  tool-Clean (name, some binary) = push_unless-Clean (out.binary_exists binary) _

  channel-Clean :
      (channel : Text × Text)
      → Clean (validate_channel_binary out channel) (out.binary_exists channel.1 ≡ true)
  unfolding validate_channel_binary check_binary
  channel-Clean (name, binary) = push_unless-Clean (out.binary_exists binary) _

  -- The validation returns without an error exactly if the configuration is well-formed: the tools
  -- server's host is an IP address or a host name of labels, each local agent has a command that
  -- exists and, if one is given, a working directory that exists, each limit of a Docker agent is
  -- a number with its unit that is not zero or less (which NaN is not either), its host has one of the two schemes, its volumes and extra
  -- hosts have a colon, and the binaries of channels and tools exist.
  pub validate_config_iff :
      (config : AnyclawConfig) → (validate_config out config ≡ some []) ↔ ValidConfig config
  unfolding validate_config validate_tools_server_host
  validate_config_iff config =
      both-Clean _ _
        (via (validate_tools_server_host out config)
          (push_unless-Clean (is_valid_host out config.tools_server_host) _)
          (host_valid out config.tools_server_host, valid_host out config.tools_server_host))
        (both-Clean _ _ (each-Clean (validate_agent out) ValidAgent config.agents agent-Clean) (
          both-Clean _ _
            (each-Clean (validate_channel_binary out)
              (λ channel. out.binary_exists channel.1 ≡ true) config.channels channel-Clean)
            (each-Clean (validate_tool_binary out)
              (λ tool. IfGiven (λ binary. out.binary_exists binary ≡ true) tool.1) config.tools
              tool-Clean)))
