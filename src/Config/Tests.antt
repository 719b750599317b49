-- ===== src/Config/Tests.antt =====
-- Tests of the validation. Numbers of `f64` are the lengths of their texts.
use protoclaw.Base.{
  ◌≡◌, refl, ◌↔◌, ℕ, ◌*◌, true, false, Option, none, some, List, [], ◌∷◌, length, nat_eqb, ◌=?◌,
  nat_eq, list_eq, list_eqb,
}
use protoclaw.Base.Text.{Text, bytes, pos}
use protoclaw.Config.{local, docker, AnyclawConfig, Outside, parse_memory_limit}
use protoclaw.Config.Validate.{validate_config, invalid_volume_mount, invalid_memory_limit}
use protoclaw.Config.Rules.{ValidConfig, validate_config_iff}

abbrev outside : Outside
outside = record {
  F64 = ℕ;
  parse_f64 = λ s. some (length s);
  not_positive = λ n. nat_eqb n 0;
  times = λ n unit. pos (n * unit);
  trim = λ s. s;
  is_ip = λ s. s =? bytes "127.0.0.1";
  binary_exists = λ s. true;
  path_exists = λ s. false;
}

abbrev config : Option Text → List Text → AnyclawConfig
config memory volumes = record {
  agents =
      (bytes "a", local (record { binary = bytes "run" ∷ []; working_dir = none }))
      ∷ (
        bytes "b",
        docker (record {
          volumes = volumes;
          memory_limit = memory;
          cpu_limit = some (bytes "500m");
          docker_host = some (bytes "unix:///d.sock");
          extra_hosts = [];
        }),
      )
      ∷ [];
  channels = (bytes "telegram", bytes "@built-in/telegram") ∷ [];
  tools = (bytes "t", none) ∷ [];
  tools_server_host = bytes "my-host.local";
}

good_test : validate_config outside (config (some (bytes "1g")) (bytes "a:b" ∷ [])) ≡ some []
unfolding validate_config list_eqb
good_test = refl

bad_test :
    validate_config outside (config (some (bytes "g")) (bytes "ab" ∷ []))
    ≡ some (
        invalid_memory_limit
          (bytes "agents_manager.agents.b.workspace.memory_limit")
          (bytes "g")
          (bytes "value must be positive")
        ∷ (invalid_volume_mount (bytes "agents_manager.agents.b.workspace.volumes") (bytes "ab")
            ∷ []))
unfolding validate_config list_eqb
bad_test = refl

-- An agent without a command, and a limit that ends in a character of two bytes.
no_command_test :
    validate_config outside (record (config none []) {
      agents = (bytes "a", local (record { binary = []; working_dir = none })) ∷ [];
    })
    ≡ none
unfolding validate_config list_eqb
no_command_test = refl

cut_test : parse_memory_limit outside (b'1' ∷ 194 ∷ 181 ∷ []) ≡ none
unfolding parse_memory_limit
cut_test = refl

validate_config_iff_example :
    (validate_config outside (config (some (bytes "1g")) (bytes "a:b" ∷ [])) ≡ some [])
    ↔ ValidConfig outside (config (some (bytes "1g")) (bytes "a:b" ∷ []))
validate_config_iff_example =
    validate_config_iff outside (config (some (bytes "1g")) (bytes "a:b" ∷ []))
