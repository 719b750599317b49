-- ===== src/Config.antt =====
-- crates/anyclaw-config/src: the part of the configuration of types.rs that the validation reads,
-- and the limits of parse.rs. `f64` is a parameter: its parser, the test `x <= 0.0` and the cast of
-- a product with an integer to `i64`; so are `str::trim`, the parser of IP addresses, and what the
-- file system answers. The reasons of errors stand without the texts that they quote. `none` is a
-- panic.
pub mod Hosts
pub mod Validate
pub mod Rules
mod Tests
use protoclaw.Base.{
  ℕ, Bool, true, false, ◌||◌, Option, none, some, List, [], ◌∷◌, if◌then◌else◌, leb, nat_eqb,
}
use protoclaw.Base.Map.{Map}
use protoclaw.Base.Text.{Text, bytes, lower, ℤ}

pub record LocalWorkspaceConfig : Type 0 where
  pub binary : List Text
  pub working_dir : Option Text

pub record DockerWorkspaceConfig : Type 0 where
  pub volumes : List Text
  pub memory_limit : Option Text
  pub cpu_limit : Option Text
  pub docker_host : Option Text
  pub extra_hosts : List Text

pub data WorkspaceConfig : Type 0 where
  local : LocalWorkspaceConfig → WorkspaceConfig
  docker : DockerWorkspaceConfig → WorkspaceConfig

-- The binary of each channel and of each tool; a tool may have none.
pub record AnyclawConfig : Type 0 where
  pub agents : Map Text WorkspaceConfig
  pub channels : Map Text Text
  pub tools : Map Text (Option Text)
  pub tools_server_host : Text

pub record Outside : Type 1 where
  pub F64 : Type 0
  pub parse_f64 : Text → Option F64
  pub not_positive : F64 → Bool
  pub times : F64 → ℕ → ℤ
  pub trim : Text → Text
  pub is_ip : Text → Bool
  pub binary_exists : Text → Bool
  pub path_exists : Text → Bool

pub data Limit : Type 0 where
  accepted : ℤ → Limit
  rejected : Text → Limit

-- What stands in front of the last byte, and that byte.
unfoldable pub split_last : Text → Option (Text × ℕ)
split_last [] = none
split_last (c ∷ s) = elim (split_last s) [ none ↦ some ([], c) | some (t, d) ↦ some (c ∷ t, d) ]

-- The multiplier of a suffix, in lower case.
unfoldable pub multiplier : ℕ → Option ℕ
multiplier u =
    if nat_eqb (lower u) b'k'
    then some 1024
    else if nat_eqb (lower u) b'm'
    then some 1048576
    else if nat_eqb (lower u) b'g'
    then some 1073741824
    else none

unfoldable pub is_milli : ℕ → Bool
is_milli u = nat_eqb u b'm' || nat_eqb u b'M'

module _ (out : Outside) where
  -- The number in front of a unit, times the unit.
  unfoldable pub parse_number : Text → ℕ → Limit
  parse_number s unit = elim (out.parse_f64 s) [
    | none ↦ rejected (bytes "not a valid number")
    | some x ↦
        if out.not_positive x
        then rejected (bytes "value must be positive")
        else accepted (out.times x unit)
  ]

  -- A text whose last byte belongs to a longer character is cut inside it, which panics.
  unfoldable pub parse_memory_limit : Text → Option Limit
  unfolding split_last multiplier parse_number
  parse_memory_limit s = elim (split_last (out.trim s)) [
    | none ↦ some (rejected (bytes "empty string"))
    | some (number, unit) ↦ if leb 128 unit then none else elim (multiplier unit) [
      | none ↦ some (rejected (bytes "unknown unit suffix, expected k, m, or g"))
      | some n ↦ some (parse_number number n)
    ]
  ]

  unfoldable pub parse_cpu_limit : Text → Limit
  unfolding split_last is_milli parse_number
  parse_cpu_limit s = elim (split_last (out.trim s)) [
    | none ↦ rejected (bytes "empty string")
    | some (number, unit) ↦
        if is_milli unit then parse_number number 1000000 else parse_number (out.trim s) 1000000000
  ]
