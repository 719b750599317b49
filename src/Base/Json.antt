-- ===== src/Base/Json.antt =====
-- The accessors of `serde_json::Value` that the program calls, as a parameter: the crate is not
-- part of the repository. `get` looks a key up in an object and is `none` on any other value.
use protoclaw.Base.Text.{Text, ℤ}
use mathlib.Core.Bool.{Bool}
use mathlib.Core.List.{List}
use mathlib.Core.Option.{Option}

pub record Json : Type 1 where
  pub Value : Type 0
  pub field : Text → Value → Option Value
  pub as_i64 : Value → Option ℤ
  pub as_str : Value → Option Text
  pub as_bool : Value → Option Bool
  pub as_array : Value → Option (List Value)
  pub as_object : Value → Option (List (Text × Value))
