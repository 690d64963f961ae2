-- ===== src/Models/Plugin.antt =====
-- internal/models/plugin.go: the two registries of constructors by name. Both are one global map
-- each, written by the `init` functions of the plugins and read when the agent starts. The interface
-- `Output` is a record of the operations that the pipeline calls, over the outputs `O` and the
-- world `W` that their writes change.
pub mod Start
use arbutus.Base.{Bool, List, Option, Bytes, GoMap, bytes_eq, lookup, insert}
use arbutus.Models.{Telemetry, TelemetryType}

-- How a call of `Write` ends: nil, an error, or a panic that takes the process down.
pub data Outcome : Type 0 where
  returned : Outcome
  failed : Bytes → Outcome
  panicked : Outcome

pub record Output (O W : Type 0) : Type 0 where
  pub supported_types : O → GoMap TelemetryType Bool
  pub write : O → List Telemetry → W → W × Outcome

-- A constructor is what the plugin's `New` returns.
abbrev pub Registry : Type 0 → Type 0
Registry P = GoMap Bytes P

module _ {P : Type 0} where
  -- `RegisterInputPlugin`, `RegisterOutputPlugin`
  abbrev pub register_plugin : Bytes → P → Registry P → Registry P
  register_plugin name constructor registry = insert name constructor registry

  -- `GetInputPluginConstructor`, `GetOutputPluginConstructor`
  abbrev pub get_plugin_constructor : Bytes → Registry P → Option P
  get_plugin_constructor name registry = lookup name registry
