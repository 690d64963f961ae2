-- ===== src/Launch.antt =====
-- internal/config/config.go: `LoadConfig`; and cmd/arbutus/main.go up to the main loop. Reading the file
-- and decoding TOML are calls of libraries. The goroutines that `main` starts on the way, `Connect` of
-- the outputs and `Run` of the inputs, are those of Outputs/Fleet and of the inputs.
pub mod Ready
mod Tests
use arbutus.Agent.{Agent, start}
use arbutus.Base.{List, [], ◌++◌, map, Option, none, some, ◌⊎◌, inl, inr, Bytes, codes, GoMap}
use arbutus.Inputs.Fleet.{Input, initialize_inputs}
use arbutus.Models.{Any}
use arbutus.Outputs.Fleet.{Kind, initialize_outputs}

-- `Config`, with the one field of its `AgentConfig`.
pub record Config : Type 0 where
  pub flush_interval : Bytes
  pub inputs : GoMap Bytes (GoMap Bytes Any)
  pub outputs : GoMap Bytes (GoMap Bytes Any)

-- `var config Config`
abbrev pub zero_config : Config
zero_config = record { flush_interval = []; inputs = []; outputs = [] }

-- `os.ReadFile`, and `toml.Unmarshal` into a configuration: what that holds after it, and the error.
pub record Files : Type 0 where
  pub read_file : Bytes → Bytes ⊎ Bytes
  pub unmarshal : Bytes → Config → Config × Option Bytes

parsed : Config × Option Bytes → Bytes ⊎ Config
parsed (config, some e) = inl (codes "failed to parse config file: " ++ e)
parsed (config, none) = inr config

read : (Bytes → Config → Config × Option Bytes) → Bytes ⊎ Bytes → Bytes ⊎ Config
unfolding parsed
read unmarshal (inl e) = inl (codes "failed to read config file: " ++ e)
read unmarshal (inr text) = parsed (unmarshal text zero_config)

unfoldable pub load_config : Files → Bytes → Bytes ⊎ Config
unfolding read
load_config files path = read files.unmarshal (files.read_file path)

-- What the main loop starts with: the agent, and the inputs with their configurations.
abbrev pub Launched : Type 0 → Type 0
Launched W = Agent Kind W × List (Input × GoMap Bytes Any)

set_up : {W : Type 0} → Bytes ⊎ Config → W → Bytes ⊎ Launched W
set_up (inl e) w = inl (codes "Failed to load config: " ++ e)
set_up (inr config) w =
    inr (
      start (map (λ p. p.0) (initialize_outputs config.outputs)) w,
      initialize_inputs config.inputs,
    )

-- `main`, with the path that the flag gives: the text with which `log.Fatalf` ends it, or its main loop.
unfoldable pub launch : {W : Type 0} → Files → Bytes → W → Bytes ⊎ Launched W
unfolding set_up
launch files path w = set_up (load_config files path) w
