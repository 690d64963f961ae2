-- ===== src/Launch/Ready.antt =====
-- What a configuration file makes of the agent.
use arbutus.Agent.{start}
use arbutus.Base.{
  ◌≡◌, refl, ap, [], ◌++◌, Option, none, some, ◌⊎◌, inl, inr, Bytes, codes, GoMap, bytes_eq, lookup,
  IsMap,
}
use arbutus.Inputs.Fleet.{Input, input_eq, initialize_inputs, initialize_inputs_lem}
use arbutus.Inputs.Fleet
use arbutus.Launch.{Config, zero_config, Files, parsed, read, load_config, Launched, set_up, launch}
use arbutus.Models.{Any}
use arbutus.Outputs.Fleet.Startup.{name_of, outputs-Once}
use arbutus.Outputs.Fleet.{Kind, kind_eq}
use arbutus.Pipeline.Delivery.{Once}

module _ (files : Files) (path : Bytes) where
  -- The file could be read and decoded, into this.
  abbrev pub Holds : Config → Type 0
  Holds config =
      (text : Bytes) × (files.read_file path ≡ inr text)
      × (files.unmarshal text zero_config ≡ (config, none))

  -- Why the configuration could not be loaded.
  abbrev pub Fails : Bytes → Type 0
  Fails message =
      ((e : Bytes) × (files.read_file path ≡ inl e)
        × (message ≡ codes "Failed to load config: failed to read config file: " ++ e))
      ⊎ ((text e : Bytes) × (files.read_file path ≡ inr text)
          × ((files.unmarshal text zero_config).1 ≡ some e)
          × (message ≡ codes "Failed to load config: failed to parse config file: " ++ e))

  -- The agent runs what the configuration names.
  abbrev pub Follows : {W : Type 0} → Config → Launched W → Type 0
  Follows config (a, inputs) =
      (a.pipeline.buffer ≡ [])
      × ((k : Kind) (c : GoMap Bytes Any)
          → IsMap config.outputs
          → lookup (name_of k) config.outputs ≡ some c
          → Once k a.pipeline.outputs)
      × ((i : Input)
          → IsMap config.inputs
          → lookup i inputs ≡ lookup (Fleet.name_of i) config.inputs)

  abbrev pub Launches : {W : Type 0} → Bytes ⊎ Launched W → Type 0
  Launches (inl message) = Fails message
  Launches (inr launched) = (config : Config) × Holds config × Follows config launched

  set_up-Follows :
      {W : Type 0} (config : Config) (w : W) → Holds config → Launches (set_up (inr config) w)
  unfolding set_up start
  set_up-Follows config w holds = (
    config,
    holds,
    (
      refl,
      (λ k c m h. outputs-Once config.outputs k c m h),
      (λ i m. (initialize_inputs_lem config.inputs m).1 i),
    ),
  )

  parsed-Launches :
      {W : Type 0} (text : Bytes) (got : Config × Option Bytes) (w : W)
      → files.read_file path ≡ inr text
      → files.unmarshal text zero_config ≡ got
      → Launches (set_up (parsed got) w)
  unfolding parsed set_up
  parsed-Launches text (config, none) w h q = set_up-Follows config w (text, h, q)
  parsed-Launches text (config, some e) w h q = inr (text, e, h, ap (λ g. g.1) q, refl)

  read-Launches :
      {W : Type 0} (got : Bytes ⊎ Bytes) (w : W)
      → files.read_file path ≡ got
      → Launches (set_up (read files.unmarshal got) w)
  unfolding read set_up
  read-Launches (inl e) w h = inl (e, h, refl)
  read-Launches (inr text) w h = parsed-Launches text (files.unmarshal text zero_config) w h refl

  -- Either `main` ends with the error of reading or of decoding the configuration file; or the file was
  -- read and decoded, and the main loop starts with an empty buffer, with each output that is
  -- configured once in the pipeline, and with each input just where it is configured, with its
  -- configuration: if the names are distinct.
  pub launch-Launches : {W : Type 0} (w : W) → Launches (launch files path w)
  unfolding launch load_config
  launch-Launches w = read-Launches (files.read_file path) w refl
