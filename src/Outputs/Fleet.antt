-- ===== src/Outputs/Fleet.antt =====
-- internal/plugins/outputs/outputs.go: the three output plugins that it imports, each registered under
-- its name by its `init`, behind the interface `Output`; and `InitializeOutputs`. Names of a
-- configuration are keys of a map, so there is one instance of a plugin at most, and the plugin itself
-- names it. The state of the instances, with the standard output, the disk and the network, is one
-- record.
pub mod Startup
pub mod Safety
pub mod Launch
pub mod Starting
pub mod Tests
use arbutus.Base.{
  ℕ, ◌≡◌, ◌↔◌, arith, Bool, true, false, List, [], ◌∷◌, ◌++◌, Option, none, some, Bytes, codes,
  bytes_eq, Eq, GoMap,
}
use arbutus.Models.Plugin.Start.{initialize_plugins}
use arbutus.Models.Plugin.{Output, Outcome, returned, failed, Registry, register_plugin}
use arbutus.Models.{Telemetry, TelemetryType, Any}
use arbutus.Outputs.Console
use arbutus.Outputs.File
use arbutus.Outputs.File.{File, Os}
use arbutus.Outputs.Lines.{Format}
use arbutus.Outputs.Loki.Client
use arbutus.Outputs.Loki.Client.{Loki, Web}
use arbutus.Outputs.Loki.{Text}

pub data Kind : Type 0 where
  console file loki : Kind

abbrev pub beq_kind : Kind → Kind → Bool
beq_kind console console = true
beq_kind file file = true
beq_kind loki loki = true
beq_kind _ _ = false

pub beq_kind_iff : (a b : Kind) → (beq_kind a b ≡ true) ↔ (a ≡ b)
beq_kind_iff console console = ground arith
beq_kind_iff file file = ground arith
beq_kind_iff _ _ = ground arith

instance abbrev pub kind_eq : Eq Kind
kind_eq = record { beq = beq_kind; beq_iff = beq_kind_iff }

-- The `init` function of each.
abbrev pub init_console : Registry Kind → Registry Kind
init_console registry = register_plugin (codes "console") console registry

abbrev pub init_file : Registry Kind → Registry Kind
init_file registry = register_plugin (codes "file") file registry

abbrev pub init_loki : Registry Kind → Registry Kind
init_loki registry = register_plugin (codes "loki") loki registry

-- What they leave in the registry, in the order of the imports.
abbrev pub registered : Registry Kind
registered = init_loki (init_file (init_console []))

abbrev pub Config : Type 0
Config = GoMap Bytes Any

-- `InitializeOutputs`: the instances, each with the configuration that its goroutine passes to
-- `Connect`.
unfoldable pub initialize_outputs : GoMap Bytes Config → List (Kind × Config)
initialize_outputs configs = initialize_plugins registered configs

pub record World (H D N : Type 0) : Type 0 where
  pub file : File H
  pub loki : Loki
  pub stdout : Bytes
  pub disk : D
  pub net : N

-- What the constructors make, in this environment.
abbrev pub new_world : {H D N : Type 0} → Bytes → D → N → World H D N
new_world stdout disk net = record {
  file = File.new_file;
  loki = Client.new_loki;
  stdout = stdout;
  disk = disk;
  net = net;
}

abbrev pub outcome_of : Option Bytes → Outcome
outcome_of none = returned
outcome_of (some e) = failed e

module _ {H D N : Type 0} (format : Format) (text : Text) (os : Os H D) (web : Web N) where
  -- `plugin.Connect(cfg)`
  unfoldable pub connect : Kind → Config → World H D N → World H D N × Option Bytes
  connect console config w = (w, Console.connect config)
  connect file config w =
      let (f, disk, error) = File.connect os config w.file w.disk in
      (record w { file = f; disk = disk }, error)
  connect loki config w =
      let (l, error) = Client.connect web config w.loki in (record w { loki = l }, error)

  unfoldable pub write : Kind → List Telemetry → World H D N → World H D N × Outcome
  write console batch w = (record w { stdout = Console.write format batch w.stdout }, returned)
  write file batch w =
      let (disk, error) = File.write os format w.file batch w.disk in
      (record w { disk = disk }, outcome_of error)
  write loki batch w =
      let (net, outcome) = Client.write web text w.loki batch w.net in
      (record w { net = net }, outcome)

  abbrev pub supported_types : Kind → GoMap TelemetryType Bool
  supported_types console = Console.supported_types
  supported_types file = File.supported_types
  supported_types loki = Client.supported_types

  -- The three plugins as the outputs of the pipeline.
  abbrev pub fleet : Output Kind (World H D N)
  fleet = record { supported_types = supported_types; write = write }

  -- The goroutines of `InitializeOutputs`, in the order in which they get their turn: an error is
  -- logged and the plugin stays in the list.
  unfoldable pub connect_all : List (Kind × Config) → World H D N → World H D N
  unfolding connect
  connect_all [] w = w
  connect_all ((kind, config) ∷ started) w = connect_all started (connect kind config w).0
