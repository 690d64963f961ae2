-- ===== src/Launch/Tests.antt =====
-- A configuration file with the console and opensnoop, and a path that is not there.
use arbutus.Agent.{start}
use arbutus.Base.{◌≡◌, refl, [], ◌∷◌, none, inl, inr, Bytes, codes, beq_bytes, if◌then◌else◌}
use arbutus.Inputs.Fleet.{opensnoop, initialize_inputs}
use arbutus.Launch.Ready.{Launches, launch-Launches}
use arbutus.Launch.{Config, Files, launch, load_config, parsed, read, set_up}
use arbutus.Models.Plugin.Start.{initialize_plugins}
use arbutus.Outputs.Fleet.{console, initialize_outputs}

abbrev path : Bytes
path = codes "arbutus.toml"

abbrev world : Bytes
world = codes "disk"

abbrev config : Config
config = record {
  flush_interval = codes "60s";
  inputs = (codes "opensnoop", []) ∷ [];
  outputs = (codes "console", []) ∷ [];
}

abbrev files : Files
files = record {
  read_file = λ p. if beq_bytes p path then inr (codes "toml") else inl (codes "no such file");
  unmarshal = λ text c. (config, none);
}

launches : launch files path world ≡ inr (start (console ∷ []) world, (opensnoop, []) ∷ [])
unfolding launch load_config read parsed set_up initialize_outputs initialize_inputs
    initialize_plugins
launches = refl

stops_without :
    launch files (codes "other") world
    ≡ inl (codes "Failed to load config: failed to read config file: no such file")
unfolding launch load_config read set_up
stops_without = refl

launch-Launches_example : Launches files path (launch files path world)
launch-Launches_example = launch-Launches files path world
