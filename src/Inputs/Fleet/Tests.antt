-- ===== src/Inputs/Fleet/Tests.antt =====
-- A configuration with opensnoop, and template, which is not registered.
use arbutus.Base.{◌≡◌, refl, arith, [], ◌∷◌, Bytes, codes, GoMap, bytes_eq, IsMap}
use arbutus.Inputs.Fleet.{opensnoop, input_eq, initialize_inputs}
use arbutus.Models.Plugin.Start.{initialize_plugins}
use arbutus.Models.{Any}

abbrev configs : GoMap Bytes (GoMap Bytes Any)
configs = (codes "template", []) ∷ (codes "opensnoop", []) ∷ []

only_opensnoop : initialize_inputs configs ≡ (opensnoop, []) ∷ []
unfolding initialize_inputs initialize_plugins
only_opensnoop = refl

configs-IsMap : IsMap configs
configs-IsMap = ground arith
