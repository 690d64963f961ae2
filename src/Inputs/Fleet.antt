-- ===== src/Inputs/Fleet.antt =====
-- internal/plugins/inputs/inputs.go: the three input plugins that it imports, each registered under its
-- name by its `init`, and `InitializeInputs`. template is not among them. Each input is started in a
-- goroutine of its own, which calls `Run` with a context that is never cancelled.
mod Tests
use arbutus.Base.{
  ◌≡◌, refl, ◌↔◌, arith, Bool, true, false, List, [], Option, none, some, Bytes, codes, beq_bytes,
  beq_bytes_iff, bytes_eq, Eq, GoMap, lookup, IsMap,
}
use arbutus.Models.Plugin.Start.{initialize_plugins, Named, initialize_plugins_lem}
use arbutus.Models.Plugin.{Registry, register_plugin, get_plugin_constructor}
use arbutus.Models.{Any}

pub data Input : Type 0 where
  dnssnoop memleak opensnoop : Input

abbrev pub beq_input : Input → Input → Bool
beq_input dnssnoop dnssnoop = true
beq_input memleak memleak = true
beq_input opensnoop opensnoop = true
beq_input _ _ = false

pub beq_input_iff : (a b : Input) → (beq_input a b ≡ true) ↔ (a ≡ b)
beq_input_iff dnssnoop dnssnoop = ground arith
beq_input_iff memleak memleak = ground arith
beq_input_iff opensnoop opensnoop = ground arith
beq_input_iff _ _ = ground arith

instance abbrev pub input_eq : Eq Input
input_eq = record { beq = beq_input; beq_iff = beq_input_iff }

-- The `init` function of each.
abbrev pub init_dnssnoop : Registry Input → Registry Input
init_dnssnoop registry = register_plugin (codes "dnssnoop") dnssnoop registry

abbrev pub init_memleak : Registry Input → Registry Input
init_memleak registry = register_plugin (codes "memleak") memleak registry

abbrev pub init_opensnoop : Registry Input → Registry Input
init_opensnoop registry = register_plugin (codes "opensnoop") opensnoop registry

-- What they leave in the registry, in the order of the imports.
abbrev pub registered : Registry Input
registered = init_opensnoop (init_memleak (init_dnssnoop []))

-- `InitializeInputs`: the inputs, each with the configuration that its goroutine passes to `Run`.
unfoldable pub initialize_inputs : GoMap Bytes (GoMap Bytes Any) → List (Input × GoMap Bytes Any)
initialize_inputs configs = initialize_plugins registered configs

abbrev pub name_of : Input → Bytes
name_of dnssnoop = codes "dnssnoop"
name_of memleak = codes "memleak"
name_of opensnoop = codes "opensnoop"

distinct : (j k : Input) → beq_bytes (name_of j) (name_of k) ≡ beq_input j k
distinct dnssnoop dnssnoop = refl
distinct dnssnoop memleak = refl
distinct dnssnoop opensnoop = refl
distinct memleak dnssnoop = refl
distinct memleak memleak = refl
distinct memleak opensnoop = refl
distinct opensnoop dnssnoop = refl
distinct opensnoop memleak = refl
distinct opensnoop opensnoop = refl

found : (k : Input) → get_plugin_constructor (name_of k) registered ≡ some k
found dnssnoop = refl
found memleak = refl
found opensnoop = refl

abbrev inputs_named : Named registered
inputs_named = record {
  name_of = name_of;
  distinct = distinct;
  found = found;
  labelled = (refl, (refl, (refl, tt)));
}

-- From a configuration with each name once: `InitializeInputs` starts each of the three inputs just
-- where its name is configured, with the configuration given there, and none of them twice.
pub initialize_inputs_lem :
    (configs : GoMap Bytes (GoMap Bytes Any))
    → IsMap configs
    → IsMap (initialize_inputs configs)
      × ((k : Input) → lookup k (initialize_inputs configs) ≡ lookup (name_of k) configs)
unfolding initialize_inputs
initialize_inputs_lem configs m = initialize_plugins_lem registered inputs_named configs m
