-- ===== src/Outputs/Fleet/Startup.antt =====
-- What `InitializeOutputs` starts, and what its goroutines leave behind.
use mathlib.Core.Path.{subst}
use arbutus.Base.{
  ◌≡◌, refl, ◌∙◌, inl, inr, List, [], ◌∷◌, map, Option, none, some, Bytes, codes, beq_bytes,
  bytes_eq, GoMap, lookup, IsMap, Lacks, lookup-Lacks, Bool-cases,
}
use arbutus.Models.Plugin.Start.{Named, initialize_plugins_lem}
use arbutus.Models.Plugin.{get_plugin_constructor}
use arbutus.Outputs.File.{Os}
use arbutus.Outputs.Fleet.{
  Kind, console, file, loki, beq_kind, beq_kind_iff, kind_eq, registered, Config,
  initialize_outputs, World, connect, connect_all,
}
use arbutus.Outputs.Lines.{Format}
use arbutus.Outputs.Loki.Client.{Web}
use arbutus.Outputs.Loki.{Text}
use arbutus.Pipeline.Delivery.{Once, Absent}

abbrev pub name_of : Kind → Bytes
name_of console = codes "console"
name_of file = codes "file"
name_of loki = codes "loki"

beq_kind-name_of : (j k : Kind) → beq_bytes (name_of j) (name_of k) ≡ beq_kind j k
beq_kind-name_of console console = refl
beq_kind-name_of console file = refl
beq_kind-name_of console loki = refl
beq_kind-name_of file console = refl
beq_kind-name_of file file = refl
beq_kind-name_of file loki = refl
beq_kind-name_of loki console = refl
beq_kind-name_of loki file = refl
beq_kind-name_of loki loki = refl

constructor-name_of : (k : Kind) → get_plugin_constructor (name_of k) registered ≡ some k
constructor-name_of console = refl
constructor-name_of file = refl
constructor-name_of loki = refl

abbrev outputs_named : Named registered
outputs_named = record {
  name_of = name_of;
  distinct = beq_kind-name_of;
  found = constructor-name_of;
  labelled = (refl, (refl, (refl, tt)));
}

pub Absent-kinds :
    (k : Kind) (started : GoMap Kind Config) → Lacks k started → Absent k (map (λ p. p.0) started)
Absent-kinds k [] h = tt
Absent-kinds k ((j, config) ∷ started) h = (h.0, Absent-kinds k started h.1)

Once-kinds :
    (k : Kind) (started : GoMap Kind Config) (config : Config)
    → IsMap started
    → lookup k started ≡ some config
    → Once k (map (λ p. p.0) started)
Once-kinds k [] config m h = absurd cc
Once-kinds k ((j, c) ∷ started) config (fresh, m) h = elim (Bool-cases (beq_kind j k)) [
  | inl e ↦
      let same = (beq_kind_iff j k).0 e in
      inl (same, subst (λ i. Absent i (map (λ p. p.0) started)) same (Absent-kinds j started fresh))
  | inr e ↦
      inr ((λ q. cc (rw ((beq_kind_iff j k).1 q) at e)), Once-kinds k started config m (rw e at h))
]

-- The outputs that `InitializeOutputs` hands to the pipeline.
abbrev pub outputs_of : GoMap Bytes Config → List Kind
outputs_of configs = map (λ p. p.0) (initialize_outputs configs)

-- From a configuration with each name once: `InitializeOutputs` starts each of the three plugins just
-- where its own name is configured, with the configuration given there, and none of them twice. So a
-- table of another name starts nothing.
pub initialize_outputs_lem :
    (configs : GoMap Bytes Config)
    → IsMap configs
    → IsMap (initialize_outputs configs)
      × ((k : Kind) → lookup k (initialize_outputs configs) ≡ lookup (name_of k) configs)
unfolding initialize_outputs
initialize_outputs_lem configs m = initialize_plugins_lem registered outputs_named configs m

-- A plugin whose name is configured is one output of the pipeline.
pub outputs-Once :
    (configs : GoMap Bytes Config) (k : Kind) (config : Config)
    → IsMap configs
    → lookup (name_of k) configs ≡ some config
    → Once k (outputs_of configs)
outputs-Once configs k config m h =
    let (m', same) = initialize_outputs_lem configs m in
    Once-kinds k (initialize_outputs configs) config m' (same k ∙ h)

module _ {H D N : Type 0} (format : Format) (text : Text) (os : Os H D) (web : Web N) where
  -- The state after the `Connect` of this plugin, if it has been started.
  abbrev pub after : Kind → Option Config → World H D N → World H D N
  after k none w = w
  after k (some config) w = (connect format text os web k config w).0

  after-after :
      (f l : Option Config) (w : World H D N)
      → after file f (after loki l w) ≡ after loki l (after file f w)
  unfolding connect
  after-after none l w = refl
  after-after (some f) none w = refl
  after-after (some f) (some l) w = refl

  -- In whatever order the goroutines of `InitializeOutputs` get their turn, each plugin that was
  -- started ends as its own `Connect` on the initial state leaves it.
  pub connect_all_lem :
      (started : GoMap Kind Config) (w : World H D N)
      → IsMap started
      → connect_all format text os web started w
        ≡ after loki (lookup loki started) (after file (lookup file started) w)
  unfolding connect_all connect
  connect_all_lem [] w m = refl
  connect_all_lem ((console, config) ∷ started) w m = connect_all_lem started w m.1
  connect_all_lem ((file, config) ∷ started) w m =
      connect_all_lem started (connect format text os web file config w).0 m.1
      ∙ rw (lookup-Lacks file started m.0)
  connect_all_lem ((loki, config) ∷ started) w m =
      connect_all_lem started (connect format text os web loki config w).0 m.1
      ∙ rw (lookup-Lacks loki started m.0) (after-after (lookup file started) (some config) w)
