-- ===== src/Models/Plugin/Start.antt =====
-- The loop that `InitializeInputs` and `InitializeOutputs` share: over a configuration by names, it makes
-- a plugin for each name that the registry knows and starts it with its configuration.
use arbutus.Base.{
  ◌≡◌, refl, sym, ap, ◌∙◌, inl, inr, List, [], ◌∷◌, none, some, Bytes, beq_bytes, beq_bytes_iff,
  bytes_eq, GoMap, lookup, IsMap, lookup-Lacks, Lacks-lookup, if◌then◌else◌, some_eq, Option-cases,
  Bool-cases, Eq,
}
use arbutus.Models.Plugin.{Registry, get_plugin_constructor}

-- The plugins, each with the configuration that its goroutine takes along. A name that is not
-- registered is passed over.
unfoldable pub initialize_plugins : {P C : Type 0} → Registry P → GoMap Bytes C → List (P × C)
initialize_plugins registry [] = []
initialize_plugins registry ((name, config) ∷ configs) =
    let rest = initialize_plugins registry configs in
    elim (get_plugin_constructor name registry) [
      | none ↦ rest
      | some plugin ↦ (plugin, config) ∷ rest
    ]

-- Every plugin is registered under its own name.
abbrev pub Labelled : {P : Type 0} → (P → Bytes) → Registry P → Type 0
Labelled name_of [] = Unit
Labelled name_of ((name, p) ∷ registry) = (name_of p ≡ name) × Labelled name_of registry

Labelled-only :
    {P : Type 0} (name_of : P → Bytes) (registry : Registry P) (name : Bytes) (p : P)
    → Labelled name_of registry
    → get_plugin_constructor name registry ≡ some p
    → name_of p ≡ name
Labelled-only name_of [] name p l h = absurd cc
Labelled-only name_of ((n, q) ∷ registry) name p (l, ls) h = elim (Bool-cases (beq_bytes n name)) [
  | inl e ↦ ap name_of (sym (some_eq (rw e at h))) ∙ l ∙ (beq_bytes_iff n name).0 e
  | inr e ↦ Labelled-only name_of registry name p ls (rw e at h)
]

-- A registry in which each plugin has one name.
pub record Named {P : Type 0} ⦃e : Eq P⦄ (registry : Registry P) : Type 0 where
  pub name_of : P → Bytes
  pub distinct : (p q : P) → beq_bytes (name_of p) (name_of q) ≡ e.beq p q
  pub found : (p : P) → get_plugin_constructor (name_of p) registry ≡ some p
  pub labelled : Labelled name_of registry

only :
    {P : Type 0} ⦃e : Eq P⦄ (registry : Registry P) (named : Named registry) (name : Bytes) (p : P)
    → get_plugin_constructor name registry ≡ some p
    → named.name_of p ≡ name
only registry named name p h = Labelled-only named.name_of registry name p named.labelled h

module _ {P C : Type 0} ⦃e : Eq P⦄ (registry : Registry P) (named : Named registry) where
  initialize-lookup :
      (configs : GoMap Bytes C) (p : P)
      → lookup p (initialize_plugins registry configs) ≡ lookup (named.name_of p) configs
  unfolding initialize_plugins
  initialize-lookup [] p = refl
  initialize-lookup ((name, config) ∷ configs) p =
      elim (Option-cases (get_plugin_constructor name registry)) [
        | inl q ↦ elim (Bool-cases (beq_bytes name (named.name_of p))) [
          | inl same ↦ cc (rw ((beq_bytes_iff name (named.name_of p)).0 same, named.found p) at q)
          | inr other ↦ rw (q, other, initialize_plugins) (initialize-lookup configs p)
        ]
        | inr (j, q) ↦
            rw (q, ← only registry named name j q, named.distinct j p, initialize_plugins)
              (ap (λ o. if e.beq j p then some config else o) (initialize-lookup configs p))
      ]

  initialize-IsMap :
      (configs : GoMap Bytes C) → IsMap configs → IsMap (initialize_plugins registry configs)
  unfolding initialize_plugins
  initialize-IsMap [] m = tt
  initialize-IsMap ((name, config) ∷ configs) (fresh, m) =
      elim (Option-cases (get_plugin_constructor name registry)) [
        | inl q ↦ rw (q, initialize_plugins) (initialize-IsMap configs m)
        | inr (p, q) ↦
            rw (q, initialize_plugins)
              (
                Lacks-lookup p (initialize_plugins registry configs) (
                    initialize-lookup configs p
                    ∙ rw (only registry named name p q) (lookup-Lacks name configs fresh)),
                initialize-IsMap configs m,
              )
      ]

  -- From a configuration with each name once: each plugin is started just where its name is
  -- configured, with the configuration given there, and none twice.
  pub initialize_plugins_lem :
      (configs : GoMap Bytes C)
      → IsMap configs
      → IsMap (initialize_plugins registry configs)
        × ((p : P)
            → lookup p (initialize_plugins registry configs) ≡ lookup (named.name_of p) configs)
  initialize_plugins_lem configs m = (initialize-IsMap configs m, initialize-lookup configs)
