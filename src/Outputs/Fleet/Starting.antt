-- ===== src/Outputs/Fleet/Starting.antt =====
-- internal/plugins/outputs/outputs.go with cmd/arbutus/main.go: the agent while goroutines of
-- `InitializeOutputs` may still be at work. A step is one of the agent, or the `Connect` of an output
-- that is still pending; the steps of `Connect` itself are not taken apart.
pub mod Printer
pub mod Unharmed
pub mod Stdout
use arbutus.Agent
use arbutus.Agent.{Agent, alive}
use arbutus.Base.{
  ℕ, zero, suc, Bool, true, false, if◌then◌else◌, List, [], ◌∷◌, map, Option, none, some, Bytes,
  GoMap,
}
use arbutus.Outputs.File.{Os}
use arbutus.Outputs.Fleet.{Kind, Config, World, connect, fleet, initialize_outputs}
use arbutus.Outputs.Fleet.Startup.{outputs_of}
use arbutus.Outputs.Lines.{Format}
use arbutus.Outputs.Loki.Client.{Web}
use arbutus.Outputs.Loki.{Text}

pub data Step : Type 0 where
  acts : Agent.Event → Step
  -- the goroutine at this place of those that are left
  connects : ℕ → Step

pub record Program (H D N : Type 0) : Type 0 where
  pub agent : Agent.Agent Kind (World H D N)
  pub pending : List (Kind × Config)

-- `InitializeOutputs` has returned, and none of its goroutines has had its turn.
abbrev pub launched : {H D N : Type 0} → GoMap Bytes Config → World H D N → Program H D N
launched configs w = record {
  agent = Agent.start (outputs_of configs) w;
  pending = initialize_outputs configs;
}

-- One of a list, and the others.
pick : {A : Type 0} → ℕ → List A → Option (A × List A)
pick n [] = none
pick zero (x ∷ xs) = some (x, xs)
pick (suc n) (x ∷ xs) =
    let rest = pick n xs in elim rest [ none ↦ none | some (y, ys) ↦ some (y, x ∷ ys) ]

module _ {H D N : Type 0} (format : Format) (text : Text) (os : Os H D) (web : Web N) where
  acted : Option (Agent.Agent Kind (World H D N)) → Program H D N → Option (Program H D N)
  acted none p = none
  acted (some a) p = some (record p { agent = a })

  connected :
      Option ((Kind × Config) × List (Kind × Config)) → Program H D N → Option (Program H D N)
  connected none p = none
  connected (some ((kind, config), left)) p = some (record {
    agent = record p.agent { world = (connect format text os web kind config p.agent.world).0 };
    pending = left;
  })

  step_connect : ℕ → Program H D N → Option (Program H D N)
  unfolding connected pick
  step_connect n p = if alive p.agent.main then connected (pick n p.pending) p else none

  -- `none`: the step cannot happen in this state.
  unfoldable pub step : Step → Program H D N → Option (Program H D N)
  unfolding acted step_connect
  step (acts e) p = acted (Agent.step (fleet format text os web) e p.agent) p
  step (connects n) p = step_connect n p

  unfoldable pub run : List Step → Program H D N → Option (Program H D N)
  unfolding step
  run [] p = some p
  run (s ∷ ss) p = elim (step s p) [ none ↦ none | some q ↦ run ss q ]
