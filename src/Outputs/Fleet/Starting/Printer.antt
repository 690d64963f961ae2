-- ===== src/Outputs/Fleet/Starting/Printer.antt =====
-- What the program does to the standard output, whatever becomes of the file and of Loki.
use arbutus.Agent
use arbutus.Agent.Follow.{step-follows, step-alive}
use arbutus.Agent.View.{seen}
use arbutus.Agent.{Agent, Main, crashed, alive}
use arbutus.Base.{
  ℕ, ◌≡◌, ◌≢◌, refl, sym, ap, ◌∙◌, inl, inr, List, [], ◌∷◌, Option, none, some, some_eq, Bytes,
  Bool-cases, Option-cases,
}
use arbutus.Models.Plugin.{Output}
use arbutus.Models.{Telemetry}
use arbutus.Outputs.Console
use arbutus.Outputs.File.{Os}
use arbutus.Outputs.Fleet.Starting.{
  Step, acts, connects, Program, pick, acted, connected, step_connect, step, run,
}
use arbutus.Outputs.Fleet.{Kind, console, file, loki, Config, World, connect, write, fleet}
use arbutus.Outputs.Lines.{Format}
use arbutus.Outputs.Loki.Client.{Web}
use arbutus.Outputs.Loki.{Text}
use arbutus.Pipeline.View.{viewed, write_to-viewed}

-- The steps of the agent among them.
abbrev pub events : List Step → List Agent.Event
events [] = []
events (acts e ∷ ss) = e ∷ events ss
events (connects n ∷ ss) = events ss

module _ {H D N : Type 0} (format : Format) (text : Text) (os : Os H D) (web : Web N) where
  abbrev pub print : Kind → List Telemetry → Bytes → Bytes
  print console batch stdout = Console.write format batch stdout
  print _ batch stdout = stdout

  -- The three outputs with the standard output as their only state.
  abbrev pub printer : Output Kind Bytes
  printer = viewed (fleet format text os web) print

  abbrev pub stdout_of : World H D N → Bytes
  stdout_of w = w.stdout

  print-follows :
      (k : Kind) (batch : List Telemetry) (w : World H D N)
      → print k batch (stdout_of w) ≡ stdout_of (write format text os web k batch w).0
  unfolding write
  print-follows console batch w = refl
  print-follows file batch w = refl
  print-follows loki batch w = refl

  connect-stdout :
      (k : Kind) (config : Config) (w : World H D N)
      → (connect format text os web k config w).0.stdout ≡ w.stdout
  unfolding connect
  connect-stdout console config w = refl
  connect-stdout file config w = refl
  connect-stdout loki config w = refl

  connected-seen :
      (o : Option ((Kind × Config) × List (Kind × Config))) (p q : Program H D N)
      → connected format text os web o p ≡ some q
      → seen stdout_of q.agent ≡ seen stdout_of p.agent
  unfolding connected
  connected-seen none p q h = absurd cc
  connected-seen (some ((k, config), left)) p q h =
      ap (λ (x : Program H D N). seen stdout_of x.agent) (sym (some_eq h))
      ∙ ap (λ s. record (seen stdout_of p.agent) { world = s })
          (connect-stdout k config p.agent.world)

  connects-seen :
      (n : ℕ) (p q : Program H D N)
      → step_connect format text os web n p ≡ some q
      → seen stdout_of q.agent ≡ seen stdout_of p.agent
  unfolding step_connect
  connects-seen n p q h = elim (Bool-cases (alive p.agent.main)) [
    | inl up ↦ connected-seen (pick n p.pending) p q (rw up at h)
    | inr down ↦ cc (rw down at h)
  ]

  acted-agent :
      (o : Option (Agent.Agent Kind (World H D N))) (p q : Program H D N)
      → acted format text os web o p ≡ some q
      → o ≡ some q.agent
  unfolding acted
  acted-agent none p q h = absurd cc
  acted-agent (some a) p q h = ap (λ (x : Program H D N). some x.agent) (some_eq h)

  -- A crashed process makes no step.
  step-up :
      (s : Step) (p q : Program H D N)
      → step format text os web s p ≡ some q
      → p.agent.main ≢ crashed
  unfolding step step_connect alive
  step-up (acts e) p q h =
      step-alive (fleet format text os web) e p.agent q.agent
        (acted-agent (Agent.step (fleet format text os web) e p.agent) p q h)
  step-up (connects n) p q h = λ down. cc (rw down at h)

  run-up :
      (ss : List Step) (p q : Program H D N)
      → run format text os web ss p ≡ some q
      → q.agent.main ≢ crashed
      → p.agent.main ≢ crashed
  unfolding run
  run-up [] p q h up =
      λ down. up (ap (λ (x : Program H D N). x.agent.main) (sym (some_eq h)) ∙ down)
  run-up (s ∷ ss) p q h up = elim (Option-cases (step format text os web s p)) [
    | inl n ↦ cc (rw (n, run) at h)
    | inr (m, e) ↦ step-up s p m e
  ]

  -- As long as the process has not crashed, its standard output is that of an agent whose outputs only
  -- print, on the same events.
  pub run-printer :
      (ss : List Step) (p q : Program H D N)
      → run format text os web ss p ≡ some q
      → q.agent.main ≢ crashed
      → Agent.run printer (events ss) (seen stdout_of p.agent) ≡ some (seen stdout_of q.agent)
  unfolding run Agent.run step
  run-printer [] p q h up = ap (λ (x : Program H D N). some (seen stdout_of x.agent)) (some_eq h)
  run-printer (acts e ∷ ss) p q h up = elim (Option-cases (step format text os web (acts e) p)) [
    | inl n ↦ cc (rw (n, run) at h)
    | inr (m, d) ↦
        let after = rw (d, run) at h in
        let one =
          step-follows (fleet format text os web) printer stdout_of
            (write_to-viewed (fleet format text os web) print stdout_of print-follows) e p.agent
            m.agent (run-up ss m q after up)
            (acted-agent (Agent.step (fleet format text os web) e p.agent) p m d) in
        rw (one, Agent.run) (run-printer ss m q after up)
  ]
  run-printer (connects n ∷ ss) p q h up =
      elim (Option-cases (step format text os web (connects n) p)) [
        | inl none_left ↦ cc (rw (none_left, run) at h)
        | inr (m, d) ↦ rw (← connects-seen n p m d) (run-printer ss m q (rw (d, run) at h) up)
      ]
