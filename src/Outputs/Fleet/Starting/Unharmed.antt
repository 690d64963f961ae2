-- ===== src/Outputs/Fleet/Starting/Unharmed.antt =====
-- When no output takes the process down.
use mathlib.Core.Path.{subst}
use arbutus.Agent
use arbutus.Agent.Moves.{step-Moves}
use arbutus.Agent.Service.{Serving, Serves, step-Serves}
use arbutus.Agent.{Agent, crashed, writing, alive}
use arbutus.Base.{
  ℕ, zero, suc, ◌≡◌, ◌≢◌, ◌⊎◌, refl, ap, ◌∙◌, inl, inr, List, [], ◌∷◌, map, none, some, some_eq,
  Bytes, Bool-cases, Option-cases, All, codes, bytes_eq, GoMap, lookup, IsMap, Lacks-lookup,
}
use arbutus.Models.Plugin.{panicked}
use arbutus.Models.{Telemetry}
use arbutus.Outputs.File.{Os}
use arbutus.Outputs.Fleet.Safety.{write-loki, write_console_calm, write_file_calm, write_loki_calm}
use arbutus.Outputs.Fleet.Starting.{
  Step, acts, connects, Program, launched, pick, acted, connected, step_connect, step, run,
}
use arbutus.Outputs.Fleet.{
  Kind, console, file, loki, kind_eq, Config, World, connect, write, fleet, initialize_outputs,
}
use arbutus.Outputs.Fleet.Startup.{outputs_of, initialize_outputs_lem, Absent-kinds}
use arbutus.Outputs.Lines.{Format}
use arbutus.Outputs.Loki.Client.{Web}
use arbutus.Outputs.Loki.{Text}
use arbutus.Pipeline.Delivery.{Absent}
use arbutus.Pipeline.View.{write_to_cases}
use arbutus.Pipeline.{write_to}

pick-Absent :
    (n : ℕ) (xs ys : List (Kind × Config)) (x : Kind × Config)
    → pick n xs ≡ some (x, ys)
    → Absent loki (map (λ p. p.0) xs)
    → (x.0 ≢ loki) × Absent loki (map (λ p. p.0) ys)
unfolding pick
pick-Absent n [] ys x h a = absurd cc
pick-Absent zero (z ∷ zs) ys x h a =
    let e = some_eq h in
    (
      subst (λ p. p.0 ≢ loki) (ap (λ r. r.0) e) a.0,
      subst (λ l. Absent loki (map (λ p. p.0) l)) (ap (λ r. r.1) e) a.1,
    )
pick-Absent (suc n) (z ∷ zs) ys x h a = elim (Option-cases (pick n zs)) [
  | inl q ↦ cc (rw q at h)
  | inr ((y, rest), q) ↦
      let e = some_eq (rw q at h) in
      let (other, left) = pick-Absent n zs rest y q a.1 in
      (
        subst (λ p. p.0 ≢ loki) (ap (λ r. r.0) e) other,
        subst (λ l. Absent loki (map (λ p. p.0) l)) (ap (λ r. r.1) e) (a.0, left),
      )
]

abbrev pub Other : Kind → Type 0
Other k = k ≢ loki

module _ {H D N : Type 0} (format : Format) (text : Text) (os : Os H D) (web : Web N) where
  -- Loki has its client, and no goroutine is left that connects it.
  abbrev pub IsConnected : Program H D N → Type 0
  IsConnected p =
      ((timeout : ℕ) × (p.agent.world.loki.client ≡ some timeout))
      × Absent loki (map (λ x. x.0) p.pending)

  -- Loki is not among the outputs, or it has been connected.
  abbrev pub Safe : Program H D N → Type 0
  Safe p = Serves Other p.agent ⊎ IsConnected p

  write_to-loki :
      (k : Kind) (batch : List Telemetry) (w : World H D N)
      → (write_to (fleet format text os web) k batch w).0.loki ≡ w.loki
  write_to-loki k batch w =
      write_to_cases (fleet format text os web) (λ r. r.0.loki ≡ w.loki) k batch w refl
        (λ ts. write-loki format text os web k ts w)

  no_loki_calm :
      (k : Kind) (batch : List Telemetry) (w : World H D N)
      → Other k
      → (write format text os web k batch w).1 ≢ panicked
  no_loki_calm console batch w o = write_console_calm format text os web batch w
  no_loki_calm file batch w o = write_file_calm format text os web batch w
  no_loki_calm loki batch w o = absurd (o refl)

  client_calm :
      (k : Kind) (batch : List Telemetry) (w : World H D N) (timeout : ℕ)
      → w.loki.client ≡ some timeout
      → (write format text os web k batch w).1 ≢ panicked
  client_calm console batch w timeout c = write_console_calm format text os web batch w
  client_calm file batch w timeout c = write_file_calm format text os web batch w
  client_calm loki batch w timeout c = write_loki_calm format text os web batch w timeout c

  write_to_calm :
      (k : Kind) (batch : List Telemetry) (w : World H D N)
      → ((ts : List Telemetry) → (write format text os web k ts w).1 ≢ panicked)
      → (write_to (fleet format text os web) k batch w).1 ≢ panicked
  write_to_calm k batch w calm =
      write_to_cases (fleet format text os web) (λ r. r.1 ≢ panicked) k batch w (λ q. cc) calm

  agent_up :
      (e : Agent.Event) (p : Program H D N) (b : Agent.Agent Kind (World H D N))
      → Safe p
      → p.agent.main ≢ crashed
      → Agent.step (fleet format text os web) e p.agent ≡ some b
      → (b.main ≢ crashed) × (b.world.loki ≡ p.agent.world.loki)
  agent_up e p b safe up h = elim (step-Moves (fleet format text os web) e p.agent b up h) [
    | inl (same, on) ↦ (on, ap (λ (w : World H D N). w.loki) same)
    | inr (last, batch, k, ks, m, after, on) ↦ (
      on (
          write_to_calm k batch p.agent.world (λ ts. elim safe [
            | inl serves ↦
                no_loki_calm k ts p.agent.world (subst (λ x. Serving Other x) m serves.serving).0
            | inr ((timeout, c), gone) ↦ client_calm k ts p.agent.world timeout c
          ])),
      ap (λ (w : World H D N). w.loki) after ∙ write_to-loki k batch p.agent.world,
    )
  ]

  connect-client :
      (k : Kind) (config : Config) (w : World H D N)
      → Other k
      → (connect format text os web k config w).0.loki ≡ w.loki
  unfolding connect
  connect-client console config w o = refl
  connect-client file config w o = refl
  connect-client loki config w o = absurd (o refl)

  abbrev Fine : Program H D N → Type 0
  Fine p = Safe p × (p.agent.main ≢ crashed)

  connected-Fine :
      (n : ℕ) (p : Program H D N) (x : Kind × Config) (left : List (Kind × Config))
      (q : Program H D N)
      → pick n p.pending ≡ some (x, left)
      → connected format text os web (some (x, left)) p ≡ some q
      → Fine p
      → Fine q
  unfolding connected
  connected-Fine n p (k, config) left q got h (inl serves, up) =
      subst (λ r. Fine r) (some_eq h)
        (inl (record { outputs = serves.outputs; serving = serves.serving }), up)
  connected-Fine n p (k, config) left q got h (inr ((timeout, c), gone), up) =
      let (other, rest) = pick-Absent n p.pending left (k, config) got gone in
      let same = ap (λ l. l.client) (connect-client k config p.agent.world other) in
      subst (λ r. Fine r) (some_eq h) (inr ((timeout, same ∙ c), rest), up)

  connects-Fine :
      (n : ℕ) (p q : Program H D N) → step_connect format text os web n p ≡ some q → Fine p → Fine q
  unfolding step_connect connected
  connects-Fine n p q h fine = elim (Bool-cases (alive p.agent.main)) [
    | inl live ↦ elim (Option-cases (pick n p.pending)) [
      | inl gone ↦ cc (rw (live, gone) at h)
      | inr ((x, left), got) ↦ connected-Fine n p x left q got (rw (live, got) at h) fine
    ]
    | inr dead ↦ cc (rw dead at h)
  ]

  acted-Fine :
      (e : Agent.Event) (p : Program H D N) (b : Agent.Agent Kind (World H D N)) (q : Program H D N)
      → Agent.step (fleet format text os web) e p.agent ≡ some b
      → acted format text os web (some b) p ≡ some q
      → Fine p
      → Fine q
  unfolding acted
  acted-Fine e p b q h g (safe, up) =
      let (on, same) = agent_up e p b safe up h in
      subst (λ r. Fine r) (some_eq g)
        (
          elim safe [
            | inl serves ↦ inl (step-Serves Other (fleet format text os web) e p.agent b h serves)
            | inr ((timeout, c), gone) ↦ inr ((timeout, ap (λ l. l.client) same ∙ c), gone)
          ],
          on,
        )

  acts-Fine :
      (e : Agent.Event) (p q : Program H D N)
      → acted format text os web (Agent.step (fleet format text os web) e p.agent) p ≡ some q
      → Fine p
      → Fine q
  unfolding acted
  acts-Fine e p q h fine = elim (Option-cases (Agent.step (fleet format text os web) e p.agent)) [
    | inl n ↦ cc (rw n at h)
    | inr (b, n) ↦ acted-Fine e p b q n (rw n at h) fine
  ]

  run-Fine :
      (ss : List Step) (p q : Program H D N)
      → run format text os web ss p ≡ some q
      → Fine p
      → Fine q
  unfolding run step
  run-Fine [] p q h fine = subst (λ r. Fine r) (some_eq h) fine
  run-Fine (acts e ∷ ss) p q h fine = elim (Option-cases (step format text os web (acts e) p)) [
    | inl n ↦ cc (rw (n, run) at h)
    | inr (m, d) ↦ run-Fine ss m q (rw (d, run) at h) (acts-Fine e p m d fine)
  ]
  run-Fine (connects n ∷ ss) p q h fine =
      elim (Option-cases (step format text os web (connects n) p)) [
        | inl gone ↦ cc (rw (gone, run) at h)
        | inr (m, d) ↦ run-Fine ss m q (rw (d, run) at h) (connects-Fine n p m d fine)
      ]

  Absent-Other : (ks : List Kind) → Absent loki ks → All Other ks
  Absent-Other [] a = tt
  Absent-Other (k ∷ ks) (o, a) = (o, Absent-Other ks a)

  -- At the start of a configuration without Loki.
  pub launched-Safe :
      (configs : GoMap Bytes Config) (w : World H D N)
      → IsMap configs
      → lookup (codes "loki") configs ≡ none
      → Safe (launched configs w)
  unfolding Agent.start
  launched-Safe configs w m without =
      let (m', same) = initialize_outputs_lem configs m in
      let started = initialize_outputs configs in
      inl (record {
        outputs =
            Absent-Other (outputs_of configs)
              (Absent-kinds loki started (Lacks-lookup loki started (same loki ∙ without)));
        serving = tt;
      })

  -- From a state in which Loki is not among the outputs, or has its client and nothing left that
  -- connects it, no run takes the process down by a panic: whatever the outputs are given, whatever
  -- the disk and the network answer and whenever the other outputs connect.
  pub run-unharmed :
      (p : Program H D N) (ss : List Step) {q : Program H D N}
      → Safe p
      → p.agent.main ≢ crashed
      → run format text os web ss p ≡ some q
      → q.agent.main ≢ crashed
  run-unharmed p ss {q} safe up h = (run-Fine ss p q h (safe, up)).1
