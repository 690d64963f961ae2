-- ===== src/Host/Order.antt =====
-- The order in which logs are handed over, against the run of the program and the logs of each input.
use mathlib.Core.Path.{subst}
use arbutus.Agent
use arbutus.Agent.Ledger.{added}
use arbutus.Agent.{alive}
use arbutus.Base.{
  ◌≡◌, refl, sym, ap, ◌∙◌, inl, inr, false, List, [], ◌∷◌, ◌++◌, append_assoc, append-nil, Option,
  none, some, some_eq, Bytes, Bool-cases, Option-cases,
}
use arbutus.Host.{
  Host, Step, runs, on_opensnoop, on_dnssnoop, on_memleak, hands, is_add, ran, opened, asked,
  looked, hand, step_any, step, run,
}
use arbutus.Host.{added as note}
use arbutus.Inputs.Fleet.{Input}
use arbutus.Inputs.Dnssnoop
use arbutus.Inputs.Dnssnoop.{DnssnoopEvent}
use arbutus.Inputs.Opensnoop
use arbutus.Inputs.Opensnoop.{OpensnoopEvent}
use arbutus.Inputs.Reader
use arbutus.Inputs.Memleak.Report.{Sorter}
use arbutus.Models.{Log, Telemetry, log}
use arbutus.Outputs.File.{Os}
use arbutus.Outputs.Fleet.Starting
use arbutus.Outputs.Fleet.Starting.Printer.{events}
use arbutus.Outputs.Fleet.Starting.{Program, acts, connects}
use arbutus.Outputs.Lines.{Format}
use arbutus.Outputs.Loki.Client.{Web}
use arbutus.Outputs.Loki.{Text}

-- What was handed over, as the pipeline has it.
abbrev pub telemetry : List (Input × Log) → List Telemetry
telemetry [] = []
telemetry ((i, l) ∷ order) = log l ∷ telemetry order

telemetry-append :
    (xs ys : List (Input × Log)) → telemetry (xs ++ ys) ≡ telemetry xs ++ telemetry ys
telemetry-append [] ys = refl
telemetry-append ((i, l) ∷ xs) ys = ap (λ ts. log l ∷ ts) (telemetry-append xs ys)

added-append :
    (xs ys : List Starting.Step)
    → added (events (xs ++ ys)) ≡ added (events xs) ++ added (events ys)
added-append [] ys = refl
added-append (acts (Agent.adds t) ∷ xs) ys = ap (λ ts. t ∷ ts) (added-append xs ys)
added-append (acts _ ∷ xs) ys = added-append xs ys
added-append (connects n ∷ xs) ys = added-append xs ys

quiet : (s : Starting.Step) → is_add s ≡ false → added (events (s ∷ [])) ≡ []
quiet (acts (Agent.adds t)) h = cc
quiet (acts _) h = refl
quiet (connects n) h = refl

module _ {H D N : Type 0} (format : Format) (text : Text) (os : Os H D) (web : Web N)
    (name : Option Bytes) (sorter : Sorter) where
  -- The program has come from one state to the other by steps in which it was handed the logs that the
  -- order has got.
  pub record Leads (h q : Host H D N) : Type 0 where
    pub steps : List Starting.Step
    pub news : List (Input × Log)
    pub went : Starting.run format text os web steps h.program ≡ some q.program
    pub ordered : q.order ≡ h.order ++ news
    pub told : added (events steps) ≡ telemetry news

  run-append :
      (xs ys : List Starting.Step) (p q : Program H D N)
      → Starting.run format text os web xs p ≡ some q
      → Starting.run format text os web (xs ++ ys) p ≡ Starting.run format text os web ys q
  unfolding Starting.run
  run-append [] ys p q h = ap (Starting.run format text os web ys) (some_eq h)
  run-append (s ∷ xs) ys p q h = elim (Option-cases (Starting.step format text os web s p)) [
    | inl e ↦ cc (rw (e, Starting.run) at h)
    | inr (m, e) ↦ rw (e, Starting.run) (run-append xs ys m q (rw (e, Starting.run) at h))
  ]

  run-one :
      (s : Starting.Step) (p q : Program H D N)
      → Starting.step format text os web s p ≡ some q
      → Starting.run format text os web (s ∷ []) p ≡ some q
  unfolding Starting.run
  run-one s p q h = rw (h, Starting.run) refl

  Leads-trans : (h m q : Host H D N) → Leads h m → Leads m q → Leads h q
  Leads-trans h m q f g = record {
    steps = f.steps ++ g.steps;
    news = f.news ++ g.news;
    went = run-append f.steps g.steps h.program m.program f.went ∙ g.went;
    ordered = g.ordered ∙ ap (λ xs. xs ++ g.news) f.ordered ∙ append_assoc h.order f.news g.news;
    told =
        added-append f.steps g.steps
        ∙ ap (λ xs. xs ++ added (events g.steps)) f.told
        ∙ ap (λ xs. telemetry f.news ++ xs) g.told
        ∙ sym (telemetry-append f.news g.news);
  }

  -- A step that leaves the program and the order as they are.
  Leads-nothing : (h q : Host H D N) → q.program ≡ h.program → q.order ≡ h.order → Leads h q
  unfolding Starting.run
  Leads-nothing h q p o = record {
    steps = [];
    news = [];
    went = ap some (sym p);
    ordered = o ∙ sym (append-nil h.order);
    told = refl;
  }

  ran-Leads :
      (s : Starting.Step) (o : Option (Program H D N)) (h q : Host H D N)
      → Starting.step format text os web s h.program ≡ o
      → is_add s ≡ false
      → ran format text os web name sorter o h ≡ some q
      → Leads h q
  unfolding ran
  ran-Leads s none h q e n g = cc
  ran-Leads s (some p) h q e n g = subst (Leads h) (some_eq g) (record {
    steps = s ∷ [];
    news = [];
    went = run-one s h.program p e;
    ordered = sym (append-nil h.order);
    told = quiet s n;
  })

  hand-Leads :
      (i : Input) (ls : List Log) (h q : Host H D N)
      → hand format text os web name sorter i ls h ≡ some q
      → Leads h q
  unfolding hand note
  hand-Leads i [] h q g = cc
  hand-Leads i (l ∷ ls) h q g =
      elim (Option-cases (Starting.step format text os web (acts (Agent.adds (log l))) h.program)) [
        | inl e ↦ cc (rw (e, hand, note) at g)
        | inr (p, e) ↦ subst (Leads h) (some_eq (rw (e, hand, note) at g)) (record {
          steps = acts (Agent.adds (log l)) ∷ [];
          news = (i, l) ∷ [];
          went = run-one (acts (Agent.adds (log l))) h.program p e;
          ordered = refl;
          told = refl;
        })
      ]

  opened-Leads :
      (o : Option (Reader.Reader OpensnoopEvent)) (h q : Host H D N)
      → opened format text os web name sorter o h ≡ some q
      → Leads h q
  unfolding opened
  opened-Leads none h q g = cc
  opened-Leads (some r) h q g = subst (Leads h) (some_eq g) (Leads-nothing h _ refl refl)

  asked-Leads :
      (o : Option (Reader.Reader DnssnoopEvent)) (h q : Host H D N)
      → asked format text os web name sorter o h ≡ some q
      → Leads h q
  unfolding asked
  asked-Leads none h q g = cc
  asked-Leads (some r) h q g = subst (Leads h) (some_eq g) (Leads-nothing h _ refl refl)

  step_any-Leads :
      (s : Step) (h q : Host H D N)
      → step_any format text os web name sorter s h ≡ some q
      → Leads h q
  unfolding step_any looked
  step_any-Leads (runs s) h q g = elim (Bool-cases (is_add s)) [
    | inl e ↦ cc (rw e at g)
    | inr e ↦ ran-Leads s (Starting.step format text os web s h.program) h q refl e (rw e at g)
  ]
  step_any-Leads (on_opensnoop s) h q g =
      opened-Leads (Reader.step Opensnoop.decode (Opensnoop.to_log name) s h.opens) h q g
  step_any-Leads (on_dnssnoop s) h q g =
      asked-Leads (Reader.step Dnssnoop.decode (Dnssnoop.to_log name) s h.asks) h q g
  step_any-Leads (on_memleak e) h q g = subst (Leads h) (some_eq g) (Leads-nothing h _ refl refl)
  step_any-Leads (hands i) h q g = hand-Leads i (h.queue i) h q g

  step-Leads :
      (s : Step) (h q : Host H D N) → step format text os web name sorter s h ≡ some q → Leads h q
  unfolding step
  step-Leads s h q g = elim (Bool-cases (alive h.program.agent.main)) [
    | inl e ↦ step_any-Leads s h q (rw (e, step) at g)
    | inr e ↦ cc (rw (e, step) at g)
  ]

  pub run-Leads :
      (ss : List Step) (h q : Host H D N)
      → run format text os web name sorter ss h ≡ some q
      → Leads h q
  unfolding run
  run-Leads [] h q g =
      Leads-nothing h q (ap (λ (x : Host H D N). x.program) (sym (some_eq g)))
        (ap (λ (x : Host H D N). x.order) (sym (some_eq g)))
  run-Leads (s ∷ ss) h q g = elim (Option-cases (step format text os web name sorter s h)) [
    | inl e ↦ cc (rw (e, run) at g)
    | inr (m, e) ↦ Leads-trans h m q (step-Leads s h m e) (run-Leads ss m q (rw (e, run) at g))
  ]
