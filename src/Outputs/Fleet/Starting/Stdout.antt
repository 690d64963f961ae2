-- ===== src/Outputs/Fleet/Starting/Stdout.antt =====
-- The agent with the real outputs, from an input's `AddLog` to the standard output.
use arbutus.Agent
use arbutus.Agent.Ledger.{added, in_flight}
use arbutus.Agent.Replay.{run-calls}
use arbutus.Agent.View.{seen}
use arbutus.Agent.{Agent, Main, selecting, exited, crashed}
use arbutus.Base.{
  ◌≡◌, ◌≢◌, ◌⊎◌, refl, sym, ap, ◌∙◌, inl, inr, List, [], ◌∷◌, ◌++◌, append-nil, some, Bytes, codes,
  bytes_eq, GoMap, lookup, IsMap,
}
use arbutus.Models.{Telemetry, log, span, metric}
use arbutus.Models.Plugin.{Output}
use arbutus.Outputs.Console
use arbutus.Outputs.File.{Os}
use arbutus.Outputs.Fleet.Starting.Printer.{events, printer, stdout_of, run-printer}
use arbutus.Outputs.Fleet.Starting.{Step, Program, launched, run}
use arbutus.Outputs.Fleet.Startup.{outputs_of, outputs-Once}
use arbutus.Outputs.Fleet.{Kind, console, file, loki, kind_eq, Config, World}
use arbutus.Outputs.Lines.{Format}
use arbutus.Outputs.Loki.Client.{Web}
use arbutus.Outputs.Loki.{Text}
use arbutus.Pipeline.Delivery.{Calls, Calm, received, share}
use arbutus.Pipeline.Replay.{replay, answers}
use arbutus.Pipeline.{supports}

-- Between two flushes, or when the program has returned.
abbrev pub IsSettled : {W : Type 0} → Agent.Agent Kind W → Type 0
IsSettled a = (a.main ≡ selecting) ⊎ (a.main ≡ exited)

settled_up : {W : Type 0} (a : Agent.Agent Kind W) → IsSettled a → a.main ≢ crashed
settled_up a (inl e) = λ q. cc
settled_up a (inr e) = λ q. cc

module _ (format : Format) where
  print-append :
      (xs ys : List Telemetry) (stdout : Bytes)
      → Console.write format (xs ++ ys) stdout
        ≡ Console.write format ys (Console.write format xs stdout)
  unfolding Console.write
  print-append [] ys stdout = refl
  print-append (x ∷ xs) ys stdout = print-append xs ys _

  module _ {H D N : Type 0} (text : Text) (os : Os H D) (web : Web N) where
    abbrev api : Output Kind Bytes
    api = printer format text os web

    replay-print :
        (stdout : Bytes) (calls : Calls Kind)
        → replay api stdout calls ≡ Console.write format (received console calls) stdout
    unfolding replay Console.write
    replay-print stdout [] = refl
    replay-print stdout ((console, batch) ∷ calls) =
        replay-print (Console.write format batch stdout) calls
        ∙ sym (print-append batch (received console calls) stdout)
    replay-print stdout ((file, batch) ∷ calls) = replay-print stdout calls
    replay-print stdout ((loki, batch) ∷ calls) = replay-print stdout calls

    -- A trace, which the console does not support, prints nothing in any case.
    print-share :
        (s : Bytes) (ts : List Telemetry) (stdout : Bytes)
        → Console.write format (share api.supported_types (answers api s) console ts) stdout
          ≡ Console.write format ts stdout
    unfolding Console.write supports
    print-share s [] stdout = refl
    print-share s (log l ∷ ts) stdout = print-share s ts _
    print-share s (metric m ∷ ts) stdout = print-share s ts _
    print-share s (span x ∷ ts) stdout = print-share s ts stdout

    settled-in_flight :
        (s : Bytes) (a : Agent.Agent Kind Bytes)
        → IsSettled a
        → in_flight api.supported_types (answers api s) console a.main ≡ []
    settled-in_flight s a (inl e) = rw e
    settled-in_flight s a (inr e) = rw e

    printer-Calm :
        (s : Bytes) (outputs : List Kind) → Calm api.supported_types (answers api s) outputs
    unfolding answers
    printer-Calm s [] = tt
    printer-Calm s (k ∷ outputs) = ((λ calls batch q. cc), printer-Calm s outputs)

    -- The same of the agent whose outputs only print.
    printer-stdout :
        (configs : GoMap Bytes Config) (config : Config) (stdout : Bytes) (es : List Agent.Event)
        {a : Agent.Agent Kind Bytes}
        → IsMap configs
        → lookup (codes "console") configs ≡ some config
        → Agent.run api es (Agent.start (outputs_of configs) stdout) ≡ some a
        → IsSettled a
        → Console.write format a.pipeline.buffer a.world ≡ Console.write format (added es) stdout
    printer-stdout configs config stdout es {a} m has h settled =
        let (calls, played, books) =
          run-calls api stdout (outputs_of configs) es {a = a}
            (printer-Calm stdout (outputs_of configs)) h in
        let booked = books console (outputs-Once configs console config m has) in
        let owed = rw (settled-in_flight stdout a settled, append-nil calls) at booked in
        let left = share api.supported_types (answers api stdout) console a.pipeline.buffer in
        sym (print-share stdout a.pipeline.buffer a.world)
        ∙ ap (Console.write format left) (played ∙ replay-print stdout calls)
        ∙ sym (print-append (received console calls) left stdout)
        ∙ ap (λ ts. Console.write format ts stdout) owed
        ∙ print-share stdout (added es) stdout

    -- The whole agent, from the configuration to the terminal, with the console output configured and
    -- the names of the configuration distinct. In every run, however inputs, main loop and the
    -- `Connect` goroutines of the outputs interleave and whatever disk and network answer, whenever
    -- the process lives on or has returned and no flush is at work: what the standard output shows,
    -- with what the buffer still has to print, is all that was ever handed to `AddLog` and its like,
    -- each printed once, in that order.
    pub run-stdout :
        (configs : GoMap Bytes Config) (config : Config) (w : World H D N) (ss : List Step)
        {p : Program H D N}
        → IsMap configs
        → lookup (codes "console") configs ≡ some config
        → run format text os web ss (launched configs w) ≡ some p
        → IsSettled p.agent
        → Console.write format p.agent.pipeline.buffer p.agent.world.stdout
          ≡ Console.write format (added (events ss)) w.stdout
    unfolding Agent.start
    run-stdout configs config w ss {p} m has h settled =
        printer-stdout configs config w.stdout (events ss)
          {a = seen (stdout_of format text os web) p.agent} m has
          (run-printer format text os web ss (launched configs w) p h (settled_up p.agent settled))
          settled
