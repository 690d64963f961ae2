-- ===== src/Host.antt =====
-- The agent as a whole: cmd/arbutus/main.go with the goroutines that internal/plugins/inputs/inputs.go
-- starts. The three inputs run beside the main loop and the outputs. An input hands a log over by
-- `AddLog` of the accumulator, which is the pipeline; what it has made and not yet handed over stands in
-- its queue. The order in which logs were handed over is kept beside the state and steers nothing.
pub mod Order
pub mod Queues
pub mod Inputs
pub mod Terminal
mod Tests
use arbutus.Agent
use arbutus.Agent.{alive}
use arbutus.Base.{
  Bool, true, false, List, [], ◌∷◌, ◌++◌, Option, none, some, length, drop, Bytes, if◌then◌else◌,
}
use arbutus.Inputs.Dnssnoop
use arbutus.Inputs.Dnssnoop.{DnssnoopEvent}
use arbutus.Inputs.Fleet.{Input, dnssnoop, memleak, opensnoop, beq_input}
use arbutus.Inputs.Memleak.Loop
use arbutus.Inputs.Memleak.Report.{Sorter}
use arbutus.Inputs.Memleak.{Memleak}
use arbutus.Inputs.Opensnoop
use arbutus.Inputs.Opensnoop.{OpensnoopEvent}
use arbutus.Inputs.Reader
use arbutus.Models.{Log, log}
use arbutus.Outputs.File.{Os}
use arbutus.Outputs.Fleet.Starting
use arbutus.Outputs.Fleet.Starting.{Program, acts, connects}
use arbutus.Outputs.Lines.{Format}
use arbutus.Outputs.Loki.Client.{Web}
use arbutus.Outputs.Loki.{Text}

pub record Host (H D N : Type 0) : Type 0 where
  pub program : Program H D N
  pub opens : Reader.Reader OpensnoopEvent
  pub asks : Reader.Reader DnssnoopEvent
  pub leaks : Memleak × Loop.Status
  -- what the loop of memleak has made
  pub reported : List Log
  pub queue : Input → List Log
  pub order : List (Input × Log)

pub data Step : Type 0 where
  -- the main loop, a goroutine that sends a token, or a `Connect`
  runs : Starting.Step → Step
  -- an input
  on_opensnoop on_dnssnoop : Reader.Step → Step
  on_memleak : Loop.Event → Step
  -- an input calls `AddLog`
  hands : Input → Step

abbrev pub put : Input → List Log → (Input → List Log) → Input → List Log
put i logs queue j = if beq_input i j then queue j ++ logs else queue j

abbrev pub set : Input → List Log → (Input → List Log) → Input → List Log
set i logs queue j = if beq_input i j then logs else queue j

-- What `AddLog` is for, when nobody but an input calls it.
abbrev is_add : Starting.Step → Bool
is_add (acts (Agent.adds t)) = true
is_add _ = false

module _ {H D N : Type 0} (format : Format) (text : Text) (os : Os H D) (web : Web N)
    (name : Option Bytes) (sorter : Sorter) where
  ran : Option (Program H D N) → Host H D N → Option (Host H D N)
  ran none h = none
  ran (some p) h = some (record h { program = p })

  opened : Option (Reader.Reader OpensnoopEvent) → Host H D N → Option (Host H D N)
  opened none h = none
  opened (some r) h =
      some
        (record h { opens = r; queue = put opensnoop (drop (length h.opens.logs) r.logs) h.queue })

  asked : Option (Reader.Reader DnssnoopEvent) → Host H D N → Option (Host H D N)
  asked none h = none
  asked (some r) h =
      some (record h { asks = r; queue = put dnssnoop (drop (length h.asks.logs) r.logs) h.queue })

  looked : Memleak × Loop.Status × List Log → Host H D N → Host H D N
  looked (m, status, logs) h = record h {
    leaks = (m, status);
    reported = h.reported ++ logs;
    queue = put memleak logs h.queue;
  }

  added : Input → Log → List Log → Option (Program H D N) → Host H D N → Option (Host H D N)
  added i l ls none h = none
  added i l ls (some p) h =
      some (record h { program = p; queue = set i ls h.queue; order = h.order ++ (i, l) ∷ [] })

  hand : Input → List Log → Host H D N → Option (Host H D N)
  unfolding added
  hand i [] h = none
  hand i (l ∷ ls) h =
      added i l ls (Starting.step format text os web (acts (Agent.adds (log l))) h.program) h

  step_any : Step → Host H D N → Option (Host H D N)
  unfolding ran opened asked looked hand
  step_any (runs s) h =
      if is_add s then none else ran (Starting.step format text os web s h.program) h
  step_any (on_opensnoop s) h =
      opened (Reader.step Opensnoop.decode (Opensnoop.to_log name) s h.opens) h
  step_any (on_dnssnoop s) h = asked (Reader.step Dnssnoop.decode (Dnssnoop.to_log name) s h.asks) h
  step_any (on_memleak e) h = some (looked (Loop.step sorter e h.leaks) h)
  step_any (hands i) h = hand i (h.queue i) h

  -- `none`: the step cannot happen in this state.
  unfoldable pub step : Step → Host H D N → Option (Host H D N)
  unfolding step_any
  step s h = if alive h.program.agent.main then step_any s h else none

  unfoldable pub run : List Step → Host H D N → Option (Host H D N)
  unfolding step
  run [] h = some h
  run (s ∷ ss) h = elim (step s h) [ none ↦ none | some q ↦ run ss q ]

-- `main` has called `InitializeOutputs` and `InitializeInputs`, and each `Run` has come to its loop.
abbrev pub started : {H D N : Type 0} → Program H D N → Memleak → Host H D N
started p m = record {
  program = p;
  opens = Reader.started;
  asks = Reader.started;
  leaks = (m, Loop.waiting);
  reported = [];
  queue = λ i. [];
  order = [];
}
