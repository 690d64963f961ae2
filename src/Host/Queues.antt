-- ===== src/Host/Queues.antt =====
-- Each input's logs: what it has handed over, and what stands in its queue.
use mathlib.Core.Path.{subst}
use arbutus.Base.{
  ◌≡◌, refl, sym, ap, ◌∙◌, inl, inr, List, [], ◌∷◌, ◌++◌, append_assoc, append-nil, Option, none,
  some, some_eq, length, drop, drop-length-append, Bytes, Bool-cases, Option-cases, if◌then◌else◌,
}
use arbutus.Agent
use arbutus.Agent.{alive}
use arbutus.Host.{
  Host, Step, runs, on_opensnoop, on_dnssnoop, on_memleak, hands, set, is_add, ran, opened, asked,
  looked, hand, step_any, step, run,
}
use arbutus.Host.{added as note}
use arbutus.Inputs.Dnssnoop
use arbutus.Inputs.Dnssnoop.{DnssnoopEvent}
use arbutus.Inputs.Fleet.{Input, dnssnoop, memleak, opensnoop, beq_input, beq_input_iff}
use arbutus.Inputs.Memleak.Loop
use arbutus.Inputs.Memleak.{Memleak}
use arbutus.Inputs.Memleak.Report.{Sorter}
use arbutus.Inputs.Opensnoop
use arbutus.Inputs.Opensnoop.{OpensnoopEvent}
use arbutus.Inputs.Reader
use arbutus.Inputs.Reader.Passes.{step-Passes}
use arbutus.Models.{Log, Time, log}
use arbutus.Outputs.File.{Os}
use arbutus.Outputs.Fleet.Starting
use arbutus.Outputs.Fleet.Starting.{Program, acts}
use arbutus.Outputs.Lines.{Format}
use arbutus.Outputs.Loki.Client.{Web}
use arbutus.Outputs.Loki.{Text}

-- The logs of one input in the order in which they were handed over.
abbrev pub logs_by : Input → List (Input × Log) → List Log
logs_by i [] = []
logs_by i ((j, l) ∷ order) = if beq_input j i then l ∷ logs_by i order else logs_by i order

logs_by-append :
    (i : Input) (xs ys : List (Input × Log)) → logs_by i (xs ++ ys) ≡ logs_by i xs ++ logs_by i ys
logs_by-append i [] ys = refl
logs_by-append i ((j, l) ∷ xs) ys = elim (Bool-cases (beq_input j i)) [
  | inl q ↦ rw q (ap (λ ls. l ∷ ls) (logs_by-append i xs ys))
  | inr q ↦ rw q (logs_by-append i xs ys)
]

-- A step of a reader adds to its logs.
step-logs :
    {E : Type 0} (decode : Bytes → Option E) (to_log : Time → E → Option Log) (s : Reader.Step)
    (r q : Reader.Reader E)
    → Reader.step decode to_log s r ≡ some q
    → q.logs ≡ r.logs ++ drop (length r.logs) q.logs
step-logs decode to_log s r q h =
    let p = step-Passes decode to_log s r q h in
    let news = ap (drop (length r.logs)) p.logged ∙ drop-length-append r.logs _ in
    p.logged ∙ ap (λ ls. r.logs ++ ls) (sym news)

-- Handed over, and then waiting, is all that an input has made.
pub record Books {H D N : Type 0} (h : Host H D N) : Type 0 where
  pub opens : logs_by opensnoop h.order ++ h.queue opensnoop ≡ h.opens.logs
  pub asks : logs_by dnssnoop h.order ++ h.queue dnssnoop ≡ h.asks.logs
  pub leaks : logs_by memleak h.order ++ h.queue memleak ≡ h.reported

-- More logs at the end of a queue.
more :
    (before queue made news all : List Log)
    → before ++ queue ≡ made
    → all ≡ made ++ news
    → before ++ (queue ++ news) ≡ all
more before queue made news all h g =
    sym (append_assoc before queue news) ∙ ap (λ ls. ls ++ news) h ∙ sym g

-- The log at the front of the queue is handed over.
handed :
    (i j : Input) (l : Log) (ls : List Log) (order : List (Input × Log)) (queue : Input → List Log)
    → queue i ≡ l ∷ ls
    → logs_by j (order ++ (i, l) ∷ []) ++ set i ls queue j ≡ logs_by j order ++ queue j
handed i j l ls order queue h =
    rw (logs_by-append j order ((i, l) ∷ [])) (elim (Bool-cases (beq_input i j)) [
      | inl q ↦ rw q (
          append_assoc (logs_by j order) (l ∷ []) ls
          ∙ ap (λ xs. logs_by j order ++ xs) (rw ((beq_input_iff i j).0 q) at (sym h)))
      | inr q ↦ rw q (ap (λ xs. xs ++ queue j) (append-nil (logs_by j order)))
    ])

module _ {H D N : Type 0} (format : Format) (text : Text) (os : Os H D) (web : Web N)
    (name : Option Bytes) (sorter : Sorter) where
  ran-Books :
      (o : Option (Program H D N)) (h q : Host H D N)
      → ran format text os web name sorter o h ≡ some q
      → Books h
      → Books q
  unfolding ran
  ran-Books none h q g b = absurd cc
  ran-Books (some p) h q g b =
      subst Books (some_eq g) (record { opens = b.opens; asks = b.asks; leaks = b.leaks })

  opened-Books :
      (s : Reader.Step) (o : Option (Reader.Reader OpensnoopEvent)) (h q : Host H D N)
      → Reader.step Opensnoop.decode (Opensnoop.to_log name) s h.opens ≡ o
      → opened format text os web name sorter o h ≡ some q
      → Books h
      → Books q
  unfolding opened
  opened-Books s none h q e g b = absurd cc
  opened-Books s (some r) h q e g b = subst Books (some_eq g) (record {
    opens =
        more (logs_by opensnoop h.order) (h.queue opensnoop) h.opens.logs
          (drop (length h.opens.logs) r.logs) r.logs b.opens
          (step-logs Opensnoop.decode (Opensnoop.to_log name) s h.opens r e);
    asks = b.asks;
    leaks = b.leaks;
  })

  asked-Books :
      (s : Reader.Step) (o : Option (Reader.Reader DnssnoopEvent)) (h q : Host H D N)
      → Reader.step Dnssnoop.decode (Dnssnoop.to_log name) s h.asks ≡ o
      → asked format text os web name sorter o h ≡ some q
      → Books h
      → Books q
  unfolding asked
  asked-Books s none h q e g b = absurd cc
  asked-Books s (some r) h q e g b = subst Books (some_eq g) (record {
    opens = b.opens;
    asks =
        more (logs_by dnssnoop h.order) (h.queue dnssnoop) h.asks.logs
          (drop (length h.asks.logs) r.logs) r.logs b.asks
          (step-logs Dnssnoop.decode (Dnssnoop.to_log name) s h.asks r e);
    leaks = b.leaks;
  })

  looked-Books :
      (found : Memleak × Loop.Status × List Log) (h : Host H D N)
      → Books h
      → Books (looked format text os web name sorter found h)
  unfolding looked
  looked-Books (m, status, logs) h b = record {
    opens = b.opens;
    asks = b.asks;
    leaks =
        more (logs_by memleak h.order) (h.queue memleak) h.reported logs (h.reported ++ logs)
          b.leaks refl;
  }

  note-Books :
      (i : Input) (l : Log) (ls : List Log) (o : Option (Program H D N)) (h q : Host H D N)
      → h.queue i ≡ l ∷ ls
      → note format text os web name sorter i l ls o h ≡ some q
      → Books h
      → Books q
  unfolding note
  note-Books i l ls none h q e g b = absurd cc
  note-Books i l ls (some p) h q e g b = subst Books (some_eq g) (record {
    opens = handed i opensnoop l ls h.order h.queue e ∙ b.opens;
    asks = handed i dnssnoop l ls h.order h.queue e ∙ b.asks;
    leaks = handed i memleak l ls h.order h.queue e ∙ b.leaks;
  })

  hand-Books :
      (i : Input) (ls : List Log) (h q : Host H D N)
      → h.queue i ≡ ls
      → hand format text os web name sorter i ls h ≡ some q
      → Books h
      → Books q
  unfolding hand
  hand-Books i [] h q e g b = absurd cc
  hand-Books i (l ∷ ls) h q e g b =
      note-Books i l ls (Starting.step format text os web (acts (Agent.adds (log l))) h.program) h q
        e g b

  step_any-Books :
      (s : Step) (h q : Host H D N)
      → step_any format text os web name sorter s h ≡ some q
      → Books h
      → Books q
  unfolding step_any
  step_any-Books (runs s) h q g b = elim (Bool-cases (is_add s)) [
    | inl e ↦ absurd cc (rw e at g)
    | inr e ↦ ran-Books (Starting.step format text os web s h.program) h q (rw e at g) b
  ]
  step_any-Books (on_opensnoop s) h q g b =
      opened-Books s (Reader.step Opensnoop.decode (Opensnoop.to_log name) s h.opens) h q refl g b
  step_any-Books (on_dnssnoop s) h q g b =
      asked-Books s (Reader.step Dnssnoop.decode (Dnssnoop.to_log name) s h.asks) h q refl g b
  step_any-Books (on_memleak e) h q g b =
      subst Books (some_eq g) (looked-Books (Loop.step sorter e h.leaks) h b)
  step_any-Books (hands i) h q g b = hand-Books i (h.queue i) h q refl g b

  step-Books :
      (s : Step) (h q : Host H D N)
      → step format text os web name sorter s h ≡ some q
      → Books h
      → Books q
  unfolding step
  step-Books s h q g b = elim (Bool-cases (alive h.program.agent.main)) [
    | inl e ↦ step_any-Books s h q (rw (e, step) at g) b
    | inr e ↦ absurd (cc (rw (e, step) at g))
  ]

  pub run-Books :
      (ss : List Step) (h q : Host H D N)
      → run format text os web name sorter ss h ≡ some q
      → Books h
      → Books q
  unfolding run
  run-Books [] h q g b = subst Books (some_eq g) b
  run-Books (s ∷ ss) h q g b = elim (Option-cases (step format text os web name sorter s h)) [
    | inl e ↦ absurd (cc (rw (e, run) at g))
    | inr (m, e) ↦ run-Books ss m q (rw (e, run) at g) (step-Books s h m e b)
  ]
