-- ===== src/Host/Inputs.antt =====
-- The runs of the readers among the steps of the whole agent.
use mathlib.Core.Path.{subst}
use arbutus.Agent.{alive}
use arbutus.Base.{
  ◌≡◌, refl, sym, ap, ◌∙◌, inl, inr, List, [], ◌∷◌, ◌++◌, Option, none, some, some_eq, Bytes,
  Bool-cases, Option-cases,
}
use arbutus.Host.{
  Host, Step, runs, on_opensnoop, on_dnssnoop, on_memleak, hands, is_add, ran, opened, asked,
  looked, hand, step_any, step, run,
}
use arbutus.Host.{added as note}
use arbutus.Agent
use arbutus.Inputs.Dnssnoop
use arbutus.Inputs.Dnssnoop.{DnssnoopEvent}
use arbutus.Inputs.Fleet.{Input}
use arbutus.Inputs.Memleak.Report.{Sorter}
use arbutus.Inputs.Opensnoop
use arbutus.Inputs.Opensnoop.{OpensnoopEvent}
use arbutus.Inputs.Reader
use arbutus.Models.{Log, Time, log}
use arbutus.Outputs.File.{Os}
use arbutus.Outputs.Fleet.Starting
use arbutus.Outputs.Fleet.Starting.{Program, acts}
use arbutus.Outputs.Lines.{Format}
use arbutus.Outputs.Loki.Client.{Web}
use arbutus.Outputs.Loki.{Text}

-- The steps of the two readers.
abbrev pub opens_of : List Step → List Reader.Step
opens_of [] = []
opens_of (on_opensnoop s ∷ ss) = s ∷ opens_of ss
opens_of (_ ∷ ss) = opens_of ss

abbrev pub asks_of : List Step → List Reader.Step
asks_of [] = []
asks_of (on_dnssnoop s ∷ ss) = s ∷ asks_of ss
asks_of (_ ∷ ss) = asks_of ss

opens_of-cons : (s : Step) (ss : List Step) → opens_of (s ∷ ss) ≡ opens_of (s ∷ []) ++ opens_of ss
opens_of-cons (on_opensnoop s) ss = refl
opens_of-cons _ ss = refl

asks_of-cons : (s : Step) (ss : List Step) → asks_of (s ∷ ss) ≡ asks_of (s ∷ []) ++ asks_of ss
asks_of-cons (on_dnssnoop s) ss = refl
asks_of-cons _ ss = refl

reader-append :
    {E : Type 0} (decode : Bytes → Option E) (to_log : Time → E → Option Log)
    (xs ys : List Reader.Step) (r m : Reader.Reader E)
    → Reader.run decode to_log xs r ≡ some m
    → Reader.run decode to_log (xs ++ ys) r ≡ Reader.run decode to_log ys m
unfolding Reader.run
reader-append decode to_log [] ys r m h = ap (Reader.run decode to_log ys) (some_eq h)
reader-append decode to_log (s ∷ xs) ys r m h =
    elim (Option-cases (Reader.step decode to_log s r)) [
      | inl e ↦ absurd (cc (rw (e, Reader.run) at h))
      | inr (n, e) ↦
          rw (e, Reader.run) (reader-append decode to_log xs ys n m (rw (e, Reader.run) at h))
    ]

module _ {H D N : Type 0} (format : Format) (text : Text) (os : Os H D) (web : Web N)
    (name : Option Bytes) (sorter : Sorter) where
  -- The readers are where these steps have brought them.
  pub record Reads (opens asks : List Reader.Step) (h q : Host H D N) : Type 0 where
    pub opened : Reader.run Opensnoop.decode (Opensnoop.to_log name) opens h.opens ≡ some q.opens
    pub asked : Reader.run Dnssnoop.decode (Dnssnoop.to_log name) asks h.asks ≡ some q.asks

  Reads-nothing : (h q : Host H D N) → q.opens ≡ h.opens → q.asks ≡ h.asks → Reads [] [] h q
  unfolding Reader.run
  Reads-nothing h q o a = record { opened = ap some (sym o); asked = ap some (sym a) }

  ran-Reads :
      (o : Option (Program H D N)) (h q : Host H D N)
      → ran format text os web name sorter o h ≡ some q
      → Reads [] [] h q
  unfolding ran
  ran-Reads none h q g = absurd cc
  ran-Reads (some p) h q g = subst (Reads [] [] h) (some_eq g) (Reads-nothing h _ refl refl)

  note-Reads :
      (i : Input) (l : Log) (ls : List Log) (o : Option (Program H D N)) (h q : Host H D N)
      → note format text os web name sorter i l ls o h ≡ some q
      → Reads [] [] h q
  unfolding note
  note-Reads i l ls none h q g = absurd cc
  note-Reads i l ls (some p) h q g = subst (Reads [] [] h) (some_eq g) (Reads-nothing h _ refl refl)

  hand-Reads :
      (i : Input) (ls : List Log) (h q : Host H D N)
      → hand format text os web name sorter i ls h ≡ some q
      → Reads [] [] h q
  unfolding hand
  hand-Reads i [] h q g = absurd cc
  hand-Reads i (l ∷ ls) h q g =
      note-Reads i l ls (Starting.step format text os web (acts (Agent.adds (log l))) h.program) h q
        g

  opened-Reads :
      (s : Reader.Step) (o : Option (Reader.Reader OpensnoopEvent)) (h q : Host H D N)
      → Reader.step Opensnoop.decode (Opensnoop.to_log name) s h.opens ≡ o
      → opened format text os web name sorter o h ≡ some q
      → Reads (s ∷ []) [] h q
  unfolding opened Reader.run
  opened-Reads s none h q e g = absurd cc
  opened-Reads s (some r) h q e g =
      subst (Reads (s ∷ []) [] h) (some_eq g)
        (record { opened = rw (e, Reader.run) refl; asked = refl })

  asked-Reads :
      (s : Reader.Step) (o : Option (Reader.Reader DnssnoopEvent)) (h q : Host H D N)
      → Reader.step Dnssnoop.decode (Dnssnoop.to_log name) s h.asks ≡ o
      → asked format text os web name sorter o h ≡ some q
      → Reads [] (s ∷ []) h q
  unfolding asked Reader.run
  asked-Reads s none h q e g = absurd cc
  asked-Reads s (some r) h q e g =
      subst (Reads [] (s ∷ []) h) (some_eq g)
        (record { opened = refl; asked = rw (e, Reader.run) refl })

  step_any-Reads :
      (s : Step) (h q : Host H D N)
      → step_any format text os web name sorter s h ≡ some q
      → Reads (opens_of (s ∷ [])) (asks_of (s ∷ [])) h q
  unfolding step_any looked
  step_any-Reads (runs s) h q g = elim (Bool-cases (is_add s)) [
    | inl e ↦ absurd (cc (rw e at g))
    | inr e ↦ ran-Reads (Starting.step format text os web s h.program) h q (rw e at g)
  ]
  step_any-Reads (on_opensnoop s) h q g =
      opened-Reads s (Reader.step Opensnoop.decode (Opensnoop.to_log name) s h.opens) h q refl g
  step_any-Reads (on_dnssnoop s) h q g =
      asked-Reads s (Reader.step Dnssnoop.decode (Dnssnoop.to_log name) s h.asks) h q refl g
  step_any-Reads (on_memleak e) h q g =
      subst (Reads [] [] h) (some_eq g) (Reads-nothing h _ refl refl)
  step_any-Reads (hands i) h q g = hand-Reads i (h.queue i) h q g

  Reads-trans :
      (xs ys xs' ys' : List Reader.Step) (h m q : Host H D N)
      → Reads xs ys h m
      → Reads xs' ys' m q
      → Reads (xs ++ xs') (ys ++ ys') h q
  Reads-trans xs ys xs' ys' h m q f g = record {
    opened =
        reader-append Opensnoop.decode (Opensnoop.to_log name) xs xs' h.opens m.opens f.opened
        ∙ g.opened;
    asked =
        reader-append Dnssnoop.decode (Dnssnoop.to_log name) ys ys' h.asks m.asks f.asked ∙ g.asked;
  }

  step-Reads :
      (s : Step) (h q : Host H D N)
      → step format text os web name sorter s h ≡ some q
      → Reads (opens_of (s ∷ [])) (asks_of (s ∷ [])) h q
  unfolding step
  step-Reads s h q g = elim (Bool-cases (alive h.program.agent.main)) [
    | inl e ↦ step_any-Reads s h q (rw (e, step) at g)
    | inr e ↦ absurd (cc (rw (e, step) at g))
  ]

  pub run-Reads :
      (ss : List Step) (h q : Host H D N)
      → run format text os web name sorter ss h ≡ some q
      → Reads (opens_of ss) (asks_of ss) h q
  unfolding run
  run-Reads [] h q g = subst (Reads [] [] h) (some_eq g) (Reads-nothing h h refl refl)
  run-Reads (s ∷ ss) h q g = elim (Option-cases (step format text os web name sorter s h)) [
    | inl e ↦ absurd (cc (rw (e, run) at g))
    | inr (m, e) ↦
        subst (λ xs. Reads xs (asks_of (s ∷ ss)) h q) (sym (opens_of-cons s ss))
          (subst (λ ys. Reads (opens_of (s ∷ []) ++ opens_of ss) ys h q) (sym (asks_of-cons s ss))
            (Reads-trans (opens_of (s ∷ [])) (asks_of (s ∷ [])) (opens_of ss) (asks_of ss) h m q
              (step-Reads s h m e) (run-Reads ss m q (rw (e, run) at g))))
  ]
