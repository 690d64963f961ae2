-- ===== src/Agent/Conservation.antt =====
-- No interleaving of inputs and main loop loses, repeats or reorders an item.
use mathlib.Core.Path.{subst}
use arbutus.Base.{
  ◌≡◌, refl, sym, ◌∙◌, inl, inr, List, [], ◌∷◌, ◌++◌, append_assoc, append-nil, GoMap, Eq,
  filter-append, some, Option-cases, some_eq, Bool,
}
use arbutus.Models.{Telemetry, TelemetryType}
use arbutus.Models.Plugin.{Outcome}
use arbutus.Pipeline.{supports}
use arbutus.Pipeline.Delivery.{Calls, recorder, share, Calm, IsCalm, Once}
use arbutus.Agent.{Agent, Event, adds, start, step, run}
use arbutus.Agent.Service.{Serves, step-Serves}
use arbutus.Agent.Ledger.{added, ledger, Booked, step-Booked}

added-cons : (e : Event) (es : List Event) → added (e ∷ es) ≡ added (e ∷ []) ++ added es
added-cons (adds t) es = refl
added-cons _ es = refl

module _ {O : Type 0} ⦃e : Eq O⦄ (types : O → GoMap TelemetryType Bool)
    (reply : Calls O → O → List Telemetry → Outcome) (o : O) where
  Booked-trans :
      (xs ys : List Telemetry) (a b c : Agent O (Calls O))
      → Booked types reply o xs a b
      → Booked types reply o ys b c
      → Booked types reply o (xs ++ ys) a c
  Booked-trans xs ys a b c (p, p') (q, q') = (
    rw (q, p, filter-append (supports (recorder types reply) o) xs ys)
        (append_assoc (ledger types reply o a) (share types reply o xs) (share types reply o ys)),
    q' ∙ p',
  )

  run-Booked :
      (es : List Event) (a b : Agent O (Calls O))
      → Serves (IsCalm types reply) a
      → Once o a.pipeline.outputs
      → run (recorder types reply) es a ≡ some b
      → Booked types reply o (added es) a b
  unfolding run
  run-Booked [] a b calm once h =
      subst (Booked types reply o [] a) (some_eq h)
        (sym (append-nil (ledger types reply o a)), refl)
  run-Booked (x ∷ es) a b calm once h = elim (Option-cases (step (recorder types reply) x a)) [
    | inl q ↦ cc (rw (q, run) at h)
    | inr (c, q) ↦
        let first = step-Booked types reply o x a c calm once q in
        rw (added-cons x es) (
          Booked-trans (added (x ∷ [])) (added es) a c b first (
            run-Booked es c b (step-Serves (IsCalm types reply) (recorder types reply) x a c q calm)
              (rw first.1 once) (rw (q, run) at h)))
  ]

  -- In every run of the agent in which none of its outputs panics, and for every output that is
  -- configured once: what the output was given so far, then what the flush at hand still owes it, then what it
  -- supports of the buffer, is what it supports of all that was ever added, each item once and in
  -- order.
  pub run-ledger :
      (outputs : List O) (es : List Event) {a : Agent O (Calls O)}
      → Calm types reply outputs
      → Once o outputs
      → run (recorder types reply) es (start outputs []) ≡ some a
      → ledger types reply o a ≡ share types reply o (added es)
  unfolding start
  run-ledger outputs es {a} calm once h =
      (run-Booked es (start outputs []) a (record { outputs = calm; serving = tt }) once h).0
