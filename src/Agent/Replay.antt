-- ===== src/Agent/Replay.antt =====
-- The agent with outputs that have a state of their own, against the agent with outputs that only keep
-- a journal.
use mathlib.Core.Option as Option
use arbutus.Base.{
  ◌≡◌, refl, sym, ap, inl, inr, Bool, List, [], ◌∷◌, ◌++◌, some, Bool-cases, Option-cases, some_eq,
  Eq,
}
use arbutus.Models.{Telemetry}
use arbutus.Models.Plugin.{Output, Outcome, returned, failed, panicked}
use arbutus.Pipeline.Replay.{replay, answers, journal, write_to-Plays}
use arbutus.Pipeline.{take_buffer, write_to}
use arbutus.Agent.Conservation.{run-ledger}
use arbutus.Agent.View.{seen, select-seen, finish-seen, take_locked-seen, send-seen}
use arbutus.Agent.Ledger.{added, in_flight}
use arbutus.Pipeline.Delivery.{Calls, Calm, Once, received, share}
use arbutus.Agent.{
  Agent, Main, selecting, flushing, writing, Event, adds, sends, ticks, interrupts, takes, writes,
  returns, start, locked_add, step, step_any, step_main, write_one, send, alive, run,
}

module _ {O W : Type 0} (api : Output O W) (w : W) where
  -- The agent with the outputs' state in place of the journal.
  abbrev pub played : Agent O (Calls O) → Agent O W
  played = seen (replay api w)

  write_one-played :
      (last : Bool) (batch : List Telemetry) (os : List O) (s : Calls O × Outcome)
      (a : Agent O (Calls O))
      → write_one api last batch os (replay api w s.0, s.1) (played a)
        ≡ played (write_one (journal api w) last batch os s a)
  unfolding write_one
  write_one-played last batch os (calls, returned) a = refl
  write_one-played last batch os (calls, failed e) a = refl
  write_one-played last batch os (calls, panicked) a = refl

  step_main-played :
      (m : Main O) (e : Event) (a : Agent O (Calls O))
      → step_main api m e (played a) ≡ Option.map played (step_main (journal api w) m e a)
  unfolding step_main
  step_main-played selecting e a = select-seen (replay api w) e a
  step_main-played (flushing last) takes a =
      ap some (take_locked-seen (replay api w) last (take_buffer a.pipeline) a)
  step_main-played (writing last batch (o ∷ os)) writes a =
      rw (write_to-Plays api w o batch a.world)
        (ap some (write_one-played last batch os (write_to (journal api w) o batch a.world) a))
  step_main-played (writing last batch []) returns a = ap some (finish-seen (replay api w) last a)
  step_main-played _ _ a = refl

  step_any-played :
      (e : Event) (a : Agent O (Calls O))
      → step_any api e (played a) ≡ Option.map played (step_any (journal api w) e a)
  unfolding step_any locked_add send
  step_any-played (adds t) a = refl
  step_any-played sends a = send-seen (replay api w) a.senders a
  step_any-played ticks a = refl
  step_any-played interrupts a = refl
  step_any-played e a = step_main-played a.main e a

  step-played :
      (e : Event) (a : Agent O (Calls O))
      → step api e (played a) ≡ Option.map played (step (journal api w) e a)
  unfolding step
  step-played e a = elim (Bool-cases (alive a.main)) [
    | inl q ↦ rw (q, step) (step_any-played e a)
    | inr q ↦ rw (q, step)
  ]

  run-played :
      (es : List Event) (a : Agent O (Calls O))
      → run api es (played a) ≡ Option.map played (run (journal api w) es a)
  unfolding run
  run-played [] a = refl
  run-played (e ∷ es) a = elim (Option-cases (step (journal api w) e a)) [
    | inl q ↦ rw (step-played e a, q, run)
    | inr (b, q) ↦ rw (step-played e a, q, run) (run-played es b)
  ]

  -- Whatever the outputs do with their state: a run of the agent is a run with the journal that
  -- answers as they do, its calls of `Write` played on the state, and stops where that stops.
  pub run-replay :
      (outputs : List O) (es : List Event)
      → run api es (start outputs w) ≡ Option.map played (run (journal api w) es (start outputs []))
  unfolding start replay
  run-replay outputs es = run-played es (start outputs [])

module _ {O W : Type 0} ⦃e : Eq O⦄ (api : Output O W) (w : W) where
  -- In every run of the agent in which none of its outputs panics, whatever state they have: that state
  -- comes from a list of calls of `Write`. By these calls, an output that is configured once was given,
  -- or is owed by the flush at hand or out of the buffer, what it supports of all that was ever added,
  -- each item once and in order.
  pub run-calls :
      (outputs : List O) (es : List Event) {a : Agent O W}
      → Calm api.supported_types (answers api w) outputs
      → run api es (start outputs w) ≡ some a
      → (calls : Calls O) × (a.world ≡ replay api w calls)
        × ((o : O)
            → Once o outputs
            → received o (calls ++ in_flight api.supported_types (answers api w) o a.main)
                ++ share api.supported_types (answers api w) o a.pipeline.buffer
              ≡ share api.supported_types (answers api w) o (added es))
  run-calls outputs es {a} calm h =
      elim (Option-cases (run (journal api w) es (start outputs []))) [
        | inl q ↦ cc (rw (run-replay api w outputs es, q) at h)
        | inr (b, q) ↦
            let same = some_eq (rw (run-replay api w outputs es, q) at h) in
            (
              b.world,
              sym (ap (λ x. x.world) same),
              λ o once.
                  rw (← same) (
                    run-ledger api.supported_types (answers api w) o outputs es {a = b} calm once
                      q),
            )
      ]
