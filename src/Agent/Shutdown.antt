-- ===== src/Agent/Shutdown.antt =====
-- The program ends only on a signal, and by then it has flushed.
use mathlib.Core.Path.{subst}
use arbutus.Base.{
  ◌≡◌, refl, sym, ap, ◌∙◌, Bool, true, false, List, [], ◌∷◌, ◌++◌, append-nil, arith, GoMap, some,
  ◌≢◌,
}
use arbutus.Models.{Telemetry, TelemetryType}
use arbutus.Models.Plugin.{Output, Outcome, returned, failed, panicked}
use arbutus.Pipeline.{write_to}
use arbutus.Pipeline.Delivery.{
  Calls, recorder, routes, Calm, routes-cons, write_to_calm, routes_none, routes-nil,
}
use arbutus.Agent.{
  Agent, Main, selecting, flushing, writing, exited, Event, adds, sends, ticks, interrupts, on_done,
  takes, writes, returns, start, step, step_any, step_main, run, run_invariant, finish, write_one,
}

-- The flush at hand is the last one, or the program is over.
abbrev pub ends : {O : Type 0} → Main O → Bool
ends (flushing last) = last
ends (writing last batch os) = last
ends exited = true
ends _ = false

abbrev IsGraceful : {O W : Type 0} → Agent O W → Type 0
IsGraceful a = ends a.main ≡ true → a.cancelled ≡ true

module _ {O W : Type 0} (api : Output O W) where
  step_main-IsGraceful :
      (m : Main O) (e : Event) (a : Agent O W) {b : Agent O W}
      → a.main ≡ m
      → step_main api m e a ≡ some b
      → IsGraceful a
      → IsGraceful b
  unfolding step_main
  step_main-IsGraceful selecting e a q h n = ground arith
  step_main-IsGraceful (flushing last) takes a q h n = ground arith
  step_main-IsGraceful (writing last batch (o ∷ os)) writes a q h n = ground arith
  step_main-IsGraceful (writing last batch []) returns a q h n = ground arith
  step_main-IsGraceful _ _ a q h n = ground arith

  step-IsGraceful :
      (e : Event) (a b : Agent O W) → step api e a ≡ some b → IsGraceful a → IsGraceful b
  unfolding step step_any
  step-IsGraceful (adds t) a b h n = ground (arith)
  step-IsGraceful sends a b h n = ground arith
  step-IsGraceful ticks a b h n = ground arith
  step-IsGraceful interrupts a b h n = ground arith
  step-IsGraceful e a b h n = ground (arith, step_main-IsGraceful a.main e a {b = b} refl)

  -- Whatever the outputs do and however the goroutines interleave, the program is in its last flush
  -- or has returned only with the context cancelled.
  pub run-ends :
      (outputs : List O) (w : W) (es : List Event) {a : Agent O W}
      → run api es (start outputs w) ≡ some a
      → ends a.main ≡ true
      → a.cancelled ≡ true
  unfolding start
  run-ends outputs w es h last =
      run_invariant api IsGraceful step-IsGraceful es (start outputs w) h (λ q. cc) last

-- What the main goroutine does in `Flush` once it has taken a batch for these outputs.
abbrev serve : {O : Type 0} → List O → List Event
serve [] = returns ∷ []
serve (o ∷ os) = writes ∷ serve os

-- From the case `<-ctx.Done()` to `return`, with nothing else in between.
abbrev pub farewell : {O W : Type 0} → Agent O W → List Event
farewell a = elim a.pipeline.buffer [
  | [] ↦ on_done ∷ takes ∷ []
  | _ ↦ on_done ∷ takes ∷ serve a.pipeline.outputs
]

module _ {O : Type 0} (types : O → GoMap TelemetryType Bool)
    (reply : Calls O → O → List Telemetry → Outcome) where
  write_one_calm :
      (a : Agent O (Calls O)) (batch : List Telemetry) (os : List O) (r : Calls O × Outcome)
      → r.1 ≢ panicked
      → write_one (recorder types reply) true batch os r a
        ≡ record a { world = r.0; main = writing true batch os }
  unfolding write_one
  write_one_calm a batch os (w, returned) ne = refl
  write_one_calm a batch os (w, failed m) ne = refl
  write_one_calm a batch os (w, panicked) ne = absurd (ne refl)

  run-serve :
      (a : Agent O (Calls O)) (batch : List Telemetry) (os : List O)
      → Calm types reply os
      → run (recorder types reply) (serve os) (record a { main = writing true batch os })
        ≡ some (record a { main = exited; world = a.world ++ routes types reply os batch })
  unfolding run step step_any step_main finish
  run-serve a batch [] calm = rw (routes_none types reply batch, append-nil a.world)
  run-serve a batch (o ∷ os) calm =
      let r = write_to (recorder types reply) o batch a.world in
      rw
        (write_one_calm (record a { main = writing true batch (o ∷ os) }) batch os r
          (write_to_calm types reply o batch a.world calm.0))
        (run-serve (record a { world = r.0 }) batch os calm.1
          ∙ ap (λ w. some (record a { main = exited; world = w }))
              (routes-cons types reply o os batch a.world calm.0))

  -- The state `a` at the `select`, with the context cancelled and this buffer.
  abbrev leaving : Agent O (Calls O) → List Telemetry → Agent O (Calls O)
  leaving a buffer = record a {
    pipeline = record a.pipeline { buffer = buffer };
    main = selecting;
    cancelled = true;
  }

  -- The program is over: the buffer is empty, and what it held has been delivered.
  abbrev pub gone : Agent O (Calls O) → List Telemetry → Agent O (Calls O)
  gone a buffer = record a {
    pipeline = record a.pipeline { buffer = [] };
    main = exited;
    world = a.world ++ routes types reply a.pipeline.outputs buffer;
  }

  leaving_eq :
      (a : Agent O (Calls O))
      → a.main ≡ selecting
      → a.cancelled ≡ true
      → a ≡ leaving a a.pipeline.buffer
  leaving_eq a m c = λ i. record a { main = m i; cancelled = c i }

  run-leaving :
      (a : Agent O (Calls O)) (buffer : List Telemetry)
      → Calm types reply a.pipeline.outputs
      → run (recorder types reply) (farewell (leaving a buffer)) (leaving a buffer)
        ≡ some (gone (record a { cancelled = true }) buffer)
  unfolding run step step_any step_main finish
  run-leaving a [] calm = rw (routes-nil types reply a.pipeline.outputs, append-nil a.world)
  run-leaving a (t ∷ ts) calm = run-serve (leaving a []) (t ∷ ts) a.pipeline.outputs calm

  -- Once the context is cancelled and the main loop is at its `select`, it can run to its `return`:
  -- the case `<-ctx.Done()`, one flush, and out. Then the buffer is empty and every output has been
  -- given its share of what was buffered, if none of them panics.
  pub run-farewell :
      (a : Agent O (Calls O))
      → Calm types reply a.pipeline.outputs
      → a.main ≡ selecting
      → a.cancelled ≡ true
      → run (recorder types reply) (farewell a) a ≡ some (gone a a.pipeline.buffer)
  run-farewell a calm m c =
      subst (λ s. run (recorder types reply) (farewell s) s ≡ some (gone s s.pipeline.buffer))
        (sym (leaving_eq a m c)) (run-leaving a a.pipeline.buffer calm)
