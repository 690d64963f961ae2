-- ===== src/Agent/Wakeup.antt =====
-- No flush request is lost between the unlock and the send of `add`, the flush channel, and the main
-- loop.
use mathlib.Core.Path.{subst}
use arbutus.Base.{
  ℕ, zero, suc, ◌≡◌, refl, sym, ◌⊎◌, inl, Bool, true, false, List, [], ◌∷◌, arith, ◌<◌, length,
  length-append, some, if◌then◌else◌, ◌≤◌,
}
use arbutus.Models.{Telemetry}
use arbutus.Models.Plugin.{Output}
use arbutus.Agent.{
  Agent, Main, selecting, flushing, writing, Event, adds, sends, ticks, interrupts, on_flush, takes,
  writes, returns, start, locked_add, step, step_any, step_main, run, run_invariant,
}

abbrev pub will_take : {O : Type 0} → Main O → Bool
will_take (flushing last) = true
will_take _ = false

-- With 100 items or more in the buffer, the main loop is about to take them, or a token waits for it
-- in the flush channel, or a goroutine is about to send one.
abbrev pub Noticed : {O W : Type 0} → Agent O W → Type 0
Noticed a =
    (length a.pipeline.buffer < 100)
    ⊎ (a.pipeline.flush_token ≡ true)
    ⊎ (0 < a.senders)
    ⊎ (will_take a.main ≡ true)

module _ {O W : Type 0} where
  locked_add-Noticed : (a : Agent O W) (t : Telemetry) → Noticed a → Noticed (locked_add a t)
  unfolding locked_add
  locked_add-Noticed a t n = ground (arith, length-append a.pipeline.buffer (t ∷ []))

module _ {O W : Type 0} (api : Output O W) where
  step_main-Noticed :
      (m : Main O) (e : Event) (a : Agent O W) {b : Agent O W}
      → a.main ≡ m
      → step_main api m e a ≡ some b
      → Noticed a
      → Noticed b
  unfolding step_main
  step_main-Noticed selecting e a q h n = ground arith
  step_main-Noticed (flushing last) takes a q h n = ground arith
  step_main-Noticed (writing last batch (o ∷ os)) writes a q h n = ground arith
  step_main-Noticed (writing last batch []) returns a q h n = ground arith
  step_main-Noticed _ _ a q h n = ground arith

  step_any-Noticed :
      (e : Event) (a : Agent O W) {b : Agent O W}
      → step_any api e a ≡ some b
      → Noticed a
      → Noticed b
  unfolding step_any
  step_any-Noticed (adds t) a h n = ground (arith, locked_add-Noticed a t n)
  step_any-Noticed sends a h n = ground arith
  step_any-Noticed ticks a h n = ground arith
  step_any-Noticed interrupts a h n = ground arith
  step_any-Noticed e a h n = step_main-Noticed a.main e a refl h n

  step-Noticed :
      (e : Event) (a : Agent O W) {b : Agent O W} → step api e a ≡ some b → Noticed a → Noticed b
  unfolding step
  step-Noticed e a h n = ground (arith, step_any-Noticed e a)

  -- At every moment of every run in which 100 items or more are buffered, a flush is on its way.
  pub run-Noticed :
      (outputs : List O) (w : W) (es : List Event) {a : Agent O W}
      → run api es (start outputs w) ≡ some a
      → Noticed a
  unfolding start
  run-Noticed outputs w es h =
      run_invariant api Noticed (λ e a b. step-Noticed e a) es _ h (inl (omega arith))

  -- These events can happen in this state, and leave the buffer empty.
  abbrev pub Empties : List Event → Agent O W → Type 0
  Empties es a = (b : Agent O W) × (run api es a ≡ some b) × (b.pipeline.buffer ≡ [])

  -- The token is sent if a goroutine still has to, and the main loop takes it and then the buffer.
  abbrev pub prompt : Agent O W → List Event
  prompt a = if a.pipeline.flush_token then on_flush ∷ takes ∷ [] else sends ∷ on_flush ∷ takes ∷ []

  -- The state `a` at the `select`, with this buffer and token and so many goroutines about to send.
  abbrev loaded : Agent O W → List Telemetry → Bool → ℕ → Agent O W
  loaded a buffer token senders = record a {
    pipeline = record a.pipeline { buffer = buffer; flush_token = token };
    main = selecting;
    senders = senders;
  }

  abbrev emptied : Agent O W → List Telemetry → ℕ → Agent O W
  emptied a buffer senders = record a {
    pipeline = record a.pipeline { buffer = []; flush_token = false };
    main = writing false buffer a.pipeline.outputs;
    senders = senders;
  }

  run-loaded :
      (a : Agent O W) (buffer : List Telemetry) (token : Bool) (senders : ℕ)
      → Noticed (loaded a buffer token senders)
      → 100 ≤ length buffer
      → Empties (prompt (loaded a buffer token senders)) (loaded a buffer token senders)
  unfolding run step step_any step_main
  run-loaded a [] token senders n full = absurd (omega arith)
  run-loaded a (t ∷ ts) true senders n full = (emptied a (t ∷ ts) senders, refl, refl)
  run-loaded a (t ∷ ts) false zero n full = absurd (ground arith)
  run-loaded a (t ∷ ts) false (suc k) n full = (emptied a (t ∷ ts) k, refl, refl)

  loaded_eq :
      (a : Agent O W)
      → a.main ≡ selecting
      → a ≡ loaded a a.pipeline.buffer a.pipeline.flush_token a.senders
  loaded_eq a m = λ i. record a { main = m i }

  -- Whenever the main loop is at its `select` with 100 items or more in the buffer, then with no help
  -- from the ticker it can take them all: by the token, sent first if a goroutine still has to.
  pub run-prompt :
      (outputs : List O) (w : W) (es : List Event) {a : Agent O W}
      → run api es (start outputs w) ≡ some a
      → a.main ≡ selecting
      → 100 ≤ length a.pipeline.buffer
      → Empties (prompt a) a
  run-prompt outputs w es {a} h m full =
      let q = loaded_eq a m in
      subst (λ s. Empties (prompt s) s) (sym q)
        (run-loaded a a.pipeline.buffer a.pipeline.flush_token a.senders
          (subst Noticed q (run-Noticed outputs w es h)) full)
