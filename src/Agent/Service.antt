-- ===== src/Agent/Service.antt =====
-- The flush at hand serves outputs of the pipeline, and these never change.
use mathlib.Core.Path.{subst}
use arbutus.Base.{
  ◌≡◌, refl, sym, ap, inl, inr, Bool, true, false, List, [], ◌∷◌, Option, none, some, some_eq, All,
  arith, Bool-cases, ℕ, zero, suc,
}
use arbutus.Models.{Telemetry}
use arbutus.Models.Plugin.{Output, Outcome, returned, failed, panicked}
use arbutus.Pipeline.{Pipeline, take_buffer, Takes, take_buffer-Takes, write_to, signal}
use arbutus.Agent.{
  Agent, Main, selecting, flushing, writing, Event, adds, sends, ticks, interrupts, on_done,
  on_signal, on_tick, on_flush, takes, writes, returns, locked_add, step, step_any, step_main,
  take_locked, write_one, finish, send, select, ready, alive,
}

module _ {O : Type 0} (P : O → Type 0) where
  -- The outputs that the flush at hand still has to serve.
  abbrev pub Serving : Main O → Type 0
  Serving (writing last batch os) = All P os
  Serving _ = Unit

  -- The outputs all have a property, those of the flush at hand too.
  pub record Serves {W : Type 0} (a : Agent O W) : Type 0 where
    pub outputs : All P a.pipeline.outputs
    pub serving : Serving a.main

  module _ {W : Type 0} (api : Output O W) where
    finish-Serves :
        (last : Bool) (a : Agent O W) → All P a.pipeline.outputs → Serves (finish last a)
    unfolding finish
    finish-Serves true a h = record { outputs = h; serving = tt }
    finish-Serves false a h = record { outputs = h; serving = tt }

    take_locked-Serves :
        (last : Bool) (a : Agent O W) (r : Pipeline O × Option (List Telemetry))
        → Takes a.pipeline r
        → All P a.pipeline.outputs
        → Serves (take_locked last r a)
    unfolding take_locked
    take_locked-Serves last a (p, none) (inl (e, q)) h =
        finish-Serves last (record a { pipeline = p })
          (subst (λ t. All P t.outputs) (sym (ap (λ t. t.0) q)) h)
    take_locked-Serves last a (p, some batch) (inl (e, q)) h = cc (ap (λ t. t.1) q)
    take_locked-Serves last a (p, none) (inr q) h = cc (ap (λ t. t.1) q)
    take_locked-Serves last a (p, some batch) (inr q) h =
        let same = subst (λ t. All P t.outputs) (sym (ap (λ t. t.0) q)) h in
        record { outputs = same; serving = same }

    write_one-Serves :
        (last : Bool) (batch : List Telemetry) (os : List O) (r : W × Outcome) (a : Agent O W)
        → All P a.pipeline.outputs
        → All P os
        → Serves (write_one api last batch os r a)
    unfolding write_one
    write_one-Serves last batch os (w, returned) a h s = record { outputs = h; serving = s }
    write_one-Serves last batch os (w, failed e) a h s = record { outputs = h; serving = s }
    write_one-Serves last batch os (w, panicked) a h s = record { outputs = h; serving = tt }

    ready-Serves : (flag : Bool) (c b : Agent O W) → ready flag c ≡ some b → Serves c → Serves b
    unfolding ready
    ready-Serves true c b q s = subst (λ x. Serves x) (some_eq q) s
    ready-Serves false c b q s = absurd cc

    select-Serves : (e : Event) (a b : Agent O W) → select e a ≡ some b → Serves a → Serves b
    unfolding select
    select-Serves on_done a b q s =
        ready-Serves a.cancelled (record a { main = flushing true }) b q
          (record { outputs = s.outputs; serving = tt })
    select-Serves on_signal a b q s =
        ready-Serves a.interrupted (record a { interrupted = false; cancelled = true }) b q
          (record { outputs = s.outputs; serving = s.serving })
    select-Serves on_tick a b q s =
        ready-Serves a.ticked (record a { ticked = false; main = flushing false }) b q
          (record { outputs = s.outputs; serving = tt })
    select-Serves on_flush a b q s =
        ready-Serves a.pipeline.flush_token
          (record a { pipeline = record a.pipeline { flush_token = false }; main = flushing false })
          b q (record { outputs = s.outputs; serving = tt })
    select-Serves _ a b q s = absurd cc

    step_main-Serves :
        (m : Main O) (e : Event) (a b : Agent O W)
        → a.main ≡ m
        → step_main api m e a ≡ some b
        → Serves a
        → Serves b
    unfolding step_main
    step_main-Serves selecting e a b m q s = select-Serves e a b q s
    step_main-Serves (flushing last) takes a b m q s =
        subst (λ x. Serves x) (some_eq q)
          (take_locked-Serves last a (take_buffer a.pipeline) (take_buffer-Takes a.pipeline)
            s.outputs)
    step_main-Serves (writing last batch (o ∷ os)) writes a b m q s =
        subst (λ x. Serves x) (some_eq q)
          (write_one-Serves last batch os (write_to api o batch a.world) a s.outputs
            (subst (λ x. Serving x) m s.serving).1)
    step_main-Serves (writing last batch []) returns a b m q s =
        subst (λ x. Serves x) (some_eq q) (finish-Serves last a s.outputs)
    step_main-Serves _ _ a b m q s = absurd cc

    send-Serves : (n : ℕ) (a b : Agent O W) → send n a ≡ some b → Serves a → Serves b
    unfolding send signal
    send-Serves zero a b q s = absurd cc
    send-Serves (suc n) a b q s = record {
      outputs = subst (λ os. All P os) (ground arith) s.outputs;
      serving = subst (λ m. Serving m) (ground arith) s.serving;
    }

    step_any-Serves :
        (e : Event) (a b : Agent O W) → step_any api e a ≡ some b → Serves a → Serves b
    unfolding step_any locked_add
    step_any-Serves (adds t) a b q s =
        subst (λ x. Serves x) (some_eq q) (record { outputs = s.outputs; serving = s.serving })
    step_any-Serves sends a b q s = send-Serves a.senders a b q s
    step_any-Serves ticks a b q s =
        subst (λ x. Serves x) (some_eq q) (record { outputs = s.outputs; serving = s.serving })
    step_any-Serves interrupts a b q s =
        subst (λ x. Serves x) (some_eq q) (record { outputs = s.outputs; serving = s.serving })
    step_any-Serves e a b q s = step_main-Serves a.main e a b refl q s

    -- No event brings in an output that the pipeline did not have.
    pub step-Serves : (e : Event) (a b : Agent O W) → step api e a ≡ some b → Serves a → Serves b
    unfolding step
    step-Serves e a b q s = elim (Bool-cases (alive a.main)) [
      | inl live ↦ step_any-Serves e a b (rw (live, step) at q) s
      | inr dead ↦ cc (rw (dead, step) at q)
    ]
