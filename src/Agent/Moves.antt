-- ===== src/Agent/Moves.antt =====
-- What a step of the agent can do to the state of the outputs.
use mathlib.Core.Path.{subst}
use arbutus.Base.{
  ℕ, zero, suc, ◌≡◌, ◌≢◌, ◌⊎◌, refl, sym, ap, ◌∙◌, inl, inr, Bool, true, false, List, [], ◌∷◌,
  Option, none, some, some_eq, Bool-cases,
}
use arbutus.Models.{Telemetry}
use arbutus.Models.Plugin.{Output, Outcome, returned, failed, panicked}
use arbutus.Pipeline.{Pipeline, take_buffer, write_to}
use arbutus.Agent.{
  Agent, Main, selecting, flushing, writing, crashed, Event, adds, sends, ticks, interrupts,
  on_done, on_signal, on_tick, on_flush, takes, writes, returns, locked_add, step, step_any,
  step_main, take_locked, write_one, finish, send, select, ready, alive,
}

module _ {O W : Type 0} where
  -- The outputs are left alone, and the process lives on.
  abbrev pub Rests : Agent O W → Agent O W → Type 0
  Rests a b = (b.world ≡ a.world) × (b.main ≢ crashed)

  finish-Rests : (last : Bool) (a : Agent O W) → Rests a (finish last a)
  unfolding finish
  finish-Rests true a = (refl, (λ q. cc))
  finish-Rests false a = (refl, (λ q. cc))

  take_locked-Rests :
      (last : Bool) (r : Pipeline O × Option (List Telemetry)) (a : Agent O W)
      → Rests a (take_locked last r a)
  unfolding take_locked
  take_locked-Rests last (p, none) a = finish-Rests last (record a { pipeline = p })
  take_locked-Rests last (p, some batch) a = (refl, (λ q. cc))

  ready-Rests : (flag : Bool) (a c b : Agent O W) → ready flag c ≡ some b → Rests a c → Rests a b
  unfolding ready
  ready-Rests true a c b q r = subst (λ x. Rests a x) (some_eq q) r
  ready-Rests false a c b q r = absurd cc

  select-Rests : (e : Event) (a b : Agent O W) → a.main ≢ crashed → select e a ≡ some b → Rests a b
  unfolding select
  select-Rests on_done a b up q =
      ready-Rests a.cancelled a (record a { main = flushing true }) b q (refl, (λ x. cc))
  select-Rests on_signal a b up q =
      ready-Rests a.interrupted a (record a { interrupted = false; cancelled = true }) b q
        (refl, up)
  select-Rests on_tick a b up q =
      ready-Rests a.ticked a (record a { ticked = false; main = flushing false }) b q
        (refl, (λ x. cc))
  select-Rests on_flush a b up q =
      ready-Rests a.pipeline.flush_token a
        (record a { pipeline = record a.pipeline { flush_token = false }; main = flushing false }) b
        q (refl, (λ x. cc))
  select-Rests _ a b up q = absurd cc

  send-Rests : (n : ℕ) (a b : Agent O W) → a.main ≢ crashed → send n a ≡ some b → Rests a b
  unfolding send
  send-Rests zero a b up q = absurd cc
  send-Rests (suc n) a b up q = subst (λ x. Rests a x) (some_eq q) (refl, up)

  module _ (api : Output O W) where
    -- One output that the flush at hand still had to serve is given its share.
    abbrev pub Writes : Agent O W → Agent O W → Type 0
    Writes a b =
        (last : Bool) × (batch : List Telemetry) × (o : O) × (os : List O) × (a.main
          ≡ writing last batch (o ∷ os))
        × (b.world ≡ (write_to api o batch a.world).0)
        × ((write_to api o batch a.world).1 ≢ panicked → b.main ≢ crashed)

    write_one-world :
        (last : Bool) (batch : List Telemetry) (os : List O) (r : W × Outcome) (a : Agent O W)
        → (write_one api last batch os r a).world ≡ r.0
    unfolding write_one
    write_one-world last batch os (w, returned) a = refl
    write_one-world last batch os (w, failed e) a = refl
    write_one-world last batch os (w, panicked) a = refl

    write_one-up :
        (last : Bool) (batch : List Telemetry) (os : List O) (r : W × Outcome) (a : Agent O W)
        → r.1 ≢ panicked
        → (write_one api last batch os r a).main ≢ crashed
    unfolding write_one
    write_one-up last batch os (w, returned) a calm = λ q. cc
    write_one-up last batch os (w, failed e) a calm = λ q. cc
    write_one-up last batch os (w, panicked) a calm = absurd (calm refl)

    step_main-Moves :
        (m : Main O) (e : Event) (a b : Agent O W)
        → a.main ≡ m
        → a.main ≢ crashed
        → step_main api m e a ≡ some b
        → Rests a b ⊎ Writes a b
    unfolding step_main
    step_main-Moves selecting e a b m up q = inl (select-Rests e a b up q)
    step_main-Moves (flushing last) takes a b m up q =
        inl (subst (λ x. Rests a x) (some_eq q) (take_locked-Rests last (take_buffer a.pipeline) a))
    step_main-Moves (writing last batch (o ∷ os)) writes a b m up q =
        let r = write_to api o batch a.world in
        inr (
          last,
          batch,
          o,
          os,
          m,
          ap (λ c. c.world) (sym (some_eq q)) ∙ write_one-world last batch os r a,
          λ calm. subst (λ c. c.main ≢ crashed) (some_eq q) (write_one-up last batch os r a calm),
        )
    step_main-Moves (writing last batch []) returns a b m up q =
        inl (subst (λ x. Rests a x) (some_eq q) (finish-Rests last a))
    step_main-Moves _ _ a b m up q = absurd cc

    step_any-Moves :
        (e : Event) (a b : Agent O W)
        → a.main ≢ crashed
        → step_any api e a ≡ some b
        → Rests a b ⊎ Writes a b
    unfolding step_any locked_add
    step_any-Moves (adds t) a b up q = inl (subst (λ x. Rests a x) (some_eq q) (refl, up))
    step_any-Moves sends a b up q = inl (send-Rests a.senders a b up q)
    step_any-Moves ticks a b up q = inl (subst (λ x. Rests a x) (some_eq q) (refl, up))
    step_any-Moves interrupts a b up q = inl (subst (λ x. Rests a x) (some_eq q) (refl, up))
    step_any-Moves e a b up q = step_main-Moves a.main e a b refl up q

    pub step-Moves :
        (e : Event) (a b : Agent O W)
        → a.main ≢ crashed
        → step api e a ≡ some b
        → Rests a b ⊎ Writes a b
    unfolding step
    step-Moves e a b up q = elim (Bool-cases (alive a.main)) [
      | inl live ↦ step_any-Moves e a b up (rw (live, step) at q)
      | inr dead ↦ cc (rw (dead, step) at q)
    ]
