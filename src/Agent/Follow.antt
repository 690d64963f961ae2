-- ===== src/Agent/Follow.antt =====
-- An agent follows another one that has the same outputs but never fails, as long as no output of the
-- first has panicked.
use mathlib.Core.Option as Option
use arbutus.Base.{
  ◌≡◌, ◌≢◌, sym, ap, ◌∙◌, inl, inr, Bool, List, [], ◌∷◌, Option, some, Bool-cases, some_eq,
}
use arbutus.Models.{Telemetry}
use arbutus.Models.Plugin.{Output, Outcome, returned, failed, panicked}
use arbutus.Pipeline.{take_buffer, write_to}
use arbutus.Agent.View.{seen, select-seen, finish-seen, take_locked-seen, send-seen}
use arbutus.Agent.{
  Agent, Main, selecting, flushing, writing, crashed, Event, adds, sends, ticks, interrupts, takes,
  writes, returns, locked_add, step, step_any, step_main, write_one, select, alive,
}

module _ {O W V : Type 0} (api : Output O W) (ref : Output O V) (view : W → V)
    (follows : (o : O) (batch : List Telemetry) (w : W)
      → write_to ref o batch (view w) ≡ (view (write_to api o batch w).0, returned)) where
  write_one-follows :
      (last : Bool) (batch : List Telemetry) (os : List O) (s : W × Outcome) (a b : Agent O W)
      → b.main ≢ crashed
      → write_one api last batch os s a ≡ b
      → write_one ref last batch os (view s.0, returned) (seen view a) ≡ seen view b
  unfolding write_one
  write_one-follows last batch os (w, returned) a b up h = ap (seen view) h
  write_one-follows last batch os (w, failed e) a b up h = ap (seen view) h
  write_one-follows last batch os (w, panicked) a b up h = absurd (up (ap (λ c. c.main) (sym h)))

  -- What goes the same way on both sides.
  same_way :
      {x : Option (Agent O V)} (y : Option (Agent O W)) (b : Agent O W)
      → x ≡ Option.map (seen view) y
      → y ≡ some b
      → x ≡ some (seen view b)
  same_way y b e h = e ∙ ap (Option.map (seen view)) h

  step_main-follows :
      (m : Main O) (e : Event) (a b : Agent O W)
      → b.main ≢ crashed
      → step_main api m e a ≡ some b
      → step_main ref m e (seen view a) ≡ some (seen view b)
  unfolding step_main
  step_main-follows selecting e a b up h = same_way (select e a) b (select-seen view e a) h
  step_main-follows (flushing last) takes a b up h =
      ap some (take_locked-seen view last (take_buffer a.pipeline) a)
      ∙ ap (Option.map (seen view)) h
  step_main-follows (writing last batch (o ∷ os)) writes a b up h =
      rw (follows o batch a.world) (
        ap some (write_one-follows last batch os (write_to api o batch a.world) a b up (some_eq h)))
  step_main-follows (writing last batch []) returns a b up h =
      ap some (finish-seen view last a) ∙ ap (Option.map (seen view)) h
  step_main-follows _ _ a b up h = absurd cc

  step_any-follows :
      (e : Event) (a b : Agent O W)
      → b.main ≢ crashed
      → step_any api e a ≡ some b
      → step_any ref e (seen view a) ≡ some (seen view b)
  unfolding step_any locked_add
  step_any-follows (adds t) a b up h = ap (Option.map (seen view)) h
  step_any-follows sends a b up h = send-seen view a.senders a ∙ ap (Option.map (seen view)) h
  step_any-follows ticks a b up h = ap (Option.map (seen view)) h
  step_any-follows interrupts a b up h = ap (Option.map (seen view)) h
  step_any-follows e a b up h = step_main-follows a.main e a b up h

  pub step-follows :
      (e : Event) (a b : Agent O W)
      → b.main ≢ crashed
      → step api e a ≡ some b
      → step ref e (seen view a) ≡ some (seen view b)
  unfolding step
  step-follows e a b up h = elim (Bool-cases (alive a.main)) [
    | inl q ↦ rw (q, step) (step_any-follows e a b up (rw (q, step) at h))
    | inr q ↦ cc (rw (q, step) at h)
  ]

-- A process that has crashed makes no step.
pub step-alive :
    {O W : Type 0} (api : Output O W) (e : Event) (a b : Agent O W)
    → step api e a ≡ some b
    → a.main ≢ crashed
unfolding step alive
step-alive api e a b h q = cc (rw (q, step) at h)
