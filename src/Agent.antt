-- ===== src/Agent.antt =====
-- cmd/arbutus/main.go: the main loop, together with the input goroutines that call `add` while it
-- runs. An event is one atomic step of one goroutine; a run is any list of events that the states
-- allow, so every interleaving is a run. A channel with room for one value is a flag.
pub mod Service
pub mod Ledger
pub mod Conservation
pub mod Wakeup
pub mod Shutdown
pub mod View
pub mod Follow
pub mod Moves
pub mod Replay
mod Tests
use arbutus.Base.{
  ℕ, zero, suc, ◌≡◌, Bool, true, false, List, [], ◌∷◌, ◌++◌, Option, none, some, if◌then◌else◌, inl,
  inr, Option-cases, some_eq,
}
use mathlib.Core.Path.{subst}
use arbutus.Models.{Telemetry}
use arbutus.Models.Plugin.{Output, Outcome, returned, failed, panicked}
use arbutus.Pipeline.{Pipeline, new_pipeline, append, flush_channel, signal, take_buffer, write_to}

-- Where the main goroutine stands. The flag of `flushing` and `writing` says that `return` follows
-- the flush. `writing` has the copied batch and the outputs that are still to be served.
pub data Main (O : Type 0) : Type 0 where
  selecting : Main O
  flushing : Bool → Main O
  writing : Bool → List Telemetry → List O → Main O
  exited : Main O
  crashed : Main O

pub record Agent (O W : Type 0) : Type 0 where
  pub pipeline : Pipeline O
  pub main : Main O
  -- Goroutines in `add` that have left the lock with `shouldFlush` and have not sent yet.
  pub senders : ℕ
  pub cancelled : Bool
  pub interrupted : Bool
  pub ticked : Bool
  pub world : W

pub data Event : Type 0 where
  -- an input goroutine in `add`: the locked part, and the send behind it
  adds : Telemetry → Event
  sends : Event
  -- the ticker fires; the operating system sends a signal
  ticks : Event
  interrupts : Event
  -- the main goroutine takes a case of its `select`
  on_done on_signal on_tick on_flush : Event
  -- the main goroutine in `Flush`: the locked part, the body of the loop, its end
  takes writes returns : Event

unfoldable pub alive : {O : Type 0} → Main O → Bool
alive exited = false
alive crashed = false
alive _ = true

module _ {O W : Type 0} where
  -- `InitializeOutputs` gave the outputs, and the loop begins.
  unfoldable pub start : List O → W → Agent O W
  unfolding new_pipeline
  start outputs w = record {
    pipeline = new_pipeline outputs;
    main = selecting;
    senders = 0;
    cancelled = false;
    interrupted = false;
    ticked = false;
    world = w;
  }

  locked_add : Agent O W → Telemetry → Agent O W
  unfolding append
  locked_add a t =
      let (p, should_flush) = append a.pipeline t in
      record a { pipeline = p; senders = if should_flush then suc a.senders else a.senders }

  pub send : ℕ → Agent O W → Option (Agent O W)
  unfolding signal
  send zero a = none
  send (suc n) a = some (record a { pipeline = signal a.pipeline; senders = n })

  -- A case of the `select` is ready if its flag is up.
  ready : Bool → Agent O W → Option (Agent O W)
  ready true a = some a
  ready false a = none

  -- The case `<-ctx.Done()`, `<-sigCh`, `<-flushTicker.C` or `<-pipe.FlushChannel()`.
  pub select : Event → Agent O W → Option (Agent O W)
  unfolding ready
  select on_done a = ready a.cancelled (record a { main = flushing true })
  select on_signal a = ready a.interrupted (record a { interrupted = false; cancelled = true })
  select on_tick a = ready a.ticked (record a { ticked = false; main = flushing false })
  select on_flush a =
      ready (flush_channel a.pipeline)
        (record a { pipeline = record a.pipeline { flush_token = false }; main = flushing false })
  select _ a = none

  -- The end of `Flush`, and of the program if the flag is set.
  pub finish : Bool → Agent O W → Agent O W
  finish true a = record a { main = exited }
  finish false a = record a { main = selecting }

  pub take_locked : Bool → Pipeline O × Option (List Telemetry) → Agent O W → Agent O W
  unfolding finish
  take_locked last (p, none) a = finish last (record a { pipeline = p })
  take_locked last (p, some batch) a = record a {
    pipeline = p;
    main = writing last batch p.outputs;
  }

module _ {O W : Type 0} (api : Output O W) where
  write_one : Bool → List Telemetry → List O → W × Outcome → Agent O W → Agent O W
  write_one last batch os (w, panicked) a = record a { world = w; main = crashed }
  write_one last batch os (w, _) a = record a { world = w; main = writing last batch os }

  -- The steps of the main goroutine.
  step_main : Main O → Event → Agent O W → Option (Agent O W)
  unfolding select take_locked take_buffer write_one
  step_main selecting e a = select e a
  step_main (flushing last) takes a = some (take_locked last (take_buffer a.pipeline) a)
  step_main (writing last batch (o ∷ os)) writes a =
      some (write_one last batch os (write_to api o batch a.world) a)
  step_main (writing last batch []) returns a = some (finish last a)
  step_main _ _ a = none

  step_any : Event → Agent O W → Option (Agent O W)
  unfolding locked_add send step_main finish
  step_any (adds t) a = some (locked_add a t)
  step_any sends a = send a.senders a
  step_any ticks a = some (record a { ticked = true })
  step_any interrupts a = some (record a { interrupted = true })
  step_any e a = step_main a.main e a

  -- Nothing runs once `main` has returned or a panic has ended the process. `none`: the event cannot
  -- happen in this state.
  unfoldable pub step : Event → Agent O W → Option (Agent O W)
  unfolding step_any alive
  step e a = if alive a.main then step_any e a else none

  unfoldable pub run : List Event → Agent O W → Option (Agent O W)
  unfolding step
  run [] a = some a
  run (e ∷ es) a = elim (step e a) [ none ↦ none | some b ↦ run es b ]

  -- What holds at first and is kept by each event holds after every run.
  pub run_invariant :
      (P : Agent O W → Type 0)
      → ((e : Event) (a b : Agent O W) → step e a ≡ some b → P a → P b)
      → (es : List Event) (a : Agent O W) {b : Agent O W} → run es a ≡ some b
      → P a
      → P b
  unfolding run
  run_invariant P keep [] a h p = subst P (some_eq h) p
  run_invariant P keep (e ∷ es) a {b} h p = elim (Option-cases (step e a)) [
    | inl q ↦ cc (rw (q, run) at h)
    | inr (c, q) ↦ run_invariant P keep es c (rw (q, run) at h) (keep e a c q p)
  ]
