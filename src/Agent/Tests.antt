-- ===== src/Agent/Tests.antt =====
-- Runs of the agent: three outputs that each take their own type of telemetry, of which two fail.
use arbutus.Agent.Replay.{played, run-calls}
use arbutus.Pipeline.Replay.{replay, answers}
use arbutus.Base.{
  not, length, if◌then◌else◌, ◌+◌, ◌≢◌, ℕ, zero, suc, ◌≡◌, refl, inl, inr, Bool, true, false, List,
  [], ◌∷◌, ◌++◌, some, GoMap, codes, arith,
}
use arbutus.Models.{Telemetry, log, metric, pos, TelemetryType, type_log, type_metric, type_eq}
use arbutus.Models.Plugin.{Output, Outcome, returned, failed, panicked}
use arbutus.Pipeline.{new_pipeline, append, take_buffer, write_to, supports}
use arbutus.Pipeline.Delivery.{Calls, recorder, share, Calm, Once, received}
use arbutus.Agent.{
  Agent, selecting, flushing, writing, Event, adds, ticks, interrupts, on_done, on_signal, on_tick,
  takes, writes, start, locked_add, select, ready, alive, take_locked, write_one, step, step_any,
  step_main, run,
}
use arbutus.Agent.Ledger.{ledger, added, in_flight}
use arbutus.Agent.Conservation.{run-ledger}
use arbutus.Agent.Wakeup.{Noticed, Empties, prompt, run-Noticed, run-prompt}
use arbutus.Agent.Shutdown.{run-farewell, farewell, gone}

abbrev types : TelemetryType → GoMap TelemetryType Bool
types o = (o, true) ∷ []

abbrev reply : Calls TelemetryType → TelemetryType → List Telemetry → Outcome
reply calls type_log batch = returned
reply calls _ batch = failed (codes "full disk")

reply-Calm : Calm types reply (type_metric ∷ type_log ∷ [])
reply-Calm = ((λ calls batch q. cc), ((λ calls batch q. cc), tt))

abbrev a_log : ℕ → Telemetry
a_log n = log (record { time = pos n; level = codes "info"; message = codes "m"; attributes = [] })

abbrev a_metric : Telemetry
a_metric = metric (record { time = pos 5; name = codes "cpu"; value = 1; tags = []; fields = [] })

abbrev outputs : List TelemetryType
outputs = type_metric ∷ type_log ∷ []

abbrev busy : List Event
busy = adds (a_log 1) ∷ adds a_metric ∷ ticks ∷ on_tick ∷ takes ∷ writes ∷ adds (a_log 2) ∷ []

-- In the middle of a flush: the metric has been written, the first log has not, the second is
-- buffered.
abbrev busy_state : Agent TelemetryType (Calls TelemetryType)
busy_state = record {
  pipeline = record { outputs = outputs; buffer = a_log 2 ∷ []; flush_token = false };
  main = writing false (a_log 1 ∷ a_metric ∷ []) (type_log ∷ []);
  senders = 0;
  cancelled = false;
  interrupted = false;
  ticked = false;
  world = (type_metric, a_metric ∷ []) ∷ [];
}

run-busy : run (recorder types reply) busy (start outputs []) ≡ some busy_state
unfolding run start step step_any step_main locked_add append new_pipeline alive select ready
    take_locked take_buffer write_one write_to supports
run-busy = refl

run-ledger_example :
    ledger types reply type_log busy_state ≡ share types reply type_log (added busy)
run-ledger_example =
    run-ledger types reply type_log outputs busy {a = busy_state} reply-Calm
      (inr ((λ q. cc), inl (refl, tt))) run-busy

abbrev repeat : ℕ → Event → List Event
repeat zero e = []
repeat (suc n) e = e ∷ repeat n e

abbrev copies : ℕ → List Telemetry
copies zero = []
copies (suc n) = a_log 0 ∷ copies n

-- A hundred logs come in, and the goroutine of the last has not sent its token yet.
abbrev full_state : Agent TelemetryType (Calls TelemetryType)
full_state = record {
  pipeline = record { outputs = outputs; buffer = copies 100; flush_token = false };
  main = selecting;
  senders = 1;
  cancelled = false;
  interrupted = false;
  ticked = false;
  world = [];
}

run_full :
    run (recorder types reply) (repeat 100 (adds (a_log 0))) (start outputs []) ≡ some full_state
unfolding run start step step_any step_main locked_add append new_pipeline alive select ready
    take_locked take_buffer write_one write_to supports
run_full = refl

run-Noticed_example : Noticed full_state
run-Noticed_example =
    run-Noticed (recorder types reply) outputs [] (repeat 100 (adds (a_log 0))) {a = full_state}
      run_full

run-prompt_example :
    Empties (recorder types reply) (prompt (recorder types reply) full_state) full_state
run-prompt_example =
    run-prompt (recorder types reply) outputs [] (repeat 100 (adds (a_log 0))) {a = full_state}
      run_full refl (omega arith)

-- The second log comes in while the signal is handled, and the last flush delivers both.
abbrev leaving : List Event
leaving = adds (a_log 1) ∷ interrupts ∷ on_signal ∷ adds (a_log 2) ∷ []

abbrev leaving_state : Agent TelemetryType (Calls TelemetryType)
leaving_state = record {
  pipeline = record { outputs = outputs; buffer = a_log 1 ∷ a_log 2 ∷ []; flush_token = false };
  main = selecting;
  senders = 0;
  cancelled = true;
  interrupted = false;
  ticked = false;
  world = [];
}

run-farewell_example :
    run (recorder types reply) (farewell leaving_state) leaving_state
    ≡ some (gone types reply leaving_state (a_log 1 ∷ a_log 2 ∷ []))
run-farewell_example = run-farewell types reply leaving_state reply-Calm refl refl

abbrev last_state : Agent TelemetryType (Calls TelemetryType)
last_state = record leaving_state { main = flushing true }

run_last : run (recorder types reply) (leaving ++ on_done ∷ []) (start outputs []) ≡ some last_state
unfolding run start step step_any step_main locked_add append new_pipeline alive select ready
    take_locked take_buffer write_one write_to supports
run_last = refl

-- Outputs that count the items they have been given, and refuse every other call.
abbrev counting : Output TelemetryType (ℕ × Bool)
counting = record {
  supported_types = types;
  write =
      λ o batch w. ((w.0 + length batch, not w.1), if w.1 then returned else failed (codes "busy"));
}

counting-Calm : Calm types (answers counting (0, true)) outputs
unfolding answers
counting-Calm = ((λ calls batch. answer_calm _), ((λ calls batch. answer_calm _), tt))
  where
    answer_calm : (b : Bool) → (if b then returned else failed (codes "busy")) ≢ panicked
    answer_calm true = λ q. cc
    answer_calm false = λ q. cc

run-counting :
    run counting busy (start outputs (0, true)) ≡ some (played counting (0, true) busy_state)
unfolding run start write_to supports replay
run-counting = refl

run-calls_example :
    (calls : Calls TelemetryType) × ((1, false) ≡ replay counting (0, true) calls)
    × ((o : TelemetryType)
        → Once o outputs
        → received o (calls ++ in_flight types (answers counting (0, true)) o busy_state.main)
            ++ share types (answers counting (0, true)) o busy_state.pipeline.buffer
          ≡ share types (answers counting (0, true)) o (added busy))
unfolding replay
run-calls_example =
    run-calls counting (0, true) outputs busy {a = played counting (0, true) busy_state}
      counting-Calm run-counting
