-- ===== src/Inputs/Reader.antt =====
-- The frame that dnssnoop.go, opensnoop.go and template.go share: a goroutine reads records from
-- the kernel's ring buffer into a channel of 10000 events, and the loop of `Run` turns events into
-- logs. `decode` is `binary.Read` into the plugin's event type; `to_log` is what the loop makes of an
-- event at a time, `none` if that panics. An event of a run is one atomic step of one goroutine.
pub mod Passes
pub mod Order
pub mod Traced
pub mod Ended
pub mod Reaped
pub mod Unbroken
mod Tests
use arbutus.Base.{
  ℕ, zero, suc, ◌≡◌, refl, Bool, true, false, List, [], ◌∷◌, ◌++◌, Option, none, some, length, ltb,
  Bytes, codes, if◌then◌else◌,
}
use arbutus.Models.{Log, Time}

abbrev pub channel_size : ℕ
channel_size = 10000

-- Where the loop of `Run` stands: at its test of `running`, at its `select`, or past the end with the
-- error that `Run` returned, or taken down by a panic.
pub data Loop : Type 0 where
  testing selecting : Loop
  returned : Option Bytes → Loop
  panicked : Loop

pub record Reader (E : Type 0) : Type 0 where
  -- the goroutine still reads
  pub reading : Bool
  -- `eventChan` and `errChan`
  pub events : List E
  pub errors : Option Bytes
  -- the plugin's field `running`
  pub running : Bool
  pub cancelled : Bool
  -- `rd.Close()`, which `Run` defers, has run
  pub closed : Bool
  pub loop : Loop
  -- what went to the accumulator
  pub logs : List Log

pub data Step : Type 0 where
  -- `rd.Read` returns a record, `ErrClosed` once the reader has been closed, or another error
  reads : Bytes → Step
  closes : Step
  fails : Bytes → Step
  -- the context is cancelled; `Stop` is called
  cancels stops : Step
  -- the loop tests `running`, or takes a case of its `select`
  tests on_done on_error : Step
  -- the case of `eventChan`, with what `time.Now()` gives there
  on_event : Time → Step

abbrev pub started : {E : Type 0} → Reader E
started = record {
  reading = true;
  events = [];
  errors = none;
  running = true;
  cancelled = false;
  closed = false;
  loop = testing;
  logs = [];
}

-- The text of `ctx.Err()`.
abbrev pub context_cancelled : Bytes
context_cancelled = codes "context canceled"

module _ {E : Type 0} (decode : Bytes → Option E) (to_log : Time → E → Option Log) where
  -- `select { case eventChan <- event: default: }`
  offer : Option E → Reader E → Reader E
  offer none r = r
  offer (some event) r =
      if ltb (length r.events) channel_size then record r { events = r.events ++ event ∷ [] } else r

  -- `errChan` has room for the one error that the goroutine sends before it ends.
  step_reader : Bool → Step → Reader E → Option (Reader E)
  unfolding offer
  step_reader true (reads sample) r = some (offer (decode sample) r)
  step_reader true closes r = if r.closed then some (record r { reading = false }) else none
  step_reader true (fails e) r =
      some (record r { reading = false; errors = some (codes "reading from ringbuf: " ++ e) })
  step_reader _ _ r = none

  -- The end of `Run`, with its deferred calls.
  return_with : Option Bytes → Reader E → Reader E
  return_with e r = record r { closed = true; loop = returned e }

  test_running : Reader E → Reader E
  unfolding return_with
  test_running r = if r.running then record r { loop = selecting } else return_with none r

  take_error : Option Bytes → Reader E → Option (Reader E)
  unfolding return_with
  take_error none r = none
  take_error (some e) r = some (return_with (some e) (record r { errors = none }))

  add_log : Option Log → Reader E → Reader E
  add_log none r = record r { loop = panicked }
  add_log (some l) r = record r { loop = testing; logs = r.logs ++ l ∷ [] }

  take_event : Time → List E → Reader E → Option (Reader E)
  unfolding add_log
  take_event now [] r = none
  take_event now (event ∷ rest) r = some (add_log (to_log now event) (record r { events = rest }))

  step_loop : Loop → Step → Reader E → Option (Reader E)
  unfolding return_with test_running take_error take_event
  step_loop testing tests r = some (test_running r)
  step_loop selecting on_done r =
      if r.cancelled then some (return_with (some context_cancelled) r) else none
  step_loop selecting on_error r = take_error r.errors r
  step_loop selecting (on_event now) r = take_event now r.events r
  step_loop _ _ r = none

  step_any : Step → Reader E → Option (Reader E)
  unfolding step_reader step_loop
  step_any cancels r = some (record r { cancelled = true })
  step_any stops r = some (record r { running = false })
  step_any (reads sample) r = step_reader r.reading (reads sample) r
  step_any closes r = step_reader r.reading closes r
  step_any (fails e) r = step_reader r.reading (fails e) r
  step_any s r = step_loop r.loop s r

  -- A panic of the loop ends the process, the goroutine included.
  step_unless : Loop → Step → Reader E → Option (Reader E)
  unfolding step_any
  step_unless panicked s r = none
  step_unless _ s r = step_any s r

  -- `none`: the step cannot happen in this state.
  unfoldable pub step : Step → Reader E → Option (Reader E)
  unfolding step_unless
  step s r = step_unless r.loop s r

  unfoldable pub run : List Step → Reader E → Option (Reader E)
  unfolding step
  run [] r = some r
  run (s ∷ ss) r = elim (step s r) [ none ↦ none | some q ↦ run ss q ]
