-- ===== src/Inputs/Reader/Tests.antt =====
-- A run with the plugin of template.go: a record, one that is too short, and a second.
use mathlib.Core.List.{Sublistᴰ}
use arbutus.Base.{
  ℕ, zero, suc, ◌-◌, ◌≤◌, ◌≡◌, refl, List, [], ◌∷◌, ◌++◌, Option, none, some, length, Bytes, codes,
  false, true,
}
use arbutus.Inputs.Reader.{
  Reader, Step, returned, reads, closes, stops, tests, on_event, channel_size, started, offer,
  step_reader, return_with, test_running, take_event, add_log, step_loop, step_any, step_unless,
  step, run,
}
use arbutus.Inputs.Reader.Passes.{decoded, Taken, events_of, logs_of}
use arbutus.Inputs.Reader.Ended.{IsSound, run-IsSound}
use arbutus.Inputs.Reader.Reaped.{run-reaped}
use arbutus.Inputs.Reader.Order.{run-ordered}
use arbutus.Inputs.Template.{TemplateEvent, decode, to_log}
use arbutus.Inputs.Wire.{attributes, cstring, index_byte, field, hostname_or_unknown}
use arbutus.Models.{Log, Time, pos}

abbrev zeros : ℕ → Bytes
zeros zero = []
zeros (suc n) = 0 ∷ zeros n

abbrev event : Bytes → TemplateEvent
event text = record { msg = text ++ zeros (256 - length text) }

abbrev logged : Bytes → Log
logged text = record {
  time = pos 7;
  level = codes "info";
  message = codes "Template msg: " ++ text;
  attributes = attributes (codes "template") (codes "unknown");
}

abbrev make : Time → TemplateEvent → Option Log
make = to_log none

abbrev until_stopped : List Step
until_stopped =
    tests
    ∷ reads (event (codes "one")).msg
    ∷ reads (codes "short")
    ∷ reads (event (codes "two")).msg
    ∷ on_event (pos 7)
    ∷ stops
    ∷ tests
    ∷ []

abbrev two_records : List Step
two_records = until_stopped ++ closes ∷ []

abbrev stopped : Reader TemplateEvent
stopped = record {
  reading = false;
  events = event (codes "two") ∷ [];
  errors = none;
  running = false;
  cancelled = false;
  closed = true;
  loop = returned none;
  logs = logged (codes "one") ∷ [];
}

-- `Run` has returned, the goroutine not yet.
abbrev left : Reader TemplateEvent
left = record stopped { reading = true }

run-two_records : run decode make two_records started ≡ some stopped
unfolding run step step_unless step_any step_reader step_loop offer test_running return_with
    take_event add_log decode to_log cstring index_byte field hostname_or_unknown
run-two_records = refl

run-ordered_example :
    (taken : Taken decode make) × (stopped.logs ≡ logs_of decode make taken)
    × Sublistᴰ (events_of decode make taken ++ stopped.events) (decoded decode make two_records)
    × (length stopped.events ≤ channel_size)
run-ordered_example = run-ordered decode make two_records {r = stopped} run-two_records

run-until_stopped : run decode make until_stopped started ≡ some left
unfolding run step step_unless step_any step_reader step_loop offer test_running return_with
    take_event add_log decode to_log cstring index_byte field hostname_or_unknown
run-until_stopped = refl

run-IsSound_example : IsSound left
run-IsSound_example = run-IsSound decode make until_stopped {r = left} run-until_stopped

run-reaped_example :
    (left.reading ≡ true → step decode make closes left ≡ some stopped)
    × ((more : List Step) (q : Reader TemplateEvent)
        → run decode make more left ≡ some q
        → (q.loop ≡ returned none) × (q.logs ≡ left.logs))
run-reaped_example =
    run-reaped decode make until_stopped {r = left} {e = none} run-until_stopped refl
