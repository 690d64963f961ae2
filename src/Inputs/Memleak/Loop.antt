-- ===== src/Inputs/Memleak/Loop.antt =====
-- internal/plugins/inputs/memleak/memleak.go: the loop of `Run`. An event is what wakes its `select`,
-- or a call of `Stop` from elsewhere, of which `step` has what it does to the plugin and `step_live` the
-- whole, with the kernel; a check is left open here, but for what it can do to the state:
-- it sets the memory of sizes.
pub mod Bound
pub mod Links
use arbutus.Base.{
  ℕ, zero, suc, ◌+◌, ◌≡◌, Bool, true, false, ◌&&◌, List, [], ◌∷◌, ◌++◌, Option, none, some, leb,
  if◌then◌else◌, Bytes, codes,
}
use arbutus.Inputs.Memleak.Leaks.{AllocInfo}
use arbutus.Inputs.Memleak.Report.{Sorter, Surroundings, check_for_new_leaks}
use arbutus.Inputs.Memleak.{Memleak, halted, stop}
use arbutus.Models.{Log, ℤ, pos, negsuc}

-- What a check finds when a ticker fires: the allocations, or the error of the iterator.
pub record Sight : Type 0 where
  pub env : Surroundings
  pub infos : List AllocInfo
  pub iter_error : Option Bytes

pub data Event : Type 0 where
  -- `<-ctx.Done()`, `<-m.detailedTicker.C`, `<-m.reportTicker.C`
  done : Event
  detailed_tick report_tick : Sight → Event
  -- `Stop()`
  stops : Event

-- How the loop stands: at its `select`, or past the end with the error that `Run` returned.
pub data Status : Type 0 where
  waiting : Status
  returned : Option Bytes → Status

-- `m.maxReports >= 0 && m.reportCount >= m.maxReports`
abbrev pub is_exhausted : ℤ → ℕ → Bool
is_exhausted (pos n) count = leb n count
is_exhausted (negsuc n) count = false

-- `for m.running`, after a case of the `select`.
abbrev again : Memleak → Status
again m = if m.running then waiting else returned none

module _ (sorter : Sorter) where
  check : Bool → Sight → Memleak → Memleak × List Log
  check detailed sight m =
      let (m', logs, error) =
        check_for_new_leaks sorter sight.env sight.infos sight.iter_error detailed m in
      (m', logs)

  detailed_report : Sight → Memleak → Memleak × List Log
  unfolding check
  detailed_report sight m =
      let (m', logs) = check true sight m in
      (record m' { report_count = m'.report_count + 1 }, logs)

  on_detailed : Sight → Memleak → Memleak × List Log
  unfolding detailed_report
  on_detailed sight m =
      if is_exhausted m.max_reports m.report_count
      then (record m { running = false }, [])
      else detailed_report sight m

  step_waiting : Event → Memleak → Memleak × Status × List Log
  unfolding check on_detailed
  step_waiting done m = (m, returned (some (codes "context canceled")), [])
  step_waiting (detailed_tick sight) m =
      let (m', logs) = on_detailed sight m in (m', again m', logs)
  step_waiting (report_tick sight) m = let (m', logs) = check false sight m in (m', again m', logs)
  step_waiting stops m = (halted m, waiting, [])

  -- After the return only `Stop` does anything.
  unfoldable pub step : Event → Memleak × Status → Memleak × Status × List Log
  unfolding step_waiting
  step e (m, waiting) = step_waiting e m
  step stops (m, returned r) = (halted m, returned r, [])
  step _ (m, returned r) = (m, returned r, [])

  -- The state at the end, and the logs of each event.
  unfoldable pub run : List Event → Memleak × Status → Memleak × Status × List (List Log)
  unfolding step
  run [] (m, status) = (m, status, [])
  run (e ∷ es) (m, status) =
      let (m', status', logs) = step e (m, status) in
      let (m'', status'', more) = run es (m', status') in (m'', status'', logs ∷ more)

  -- The same with the kernel, in which the loop changes nothing and `Stop` closes the links.
  module _ {K : Type 0} (close_link : ℕ → K → K) where
    unfoldable pub step_live : Event → K × Memleak × Status → K × Memleak × Status
    unfolding step stop
    step_live stops (k, m, status) = let (k', m') = stop close_link (k, m) in (k', m', status)
    step_live e (k, m, status) = let (m', status', logs) = step e (m, status) in (k, m', status')

    unfoldable pub run_live : List Event → K × Memleak × Status → K × Memleak × Status
    unfolding step_live
    run_live [] state = state
    run_live (e ∷ es) state = run_live es (step_live e state)
