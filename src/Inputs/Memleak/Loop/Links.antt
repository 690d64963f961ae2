-- ===== src/Inputs/Memleak/Loop/Links.antt =====
-- The loop of `Run` and the links of the plugin.
use arbutus.Base.{◌≡◌, ◌≢◌, refl, inl, inr, Bool, true, false, Bool-cases, Option-cases}
use arbutus.Inputs.Memleak.Loop.{
  Event, done, detailed_tick, report_tick, stops, Sight, Status, waiting, returned, is_exhausted,
  check, detailed_report, on_detailed, step_waiting, step,
}
use arbutus.Inputs.Memleak.Report.{Sorter, check_for_new_leaks}
use arbutus.Inputs.Memleak.{Memleak}

module _ (sorter : Sorter) where
  check-links :
      (detailed : Bool) (sight : Sight) (m : Memleak)
      → (check sorter detailed sight m).0.links ≡ m.links
  unfolding check check_for_new_leaks
  check-links detailed sight m = elim (Option-cases sight.iter_error) [
    | inl e ↦ rw e refl
    | inr (x, e) ↦ rw e refl
  ]

  on_detailed-links : (sight : Sight) (m : Memleak) → (on_detailed sorter sight m).0.links ≡ m.links
  unfolding on_detailed detailed_report
  on_detailed-links sight m = elim (Bool-cases (is_exhausted m.max_reports m.report_count)) [
    | inl over ↦ rw over refl
    | inr room ↦ rw room (check-links true sight m)
  ]

  -- No step but `Stop` touches the links.
  pub step-links :
      (e : Event) (m : Memleak) (s : Status) → e ≢ stops → (step sorter e (m, s)).0.links ≡ m.links
  unfolding step step_waiting
  step-links stops m s ne = absurd (ne refl)
  step-links done m waiting ne = refl
  step-links (detailed_tick sight) m waiting ne = on_detailed-links sight m
  step-links (report_tick sight) m waiting ne = check-links false sight m
  step-links done m (returned r) ne = refl
  step-links (detailed_tick sight) m (returned r) ne = refl
  step-links (report_tick sight) m (returned r) ne = refl
