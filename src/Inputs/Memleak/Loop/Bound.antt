-- ===== src/Inputs/Memleak/Loop/Bound.antt =====
-- `max_reports` bounds the detailed reports, and ends the loop.
use arbutus.Base.{
  ℕ, suc, ◌+◌, ◌≤◌, ◌<◌, ◌≡◌, refl, ◌∙◌, Option-cases, inl, inr, Bool, true, false, List, [], ◌∷◌,
  Option, arith, Bool-cases, Bytes, ◌≢◌,
}
use arbutus.Inputs.Memleak.Report.{Sorter, check_for_new_leaks}
use arbutus.Inputs.Memleak.Loop.{
  Sight, Event, done, detailed_tick, report_tick, stops, Status, waiting, returned, is_exhausted,
  check, detailed_report, on_detailed, step_waiting, step, run,
}
use arbutus.Inputs.Memleak.{Memleak, halted}
use arbutus.Models.{Log, ℤ, pos}

-- How often the detailed ticker fires.
abbrev pub detailed_ticks : List Event → ℕ
detailed_ticks [] = 0
detailed_ticks (detailed_tick s ∷ es) = suc (detailed_ticks es)
detailed_ticks (e ∷ es) = detailed_ticks es

-- How many detailed ticks led to logs.
abbrev pub detailed_logs : List Event → List (List Log) → ℕ
detailed_logs (detailed_tick s ∷ es) ((l ∷ ls) ∷ more) = suc (detailed_logs es more)
detailed_logs (e ∷ es) (logs ∷ more) = detailed_logs es more
detailed_logs _ _ = 0

module _ (sorter : Sorter) where
  check-report_count :
      (detailed : Bool) (sight : Sight) (m : Memleak)
      → ((check sorter detailed sight m).0.report_count ≡ m.report_count)
        × ((check sorter detailed sight m).0.max_reports ≡ m.max_reports)
  unfolding check check_for_new_leaks
  check-report_count detailed sight m = elim (Option-cases sight.iter_error) [
    | inl e ↦ rw e (refl, refl)
    | inr (x, e) ↦ rw e (refl, refl)
  ]

  -- The logs of one event of a kind.
  abbrev logged : Event → List Log → ℕ
  logged e logs = detailed_logs (e ∷ []) (logs ∷ [])

  -- One step counts a detailed report that has logs, never counts past the limit, and counts every
  -- detailed tick after which the loop goes on.
  abbrev Counts : Event → Memleak → Memleak × Status × List Log → Type 0
  Counts e m r =
      (r.0.max_reports ≡ m.max_reports)
      × (m.report_count + logged e r.2 ≤ r.0.report_count)
      × ((n : ℕ) → m.max_reports ≡ pos n → m.report_count ≤ n → r.0.report_count ≤ n)
      × (r.1 ≡ waiting → m.report_count + detailed_ticks (e ∷ []) ≤ r.0.report_count)

  logged-le : (sight : Sight) (logs : List Log) → logged (detailed_tick sight) logs ≤ 1
  logged-le sight [] = omega arith
  logged-le sight (l ∷ ls) = omega arith

  below_limit :
      (limit : ℤ) (count n : ℕ) → is_exhausted limit count ≡ false → limit ≡ pos n → count < n
  below_limit limit count n h e = ground (arith, rw e at h)

  on_detailed-Counts :
      (sight : Sight) (m : Memleak)
      → Counts (detailed_tick sight) m (step_waiting sorter (detailed_tick sight) m)
  unfolding step_waiting on_detailed detailed_report
  on_detailed-Counts sight m = elim (Bool-cases (is_exhausted m.max_reports m.report_count)) [
    | inl over ↦ rw over (refl, omega arith, (λ n e h. h), (λ q. absurd cc))
    | inr room ↦
        let (count, limit) = check-report_count true sight m in
        rw room (
          limit,
          omega (arith, count, logged-le sight (check sorter true sight m).1),
          (λ n e h. omega (arith, count, below_limit m.max_reports m.report_count n room e)),
          (λ q. omega (arith, count)),
        )
  ]

  step_waiting-Counts : (e : Event) (m : Memleak) → Counts e m (step_waiting sorter e m)
  unfolding step_waiting halted
  step_waiting-Counts done m = (refl, omega arith, (λ n e h. h), (λ q. absurd cc))
  step_waiting-Counts (detailed_tick sight) m = on_detailed-Counts sight m
  step_waiting-Counts (report_tick sight) m =
      let (count, limit) = check-report_count false sight m in
      (limit, omega (arith, count), (λ n e h. omega (arith, count)), (λ q. omega (arith, count)))
  step_waiting-Counts stops m = (refl, omega arith, (λ n e h. h), (λ q. omega arith))

  step_returned-Counts :
      (e : Event) (m : Memleak) (r : Option Bytes) → Counts e m (step sorter e (m, returned r))
  unfolding step halted
  step_returned-Counts stops m r = (refl, omega arith, (λ n e h. h), (λ q. absurd cc))
  step_returned-Counts _ m r = (refl, omega arith, (λ n e h. h), (λ q. absurd cc))

  step-Counts : (e : Event) (m : Memleak) (s : Status) → Counts e m (step sorter e (m, s))
  unfolding step
  step-Counts e m waiting = step_waiting-Counts e m
  step-Counts e m (returned r) = step_returned-Counts e m r

  detailed_logs-cons :
      (e : Event) (es : List Event) (logs : List Log) (more : List (List Log))
      → detailed_logs (e ∷ es) (logs ∷ more) ≡ logged e logs + detailed_logs es more
  detailed_logs-cons (detailed_tick s) es [] more = omega arith
  detailed_logs-cons (detailed_tick s) es (l ∷ ls) more = omega arith
  detailed_logs-cons done es logs more = omega arith
  detailed_logs-cons (report_tick s) es logs more = omega arith
  detailed_logs-cons stops es logs more = omega arith

  detailed_ticks-cons :
      (e : Event) (es : List Event)
      → detailed_ticks (e ∷ es) ≡ detailed_ticks (e ∷ []) + detailed_ticks es
  detailed_ticks-cons (detailed_tick s) es = omega arith
  detailed_ticks-cons _ es = omega arith

  returned-stays :
      (es : List Event) (m : Memleak) (r : Option Bytes)
      → (run sorter es (m, returned r)).1 ≢ waiting
  unfolding run step
  returned-stays [] m r = λ q. cc
  returned-stays (stops ∷ es) m r = returned-stays es (halted m) r
  returned-stays (_ ∷ es) m r = returned-stays es m r

  was_waiting :
      (es : List Event) (m : Memleak) (s : Status)
      → (run sorter es (m, s)).1 ≡ waiting
      → s ≡ waiting
  was_waiting es m waiting h = refl
  was_waiting es m (returned r) h = absurd (returned-stays es m r h)

  -- The loop over the rest of the run.
  abbrev Bounds : List Event → Memleak → Memleak × Status × List (List Log) → Type 0
  Bounds es m r =
      (m.report_count + detailed_logs es r.2 ≤ r.0.report_count)
      × ((n : ℕ) → m.max_reports ≡ pos n → m.report_count ≤ n → r.0.report_count ≤ n)
      × (r.1 ≡ waiting → m.report_count + detailed_ticks es ≤ r.0.report_count)

  run-Bounds : (es : List Event) (m : Memleak) (s : Status) → Bounds es m (run sorter es (m, s))
  unfolding run
  run-Bounds [] m s = (omega arith, (λ n e h. h), (λ q. omega arith))
  run-Bounds (e ∷ es) m s =
      let r = step sorter e (m, s) in
      let (limit, logged_le, keeps, ticks) = step-Counts e m s in
      let (more, keeps', ticks') = run-Bounds es r.0 r.1 in
      (
        omega (arith, detailed_logs-cons e es r.2 (run sorter es (r.0, r.1)).2),
        (λ n q h. keeps' n (limit ∙ q) (keeps n q h)),
        (λ q. omega (arith, detailed_ticks-cons e es, ticks' q, ticks (was_waiting es r.0 r.1 q))),
      )

  -- With `max_reports` at n, `Run` writes at most n detailed reports, whatever else happens.
  pub run_max_reports :
      (m : Memleak) (es : List Event) (n : ℕ)
      → m.max_reports ≡ pos n
      → m.report_count ≡ 0
      → detailed_logs es (run sorter es (m, waiting)).2 ≤ n
  run_max_reports m es n limit start =
      let (logged_le, keeps, ticks) = run-Bounds es m waiting in
      omega (arith, keeps n limit (omega arith))

  -- With `max_reports` at n, `Run` has returned by the tick of the detailed ticker that follows the
  -- n-th.
  pub run-returned :
      (m : Memleak) (es : List Event) (n : ℕ)
      → m.max_reports ≡ pos n
      → m.report_count ≡ 0
      → n < detailed_ticks es
      → (run sorter es (m, waiting)).1 ≢ waiting
  run-returned m es n limit start many q =
      let (logged_le, keeps, ticks) = run-Bounds es m waiting in
      absurd (omega (arith, ticks q, keeps n limit (omega arith)))
