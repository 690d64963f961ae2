-- ===== src/Inputs/Memleak/Setup/Lasting.antt =====
-- What becomes of the links of a run.
use arbutus.Base.{
  ℕ, ◌+◌, ◌-◌, ◌≡◌, ◌≢◌, refl, sym, ap, ◌∙◌, ◌==◌, ==_iff, inl, inr, List, [], ◌∷◌, length, Bool,
  true, false, if◌then◌else◌, Bool-cases, arith, Bytes, GoMap,
}
use arbutus.Inputs.Memleak.Config.{Config}
use arbutus.Inputs.Memleak.Loop.Links.{step-links}
use arbutus.Inputs.Memleak.Loop.{
  Event, stops, done, detailed_tick, report_tick, Status, waiting, step, step_live, run_live,
}
use arbutus.Inputs.Memleak.Report.{Sorter}
use arbutus.Inputs.Memleak.Setup.Laws.{count, remove, Documented}
use arbutus.Inputs.Memleak.Setup.Links.{Started, start-Started}
use arbutus.Inputs.Memleak.Setup.{Constant, Kernel, Begun, failed, panicked, looping, start}
use arbutus.Inputs.Memleak.{Memleak, close_links, halted, stop}

-- `Stop` is among the events.
abbrev pub is_stopped : List Event → Bool
is_stopped [] = false
is_stopped (stops ∷ es) = true
is_stopped (e ∷ es) = is_stopped es

count-remove :
    (j l : ℕ) (xs : List ℕ) → count j (remove l xs) ≡ count j xs - (if l == j then 1 else 0)
count-remove j l [] = ground arith
count-remove j l (x ∷ xs) = ground (arith, count-remove j l xs, ==_iff x l, ==_iff l j, ==_iff x j)

module _ (sorter : Sorter) {K S O : Type 0} (kernel : Kernel K S O) (laws : Documented kernel) where
  close_links-count :
      (j : ℕ) (ls : List ℕ) (k : K)
      → count j (laws.attached (close_links kernel.close_link ls k))
        ≡ count j (laws.attached k) - count j ls
  unfolding close_links
  close_links-count j [] k = omega arith
  close_links-count j (l ∷ ls) k = omega (
    arith,
    close_links-count j ls (kernel.close_link l k),
    ap (count j) (laws.detaches l k),
    count-remove j l (laws.attached k),
  )

  -- The kernel has, more than in `k`, the links of the plugin.
  abbrev pub Owns : K → K × Memleak × Status → Type 0
  Owns k (k1, m1, s) =
      (j : ℕ) → count j (laws.attached k1) ≡ count j (laws.attached k) + count j m1.links

  -- What a step does to the state: `Stop` empties the links, others leave them and the kernel.
  step_live-stops-Owns :
      (k0 k : K) (m : Memleak) (s : Status)
      → Owns k0 (k, m, s)
      → Owns k0 (step_live sorter kernel.close_link stops (k, m, s))
  unfolding step_live stop halted
  step_live-stops-Owns k0 k m s owns = λ j. omega (arith, owns j, close_links-count j m.links k)

  step_live-same :
      (e : Event) (k : K) (m : Memleak) (s : Status)
      → e ≢ stops
      → step_live sorter kernel.close_link e (k, m, s)
        ≡ (k, (step sorter e (m, s)).0, (step sorter e (m, s)).1)
  unfolding step_live
  step_live-same stops k m s ne = absurd (ne refl)
  step_live-same done k m s ne = refl
  step_live-same (detailed_tick sight) k m s ne = refl
  step_live-same (report_tick sight) k m s ne = refl

  abbrev Lasts : K → ℕ → List Event → K × Memleak × Status → Type 0
  Lasts k n es r = Owns k r × (length r.1.links ≡ (if is_stopped es then 0 else n))

  Lasts-stopped :
      (k : K) (es : List Event) (r : K × Memleak × Status) → Lasts k 0 es r → length r.1.links ≡ 0
  Lasts-stopped k es r h = elim (Bool-cases (is_stopped es)) [
    | inl q ↦ rw q at (h.1)
    | inr q ↦ rw q at (h.1)
  ]

  run_live-other :
      (e : Event) (es : List Event) (k0 k : K) (m : Memleak) (s : Status)
      → e ≢ stops
      → ((m' : Memleak) (s' : Status)
          → Owns k0 (k, m', s')
          → Lasts k0 (length m'.links) es (run_live sorter kernel.close_link es (k, m', s')))
      → Owns k0 (k, m, s)
      → Lasts k0
          (length m.links)
          es
          (run_live sorter kernel.close_link es (step_live sorter kernel.close_link e (k, m, s)))
  run_live-other e es k0 k m s ne follows owns =
      let same = step-links sorter e m s ne in
      let r = step sorter e (m, s) in
      let lasts =
        follows r.0 r.1
          (λ j. owns j ∙ ap (λ ls. count j (laws.attached k0) + count j ls) (sym same)) in
      rw (step_live-same e k m s ne) (rw same at lasts)

  run_live-Lasts :
      (es : List Event) (k0 k : K) (m : Memleak) (s : Status)
      → Owns k0 (k, m, s)
      → Lasts k0 (length m.links) es (run_live sorter kernel.close_link es (k, m, s))
  unfolding run_live step_live stop halted
  run_live-Lasts [] k0 k m s owns = (owns, refl)
  run_live-Lasts (stops ∷ es) k0 k m s owns =
      let lasts =
        run_live-Lasts es k0 (close_links kernel.close_link m.links k) (halted m) s
          (step_live-stops-Owns k0 k m s owns) in
      (
        lasts.0,
        Lasts-stopped k0 es
            (run_live sorter kernel.close_link es
              (close_links kernel.close_link m.links k, halted m, s))
            lasts,
      )
  run_live-Lasts (done ∷ es) k0 k m s owns =
      run_live-other done es k0 k m s (λ q. cc) (run_live-Lasts es k0 k) owns
  run_live-Lasts (detailed_tick sight ∷ es) k0 k m s owns =
      run_live-other (detailed_tick sight) es k0 k m s (λ q. cc) (run_live-Lasts es k0 k) owns
  run_live-Lasts (report_tick sight ∷ es) k0 k m s owns =
      run_live-other (report_tick sight) es k0 k m s (λ q. cc) (run_live-Lasts es k0 k) owns

  begun :
      (config : Config) (k : K) (m : Memleak) (r : K × Memleak × Begun O) (objs : O)
      → m.links ≡ []
      → r.2 ≡ looping objs
      → Started kernel laws config k m r
      → Owns k (r.0, r.1, waiting) × (length r.1.links ≡ 4)
  begun config k m (k1, m1, failed e) objs fresh q s = absurd cc
  begun config k m (k1, m1, panicked) objs fresh q s = absurd cc
  begun config k m (k1, m1, looping o) objs fresh q (held, counts, four, ticks, on, zero) =
      ((λ j. omega (arith, counts j, ap (count j) fresh)), rw fresh at four)

  -- If `Run` of a plugin that has no links comes to its loop: through whatever happens then, at each
  -- moment the kernel has, besides the links that it had before `Run`, just those of the plugin. These
  -- are the four that `Run` attached until `Stop` is called, also past a return of `Run` by a cancelled
  -- context or by `max_reports`; from the first call of `Stop` on there are none.
  pub run-lasting :
      (order : GoMap Bytes Constant → GoMap Bytes Constant) (config : Config) (k : K) (m : Memleak)
      → (objs : O) → m.links ≡ []
      → (start kernel order config k m).2 ≡ looping objs
      → (es : List Event)
      → let r = start kernel order config k m in
        let ended = run_live sorter kernel.close_link es (r.0, r.1, waiting) in
        Owns k ended × (length ended.1.links ≡ (if is_stopped es then 0 else 4))
  run-lasting order config k m objs fresh q es =
      let r = start kernel order config k m in
      let (owns, four) =
        begun config k m r objs fresh q (start-Started kernel laws order config k m) in
      let lasts = run_live-Lasts es k r.0 r.1 waiting owns in (lasts.0, rw four at (lasts.1))
