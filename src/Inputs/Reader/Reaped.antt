-- ===== src/Inputs/Reader/Reaped.antt =====
-- What can still happen when `Run` has returned.
use mathlib.Core.Path.{subst}
use arbutus.Base.{
  ◌≡◌, refl, sym, ap, ◌∙◌, inl, inr, Bool, true, false, List, [], ◌∷◌, arith, Option, none, some,
  length, ltb, Bytes, Bool-cases, Option-cases, some_eq,
}
use arbutus.Models.{Log, Time}
use arbutus.Inputs.Reader.{
  Reader, Step, returned, reads, closes, fails, cancels, stops, channel_size, offer, step_reader,
  step_loop, step_any, step_unless, started, step, run,
}
use arbutus.Inputs.Reader.Ended.{is_returned, run-IsSound}

module _ {E : Type 0} (decode : Bytes → Option E) (to_log : Time → E → Option Log) where
  -- What a step that only concerns the goroutine leaves alone.
  abbrev Still : Reader E → Reader E → Type 0
  Still r q = (q.loop ≡ r.loop) × (q.logs ≡ r.logs)

  offer-Still : (event : Option E) (r : Reader E) → Still r (offer decode to_log event r)
  unfolding offer
  offer-Still none r = (refl, refl)
  offer-Still (some e) r = elim (Bool-cases (ltb (length r.events) channel_size)) [
    | inl fits ↦ rw fits (refl, refl)
    | inr full ↦ rw full (refl, refl)
  ]

  step_reader-Still :
      (b : Bool) (s : Step) (r q : Reader E) → step_reader decode to_log b s r ≡ some q → Still r q
  unfolding step_reader
  step_reader-Still true (reads sample) r q h =
      subst (λ p. Still r p) (some_eq h) (offer-Still (decode sample) r)
  step_reader-Still true closes r q h = ground arith
  step_reader-Still true (fails e) r q h = ground arith
  step_reader-Still _ _ r q h = absurd cc

  step_any-Still :
      (s : Step) (e : Option Bytes) (r q : Reader E)
      → r.loop ≡ returned e
      → step_any decode to_log s r ≡ some q
      → Still r q
  unfolding step_any step_loop
  step_any-Still cancels e r q l h = ground arith
  step_any-Still stops e r q l h = ground arith
  step_any-Still (reads sample) e r q l h = step_reader-Still r.reading (reads sample) r q h
  step_any-Still closes e r q l h = step_reader-Still r.reading closes r q h
  step_any-Still (fails x) e r q l h = step_reader-Still r.reading (fails x) r q h
  step_any-Still s e r q l h = cc (rw l at h)

  returned-Still :
      (s : Step) (e : Option Bytes) (r q : Reader E)
      → r.loop ≡ returned e
      → step decode to_log s r ≡ some q
      → Still r q
  unfolding step step_unless
  returned-Still s e r q l h =
      step_any-Still s e r q l (subst (λ c. step_unless decode to_log c s r ≡ some q) l h)

  run-still :
      (ss : List Step) (e : Option Bytes) (r q : Reader E)
      → r.loop ≡ returned e
      → run decode to_log ss r ≡ some q
      → (q.loop ≡ returned e) × (q.logs ≡ r.logs)
  unfolding run
  run-still [] e r q l h =
      (ap (λ p. p.loop) (sym (some_eq h)) ∙ l, ap (λ p. p.logs) (sym (some_eq h)))
  run-still (s ∷ ss) e r q l h = elim (Option-cases (step decode to_log s r)) [
    | inl n ↦ cc (rw (n, run) at h)
    | inr (m, n) ↦
        let one = returned-Still s e r m l n in
        let rest = run-still ss e m q (one.0 ∙ l) (rw (n, run) at h) in (rest.0, rest.1 ∙ one.1)
  ]

  -- Once `Run` has returned, a goroutine that still reads can end at once, with the error of a closed
  -- reader, and whatever steps follow hand nothing more to the accumulator.
  pub run-reaped :
      (ss : List Step) {r : Reader E} {e : Option Bytes}
      → run decode to_log ss started ≡ some r
      → r.loop ≡ returned e
      → (r.reading ≡ true → step decode to_log closes r ≡ some (record r { reading = false }))
        × ((more : List Step) (q : Reader E)
            → run decode to_log more r ≡ some q
            → (q.loop ≡ returned e) × (q.logs ≡ r.logs))
  unfolding step step_unless step_any step_reader
  run-reaped ss {r} {e} h l =
      let c = (run-IsSound decode to_log ss {r = r} h).closed ∙ ap is_returned l in
      (λ on. rw (l, on, c), λ more q g. run-still more e r q l g)
