-- ===== src/Inputs/Reader/Unbroken.antt =====
-- The loop never panics on events that give logs.
use mathlib.Core.Path.{subst}
use arbutus.Base.{
  ◌≡◌, ◌≢◌, refl, inl, inr, Bool, true, List, [], ◌∷◌, ◌++◌, Option, none, some, length, ltb, Bytes,
  Bool-cases, Option-cases, some_eq, All,
}
use arbutus.Models.{Log, Time}
use arbutus.Inputs.Reader.{
  Reader, Step, Loop, testing, selecting, panicked, reads, closes, fails, cancels, stops, tests,
  on_done, on_error, on_event, channel_size, offer, step_reader, step_loop, take_event, add_log,
  take_error, test_running, return_with, step_any, step_unless, started, step, run,
}

All-append : {A : Type 0} (P : A → Type 0) (xs ys : List A) → All P xs → All P ys → All P (xs ++ ys)
All-append P [] ys p q = q
All-append P (x ∷ xs) ys p q = (p.0, All-append P xs ys p.1 q)

module _ {E : Type 0} (decode : Bytes → Option E) (to_log : Time → E → Option Log)
    (Good : E → Type 0) (gives : (now : Time) (e : E) → Good e → to_log now e ≢ none) where
  -- The events among these records are good.
  abbrev pub Sane : List Step → Type 0
  Sane [] = Unit
  Sane (reads sample ∷ ss) = ((e : E) → decode sample ≡ some e → Good e) × Sane ss
  Sane (s ∷ ss) = Sane ss

  -- The events in the channel are good, and the loop stands.
  record Stands (r : Reader E) : Type 0 where
    events : All Good r.events
    loop : r.loop ≢ panicked

  offer-Stands :
      (o : Option E) (r : Reader E)
      → ((e : E) → o ≡ some e → Good e)
      → Stands r
      → Stands (offer decode to_log o r)
  unfolding offer
  offer-Stands none r good s = s
  offer-Stands (some e) r good s = elim (Bool-cases (ltb (length r.events) channel_size)) [
    | inl fits ↦ rw fits (record {
      events = All-append Good r.events (e ∷ []) s.events (good e refl, tt);
      loop = s.loop;
    })
    | inr full ↦ rw full s
  ]

  step_reader-Stands :
      (b : Bool) (s : Step) (r q : Reader E)
      → Sane (s ∷ [])
      → Stands r
      → step_reader decode to_log b s r ≡ some q
      → Stands q
  unfolding step_reader
  step_reader-Stands true (reads sample) r q (good, u) t h =
      subst (λ p. Stands p) (some_eq h) (offer-Stands (decode sample) r good t)
  step_reader-Stands true closes r q sane t h = elim (Bool-cases r.closed) [
    | inl on ↦
        subst (λ p. Stands p) (some_eq (rw on at h)) (record { events = t.events; loop = t.loop })
    | inr off ↦ cc (rw off at h)
  ]
  step_reader-Stands true (fails e) r q sane t h =
      subst (λ p. Stands p) (some_eq h) (record { events = t.events; loop = t.loop })
  step_reader-Stands _ _ r q sane t h = absurd cc

  take_event-Stands :
      (now : Time) (xs : List E) (r q : Reader E)
      → All Good xs
      → take_event decode to_log now xs r ≡ some q
      → Stands q
  unfolding take_event add_log
  take_event-Stands now [] r q goods h = absurd cc
  take_event-Stands now (x ∷ rest) r q (good, goods) h = elim (Option-cases (to_log now x)) [
    | inl n ↦ absurd (gives now x good n)
    | inr (l, m) ↦
        subst (λ p. Stands p) (some_eq (rw m at h)) (record { events = goods; loop = λ e. cc })
  ]

  take_error-Stands :
      (o : Option Bytes) (r q : Reader E)
      → All Good r.events
      → take_error decode to_log o r ≡ some q
      → Stands q
  unfolding take_error return_with
  take_error-Stands none r q goods h = absurd cc
  take_error-Stands (some e) r q goods h =
      subst (λ p. Stands p) (some_eq h) (record { events = goods; loop = λ e. cc })

  step_loop-Stands :
      (l : Loop) (s : Step) (r q : Reader E)
      → All Good r.events
      → step_loop decode to_log l s r ≡ some q
      → Stands q
  unfolding step_loop test_running return_with
  step_loop-Stands testing tests r q goods h = elim (Bool-cases r.running) [
    | inl on ↦
        subst (λ p. Stands p) (some_eq (rw on at h)) (record { events = goods; loop = λ e. cc })
    | inr off ↦
        subst (λ p. Stands p) (some_eq (rw off at h)) (record { events = goods; loop = λ e. cc })
  ]
  step_loop-Stands selecting on_done r q goods h = elim (Bool-cases r.cancelled) [
    | inl on ↦
        subst (λ p. Stands p) (some_eq (rw on at h)) (record { events = goods; loop = λ e. cc })
    | inr off ↦ cc (rw off at h)
  ]
  step_loop-Stands selecting on_error r q goods h = take_error-Stands r.errors r q goods h
  step_loop-Stands selecting (on_event now) r q goods h = take_event-Stands now r.events r q goods h
  step_loop-Stands _ _ r q goods h = absurd cc

  step_any-Stands :
      (s : Step) (r q : Reader E)
      → Sane (s ∷ [])
      → Stands r
      → step_any decode to_log s r ≡ some q
      → Stands q
  unfolding step_any
  step_any-Stands cancels r q sane t h =
      subst (λ p. Stands p) (some_eq h) (record { events = t.events; loop = t.loop })
  step_any-Stands stops r q sane t h =
      subst (λ p. Stands p) (some_eq h) (record { events = t.events; loop = t.loop })
  step_any-Stands (reads sample) r q sane t h =
      step_reader-Stands r.reading (reads sample) r q sane t h
  step_any-Stands closes r q sane t h = step_reader-Stands r.reading closes r q sane t h
  step_any-Stands (fails e) r q sane t h = step_reader-Stands r.reading (fails e) r q sane t h
  step_any-Stands s r q sane t h = step_loop-Stands r.loop s r q t.events h

  step_unless-Stands :
      (l : Loop) (s : Step) (r q : Reader E)
      → Sane (s ∷ [])
      → Stands r
      → step_unless decode to_log l s r ≡ some q
      → Stands q
  unfolding step_unless
  step_unless-Stands panicked s r q sane t h = absurd cc
  step_unless-Stands _ s r q sane t h = step_any-Stands s r q sane t h

  Sane-split : (s : Step) (ss : List Step) → Sane (s ∷ ss) → Sane (s ∷ []) × Sane ss
  Sane-split (reads sample) ss (good, sane) = ((good, tt), sane)
  Sane-split _ ss sane = (tt, sane)

  run_keeps-Stands :
      (ss : List Step) (r q : Reader E)
      → Sane ss
      → Stands r
      → run decode to_log ss r ≡ some q
      → Stands q
  unfolding run step
  run_keeps-Stands [] r q sane t h = subst (λ p. Stands p) (some_eq h) t
  run_keeps-Stands (s ∷ ss) r q sane t h = elim (Option-cases (step decode to_log s r)) [
    | inl e ↦ cc (rw (e, run) at h)
    | inr (m, e) ↦
        let (first, others) = Sane-split s ss sane in
        run_keeps-Stands ss m q others (step_unless-Stands r.loop s r m first t e)
          (rw (e, run) at h)
  ]

  -- If each record that is read and decoded is a good event, and a good event gives a log, then the
  -- loop of `Run` never panics.
  pub run-unbroken :
      (ss : List Step) {r : Reader E}
      → Sane ss
      → run decode to_log ss started ≡ some r
      → r.loop ≢ panicked
  run-unbroken ss {r} sane h =
      (run_keeps-Stands ss started r sane (record { events = tt; loop = λ e. cc }) h).loop
