-- ===== src/Inputs/Reader/Ended.antt =====
-- How the goroutine and the loop of `Run` end.
use mathlib.Core.Path.{subst}
use arbutus.Base.{
  ◌≡◌, refl, sym, ◌∙◌, inl, inr, ◌⊎◌, Bool, true, false, List, [], ◌∷◌, Option, none, some, length,
  ltb, Bytes, Bool-cases, Option-cases, some_eq, codes, ◌++◌,
}
use arbutus.Models.{Log, Time}
use arbutus.Inputs.Reader.{
  Reader, Step, Loop, testing, selecting, returned, panicked, reads, closes, fails, cancels, stops,
  tests, on_done, on_error, on_event, channel_size, offer, step_reader, step_loop, take_event,
  add_log, take_error, test_running, return_with, step_any, step_unless, started, step, run,
}

abbrev pub is_returned : Loop → Bool
is_returned (returned e) = true
is_returned _ = false

abbrev pub is_some : {A : Type 0} → Option A → Bool
is_some none = false
is_some (some a) = true

-- The goroutine reads, or its error waits in `errChan`.
abbrev pub IsWatched : {E : Type 0} → Reader E → Type 0
IsWatched r = (r.reading ≡ true) ⊎ (is_some r.errors ≡ true)

abbrev pub Watched : {E : Type 0} → Loop → Reader E → Type 0
Watched testing r = IsWatched r
Watched selecting r = IsWatched r
Watched _ r = Unit

-- The reader is closed just when `Run` has returned, and the goroutine is there until then.
pub record IsSound {E : Type 0} (r : Reader E) : Type 0 where
  pub closed : r.closed ≡ is_returned r.loop
  pub watched : Watched r.loop r

module _ {E : Type 0} (decode : Bytes → Option E) (to_log : Time → E → Option Log) where
  Watched-eq :
      (l : Loop) (r q : Reader E)
      → q.reading ≡ r.reading
      → q.errors ≡ r.errors
      → Watched l r
      → Watched l q
  Watched-eq testing r q a b w = rw (a, b) w
  Watched-eq selecting r q a b w = rw (a, b) w
  Watched-eq (returned e) r q a b w = tt
  Watched-eq panicked r q a b w = tt

  offer-IsSound :
      (event : Option E) (r : Reader E) → IsSound r → IsSound (offer decode to_log event r)
  unfolding offer
  offer-IsSound none r s = s
  offer-IsSound (some e) r s = elim (Bool-cases (ltb (length r.events) channel_size)) [
    | inl fits ↦
        rw fits (record { closed = s.closed; watched = Watched-eq r.loop r _ refl refl s.watched })
    | inr full ↦ rw full s
  ]

  add_log-IsSound :
      (o : Option Log) (r : Reader E)
      → r.closed ≡ false
      → IsWatched r
      → IsSound (add_log decode to_log o r)
  unfolding add_log
  add_log-IsSound none r c w = record { closed = c; watched = tt }
  add_log-IsSound (some l) r c w = record { closed = c; watched = w }

  take_event-IsSound :
      (now : Time) (xs : List E) (r q : Reader E)
      → r.closed ≡ false
      → IsWatched r
      → take_event decode to_log now xs r ≡ some q
      → IsSound q
  unfolding take_event
  take_event-IsSound now [] r q c w h = absurd cc
  take_event-IsSound now (x ∷ rest) r q c w h =
      subst (λ p. IsSound p) (some_eq h)
        (add_log-IsSound (to_log now x) (record r { events = rest }) c w)

  return_with-IsSound : (e : Option Bytes) (r : Reader E) → IsSound (return_with decode to_log e r)
  unfolding return_with
  return_with-IsSound e r = record { closed = refl; watched = tt }

  test_running-IsSound :
      (r : Reader E) → r.closed ≡ false → IsWatched r → IsSound (test_running decode to_log r)
  unfolding test_running
  test_running-IsSound r c w = elim (Bool-cases r.running) [
    | inl on ↦ rw on (record { closed = c; watched = w })
    | inr off ↦ rw off (record { closed = refl; watched = tt })
  ]

  take_error-IsSound :
      (o : Option Bytes) (r q : Reader E) → take_error decode to_log o r ≡ some q → IsSound q
  unfolding take_error
  take_error-IsSound none r q h = absurd cc
  take_error-IsSound (some e) r q h =
      subst (λ p. IsSound p) (some_eq h) (return_with-IsSound (some e) (record r { errors = none }))

  on_done-IsSound :
      (r q : Reader E) → step_loop decode to_log selecting on_done r ≡ some q → IsSound q
  unfolding step_loop
  on_done-IsSound r q h = elim (Bool-cases r.cancelled) [
    | inl on ↦
        subst (λ p. IsSound p) (some_eq (rw on at h)) (record { closed = refl; watched = tt })
    | inr off ↦ cc (rw off at h)
  ]

  step_loop-IsSound :
      (l : Loop) (s : Step) (r q : Reader E)
      → r.closed ≡ is_returned l
      → Watched l r
      → step_loop decode to_log l s r ≡ some q
      → IsSound q
  unfolding step_loop
  step_loop-IsSound testing tests r q c w h =
      subst (λ p. IsSound p) (some_eq h) (test_running-IsSound r c w)
  step_loop-IsSound selecting on_done r q c w h = on_done-IsSound r q h
  step_loop-IsSound selecting on_error r q c w h = take_error-IsSound r.errors r q h
  step_loop-IsSound selecting (on_event now) r q c w h = take_event-IsSound now r.events r q c w h
  step_loop-IsSound _ _ r q c w h = absurd cc

  ends-Watched :
      (l : Loop) (r : Reader E) → (is_returned l ≡ true) ⊎ (is_some r.errors ≡ true) → Watched l r
  ends-Watched testing r (inl h) = absurd cc
  ends-Watched testing r (inr h) = inr h
  ends-Watched selecting r (inl h) = absurd cc
  ends-Watched selecting r (inr h) = inr h
  ends-Watched _ r h = tt

  step_reader-IsSound :
      (b : Bool) (s : Step) (r q : Reader E)
      → IsSound r
      → step_reader decode to_log b s r ≡ some q
      → IsSound q
  unfolding step_reader
  step_reader-IsSound true (reads sample) r q i h =
      subst (λ p. IsSound p) (some_eq h) (offer-IsSound (decode sample) r i)
  step_reader-IsSound true closes r q i h = elim (Bool-cases r.closed) [
    | inl on ↦
        let p = record r { reading = false; closed = true } in
        subst (λ p. IsSound p) (some_eq (rw on at h))
          (record {
            closed = sym on ∙ i.closed;
            watched = ends-Watched r.loop p (inl (sym i.closed ∙ on));
          })
    | inr off ↦ cc (rw off at h)
  ]
  step_reader-IsSound true (fails e) r q i h =
      let p = record r { reading = false; errors = some (codes "reading from ringbuf: " ++ e) } in
      subst (λ p. IsSound p) (some_eq h)
        (record { closed = i.closed; watched = ends-Watched r.loop p (inr refl) })
  step_reader-IsSound _ _ r q i h = absurd cc

  step_any-IsSound :
      (s : Step) (r q : Reader E) → IsSound r → step_any decode to_log s r ≡ some q → IsSound q
  unfolding step_any
  step_any-IsSound cancels r q i h =
      subst (λ p. IsSound p) (some_eq h)
        (record { closed = i.closed; watched = Watched-eq r.loop r _ refl refl i.watched })
  step_any-IsSound stops r q i h =
      subst (λ p. IsSound p) (some_eq h)
        (record { closed = i.closed; watched = Watched-eq r.loop r _ refl refl i.watched })
  step_any-IsSound (reads sample) r q i h = step_reader-IsSound r.reading (reads sample) r q i h
  step_any-IsSound closes r q i h = step_reader-IsSound r.reading closes r q i h
  step_any-IsSound (fails e) r q i h = step_reader-IsSound r.reading (fails e) r q i h
  step_any-IsSound s r q i h = step_loop-IsSound r.loop s r q i.closed i.watched h

  step_unless-IsSound :
      (l : Loop) (s : Step) (r q : Reader E)
      → IsSound r
      → step_unless decode to_log l s r ≡ some q
      → IsSound q
  unfolding step_unless
  step_unless-IsSound panicked s r q i h = absurd cc
  step_unless-IsSound _ s r q i h = step_any-IsSound s r q i h

  run_keeps-IsSound :
      (ss : List Step) (r q : Reader E) → IsSound r → run decode to_log ss r ≡ some q → IsSound q
  unfolding run step
  run_keeps-IsSound [] r q i h = subst (λ p. IsSound p) (some_eq h) i
  run_keeps-IsSound (s ∷ ss) r q i h = elim (Option-cases (step decode to_log s r)) [
    | inl e ↦ cc (rw (e, run) at h)
    | inr (m, e) ↦
        run_keeps-IsSound ss m q (step_unless-IsSound r.loop s r m i e) (rw (e, run) at h)
  ]

  -- In every state that the two goroutines can reach: the ring buffer's reader has been closed just
  -- if `Run` has returned, and until then the reading goroutine is there or has left its error for
  -- the loop to return.
  pub run-IsSound :
      (ss : List Step) {r : Reader E} → run decode to_log ss started ≡ some r → IsSound r
  run-IsSound ss {r} h =
      run_keeps-IsSound ss started r (record { closed = refl; watched = inl refl }) h
