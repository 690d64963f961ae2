-- ===== src/Inputs/Reader/Passes.antt =====
-- What one step does to the events between the ring buffer and the accumulator.
use mathlib.Core.Path.{subst}
use mathlib.Core.List.{Sublistᴰ}
use mathlib.Core.List.Sublistᴰ as Sub
use arbutus.Base.{
  ◌+◌, ◌≤◌, ◌≡◌, refl, sym, ap, ◌∙◌, inl, inr, Bool, true, List, [], ◌∷◌, ◌++◌, append_assoc,
  append-nil, arith, Option, none, some, length, length-append, ltb, Bytes, Bool-cases, some_eq,
}
use arbutus.Models.{Log, Time}
use arbutus.Inputs.Reader.{
  Reader, Step, Loop, testing, selecting, panicked, reads, closes, fails, cancels, stops, tests,
  on_done, on_error, on_event, channel_size, offer, step_reader, step_loop, take_event, add_log,
  take_error, test_running, return_with, step_any, step_unless, step,
}

module _ {E : Type 0} (decode : Bytes → Option E) (to_log : Time → E → Option Log) where
  abbrev pub one : {A : Type 0} → Option A → List A
  one none = []
  one (some a) = a ∷ []

  -- The events among the records that were read.
  abbrev pub decoded : List Step → List E
  decoded [] = []
  decoded (reads sample ∷ ss) = one (decode sample) ++ decoded ss
  decoded (s ∷ ss) = decoded ss

  -- Events that the loop has taken, each with the time at which it did.
  abbrev pub Taken : Type 0
  Taken = List (Time × E)

  abbrev pub events_of : Taken → List E
  events_of [] = []
  events_of ((now, e) ∷ taken) = e ∷ events_of taken

  -- The logs that the loop makes of them.
  abbrev pub logs_of : Taken → List Log
  logs_of [] = []
  logs_of ((now, e) ∷ taken) = one (to_log now e) ++ logs_of taken

  pub logs_of-append : (xs ys : Taken) → logs_of (xs ++ ys) ≡ logs_of xs ++ logs_of ys
  logs_of-append [] ys = refl
  logs_of-append ((now, e) ∷ xs) ys =
      rw (logs_of-append xs ys) (sym (append_assoc (one (to_log now e)) (logs_of xs) (logs_of ys)))

  pub events_of-append : (xs ys : Taken) → events_of (xs ++ ys) ≡ events_of xs ++ events_of ys
  events_of-append [] ys = refl
  events_of-append ((now, e) ∷ xs) ys = ap (λ es. e ∷ es) (events_of-append xs ys)

  -- A step offers these events to the channel and takes some out at its front. It drops nothing if the
  -- channel has room.
  pub record Passes (es : List E) (r q : Reader E) : Type 0 where
    pub taken : Taken
    pub logged : q.logs ≡ r.logs ++ logs_of taken
    pub ordered : Sublistᴰ (events_of taken ++ q.events) (r.events ++ es)
    pub bounded : length r.events ≤ channel_size → length q.events ≤ channel_size
    pub room : length q.events ≤ length r.events + length es
    pub kept :
        length r.events + length es ≤ channel_size → events_of taken ++ q.events ≡ r.events ++ es

  pub Passes-of_eq : (r q : Reader E) → q.logs ≡ r.logs → q.events ≡ r.events → Passes [] r q
  Passes-of_eq r q l e =
      let same = e ∙ sym (append-nil r.events) in
      record {
        taken = [];
        logged = l ∙ sym (append-nil r.logs);
        ordered = subst (λ c. Sublistᴰ q.events c) same (Sub.refl q.events);
        bounded = λ b. omega (arith, ap length e);
        room = omega (arith, ap length e);
        kept = λ _. same;
      }

  sublist-append : (xs ys : List E) → Sublistᴰ xs (xs ++ ys)
  sublist-append [] ys = Sub.nil-sublist ys
  sublist-append (x ∷ xs) ys = Sublistᴰ.cons-cons refl (sublist-append xs ys)

  offer-Passes :
      (event : Option E) (r : Reader E) → Passes (one event) r (offer decode to_log event r)
  unfolding offer
  offer-Passes none r = Passes-of_eq r r refl refl
  offer-Passes (some e) r = elim (Bool-cases (ltb (length r.events) channel_size)) [
    | inl fits ↦ rw fits (record {
      taken = [];
      logged = sym (append-nil r.logs);
      ordered = Sub.refl (r.events ++ e ∷ []);
      bounded = λ b. ground (arith, length-append r.events (e ∷ []));
      room = omega (arith, length-append r.events (e ∷ []));
      kept = λ _. refl;
    })
    | inr full ↦ rw full (record {
      taken = [];
      logged = sym (append-nil r.logs);
      ordered = sublist-append r.events (e ∷ []);
      bounded = λ b. b;
      room = omega arith;
      kept = λ h. absurd (ground arith);
    })
  ]

  add_log-logs :
      (o : Option Log) (r : Reader E) → (add_log decode to_log o r).logs ≡ r.logs ++ one o
  unfolding add_log
  add_log-logs none r = sym (append-nil r.logs)
  add_log-logs (some l) r = refl

  add_log-events : (o : Option Log) (r : Reader E) → (add_log decode to_log o r).events ≡ r.events
  unfolding add_log
  add_log-events none r = refl
  add_log-events (some l) r = refl

  take_event-Passes :
      (now : Time) (xs : List E) (r q : Reader E)
      → r.events ≡ xs
      → take_event decode to_log now xs r ≡ some q
      → Passes [] r q
  unfolding take_event
  take_event-Passes now [] r q e h = absurd cc
  take_event-Passes now (x ∷ rest) r q e h =
      let p = record r { events = rest } in
      let left : q.events ≡ rest =
        ap (λ s. s.events) (sym (some_eq h)) ∙ add_log-events (to_log now x) p in
      let all : x ∷ q.events ≡ r.events ++ [] =
        ap (λ es. x ∷ es) left ∙ sym e ∙ sym (append-nil r.events) in
      record {
        taken = (now, x) ∷ [];
        logged =
            ap (λ s. s.logs) (sym (some_eq h))
            ∙ add_log-logs (to_log now x) p
            ∙ ap (λ ls. r.logs ++ ls) (sym (append-nil (one (to_log now x))));
        ordered = subst (λ c. Sublistᴰ (x ∷ q.events) c) all (Sub.refl (x ∷ q.events));
        bounded = λ b. omega (arith, ap length left, ap length e);
        room = omega (arith, ap length left, ap length e);
        kept = λ _. all;
      }

  step_loop-Passes :
      (l : Loop) (s : Step) (r q : Reader E)
      → step_loop decode to_log l s r ≡ some q
      → Passes [] r q
  unfolding step_loop take_error test_running return_with
  step_loop-Passes testing tests r q h = Passes-of_eq r q (ground arith) (ground arith)
  step_loop-Passes selecting on_done r q h = Passes-of_eq r q (ground arith) (ground arith)
  step_loop-Passes selecting on_error r q h = Passes-of_eq r q (ground arith) (ground arith)
  step_loop-Passes selecting (on_event now) r q h = take_event-Passes now r.events r q refl h
  step_loop-Passes _ _ r q h = absurd cc

  step_reader-Passes :
      (reading : Bool) (s : Step) (r q : Reader E)
      → step_reader decode to_log reading s r ≡ some q
      → Passes (decoded (s ∷ [])) r q
  unfolding step_reader
  step_reader-Passes true (reads sample) r q h =
      rw (append-nil (one (decode sample)))
        (subst (Passes (one (decode sample)) r) (some_eq h) (offer-Passes (decode sample) r))
  step_reader-Passes true closes r q h = Passes-of_eq r q (ground arith) (ground arith)
  step_reader-Passes true (fails e) r q h = Passes-of_eq r q (ground arith) (ground arith)
  step_reader-Passes _ _ r q h = absurd cc

  step_any-Passes :
      (s : Step) (r q : Reader E)
      → step_any decode to_log s r ≡ some q
      → Passes (decoded (s ∷ [])) r q
  unfolding step_any
  step_any-Passes cancels r q h = Passes-of_eq r q (ground arith) (ground arith)
  step_any-Passes stops r q h = Passes-of_eq r q (ground arith) (ground arith)
  step_any-Passes (reads sample) r q h = step_reader-Passes r.reading (reads sample) r q h
  step_any-Passes closes r q h = step_reader-Passes r.reading closes r q h
  step_any-Passes (fails e) r q h = step_reader-Passes r.reading (fails e) r q h
  step_any-Passes s r q h = step_loop-Passes r.loop s r q h

  step_unless-Passes :
      (l : Loop) (s : Step) (r q : Reader E)
      → step_unless decode to_log l s r ≡ some q
      → Passes (decoded (s ∷ [])) r q
  unfolding step_unless
  step_unless-Passes panicked s r q h = absurd cc
  step_unless-Passes _ s r q h = step_any-Passes s r q h

  pub step-Passes :
      (s : Step) (r q : Reader E) → step decode to_log s r ≡ some q → Passes (decoded (s ∷ [])) r q
  unfolding step
  step-Passes s r q h = step_unless-Passes r.loop s r q h
