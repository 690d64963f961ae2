-- ===== src/Inputs/Reader/Order.antt =====
-- What reaches the accumulator, against what the ring buffer delivered.
use mathlib.Core.List.{Sublistᴰ}
use mathlib.Core.List.Sublistᴰ as Sub
use mathlib.Core.Path.{subst}
use arbutus.Base.{
  ◌≤◌, ◌≡◌, refl, sym, ap, ◌∙◌, inl, inr, List, [], ◌∷◌, ◌++◌, append_assoc, append-nil, arith,
  Option, some, length, length-append, Bytes, Option-cases, some_eq,
}
use arbutus.Models.{Log, Time}
use arbutus.Inputs.Reader.{Reader, Step, reads, channel_size, started, step, run}
use arbutus.Inputs.Reader.Passes.{
  one, decoded, Taken, events_of, logs_of, logs_of-append, events_of-append, Passes, Passes-of_eq,
  step-Passes,
}

module _ {E : Type 0} (decode : Bytes → Option E) (to_log : Time → E → Option Log) where
  decoded-cons :
      (s : Step) (ss : List Step)
      → decoded decode to_log (s ∷ ss) ≡ decoded decode to_log (s ∷ []) ++ decoded decode to_log ss
  decoded-cons (reads sample) ss = rw (append-nil (one decode to_log (decode sample))) refl
  decoded-cons _ ss = refl

  -- Events taken before and after: the first ones stay in front.
  taken-append :
      (ts us : Taken decode to_log) (es : List E)
      → events_of decode to_log (ts ++ us) ++ es
        ≡ events_of decode to_log ts ++ (events_of decode to_log us ++ es)
  taken-append ts us es =
      rw (events_of-append decode to_log ts us)
        (append_assoc (events_of decode to_log ts) (events_of decode to_log us) es)

  Passes-trans :
      (xs ys : List E) (r q p : Reader E)
      → Passes decode to_log xs r q
      → Passes decode to_log ys q p
      → Passes decode to_log (xs ++ ys) r p
  Passes-trans xs ys r q p f g =
      let before = events_of decode to_log f.taken in
      let all = taken-append f.taken g.taken p.events in
      let middle = sym (append_assoc before q.events ys) in
      let assoc = append_assoc r.events xs ys in
      record {
        taken = f.taken ++ g.taken;
        logged =
            g.logged
            ∙ ap (λ ls. ls ++ logs_of decode to_log g.taken) f.logged
            ∙ append_assoc r.logs (logs_of decode to_log f.taken) (logs_of decode to_log g.taken)
            ∙ ap (λ ls. r.logs ++ ls) (sym (logs_of-append decode to_log f.taken g.taken));
        ordered = rw all (
            Sub.trans
              (subst (λ c. Sublistᴰ (before ++ (events_of decode to_log g.taken ++ p.events)) c)
                middle (Sub.append (Sub.refl before) g.ordered))
              (subst (λ c. Sublistᴰ ((before ++ q.events) ++ ys) c) assoc
                (Sub.append f.ordered (Sub.refl ys))));
        bounded = λ b. g.bounded (f.bounded b);
        room = omega (arith, f.room, g.room, length-append xs ys);
        kept = λ h.
            all
            ∙ ap (λ es. before ++ es) (g.kept (omega (arith, f.room, h, length-append xs ys)))
            ∙ middle
            ∙ ap (λ es. es ++ ys) (f.kept (omega (arith, h, length-append xs ys)))
            ∙ assoc;
      }

  run-Passes :
      (ss : List Step) (r q : Reader E)
      → run decode to_log ss r ≡ some q
      → Passes decode to_log (decoded decode to_log ss) r q
  unfolding run
  run-Passes [] r q h =
      subst (Passes decode to_log [] r) (some_eq h) (Passes-of_eq decode to_log r r refl refl)
  run-Passes (s ∷ ss) r q h = elim (Option-cases (step decode to_log s r)) [
    | inl e ↦ cc (rw (e, run) at h)
    | inr (m, e) ↦ rw (decoded-cons s ss) (
        Passes-trans (decoded decode to_log (s ∷ [])) (decoded decode to_log ss) r m q
          (step-Passes decode to_log s r m e) (run-Passes ss m q (rw (e, run) at h)))
  ]

  -- However the goroutine and the loop interleave, there are events that the loop has taken, each at
  -- some time: what reached the accumulator is the log of each at its time, in order; they and then
  -- the events in the channel are decoded records, in the order of the ring buffer and none twice;
  -- and the channel never holds more than 10000 events.
  pub run-ordered :
      (ss : List Step) {r : Reader E}
      → run decode to_log ss started ≡ some r
      → (taken : Taken decode to_log) × (r.logs ≡ logs_of decode to_log taken)
        × Sublistᴰ (events_of decode to_log taken ++ r.events) (decoded decode to_log ss)
        × (length r.events ≤ channel_size)
  run-ordered ss {r} h =
      let p = run-Passes ss started r h in (p.taken, p.logged, p.ordered, p.bounded (omega arith))

  -- As long as no more than 10000 records have been decoded, nothing is dropped: the events that the
  -- loop has taken, whose logs are what reached the accumulator, and then those in the channel are
  -- all the decoded records, in order.
  pub run-kept :
      (ss : List Step) {r : Reader E}
      → run decode to_log ss started ≡ some r
      → length (decoded decode to_log ss) ≤ channel_size
      → (taken : Taken decode to_log) × (r.logs ≡ logs_of decode to_log taken)
        × (events_of decode to_log taken ++ r.events ≡ decoded decode to_log ss)
  run-kept ss {r} h few =
      let p = run-Passes ss started r h in (p.taken, p.logged, p.kept (omega (arith, few)))
