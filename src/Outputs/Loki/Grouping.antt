-- ===== src/Outputs/Loki/Grouping.antt =====
-- The streams of a batch against the logs that it has.
use arbutus.Base.{
  ◌≡◌, sym, ap, ◌∙◌, inl, inr, List, [], ◌∷◌, ◌++◌, append_assoc, append-nil, if◌then◌else◌,
  Bool-cases, Bytes, bytes_eq, insert, GoMap, IsMap, IsMap-insert, ◌⊎◌, true, false, refl, All,
}
use arbutus.Models.{Telemetry, Log, log, span, metric, Any}
use arbutus.Outputs.Loki.Labels.{HasValues, SameMap, maps_equal-SameMap}
use arbutus.Outputs.Loki.{
  Labels, LokiLog, Stream, maps_equal, insert_log, Text, sanitize_utf8, add_attributes, labels_of,
  entry_of, insert_telemetry, streams_from,
}
use arbutus.Outputs.Loki.Streams.{
  IsGood, AllGood, values_at, one_if, IsDistinct, insert_log-AllGood, values_at-insert_log,
  insert_log-IsDistinct,
}

module _ (text : Text) where
  -- The logs of a batch whose labels are these, as lines, in order.
  abbrev pub lines_at : Labels → List Telemetry → List LokiLog
  lines_at at [] = []
  lines_at at (log l ∷ ts) =
      if maps_equal (labels_of text l) at then entry_of text l ∷ lines_at at ts else lines_at at ts
  lines_at at (t ∷ ts) = lines_at at ts

  -- No log of the batch has a level or an attribute that prints as the empty text.
  abbrev pub LogsHaveValues : List Telemetry → Type 0
  LogsHaveValues [] = Unit
  LogsHaveValues (log l ∷ ts) = HasValues (labels_of text l) × LogsHaveValues ts
  LogsHaveValues (t ∷ ts) = LogsHaveValues ts

  add_attributes-IsMap :
      (attributes : GoMap Bytes Any) (labels : Labels)
      → IsMap labels
      → IsMap (add_attributes text attributes labels)
  unfolding add_attributes
  add_attributes-IsMap [] labels m = m
  add_attributes-IsMap ((k, v) ∷ attributes) labels m =
      add_attributes-IsMap attributes (insert k (sanitize_utf8 text (text.sprint v)) labels)
        (IsMap-insert k (sanitize_utf8 text (text.sprint v)) labels m)

  labels_of-IsMap : (l : Log) → IsMap (labels_of text l)
  unfolding labels_of
  labels_of-IsMap l = add_attributes-IsMap l.attributes _ (tt, tt)

  one_if-lines :
      (at : Labels) (l : Log) (ts : List Telemetry)
      → one_if (maps_equal (labels_of text l) at) (entry_of text l) ++ lines_at at ts
        ≡ lines_at at (log l ∷ ts)
  one_if-lines at l ts = elim (Bool-cases (maps_equal (labels_of text l) at)) [
    | inl q ↦ rw q
    | inr q ↦ rw q
  ]

  streams_from-values :
      (at : Labels) (ts : List Telemetry) (streams : List Stream)
      → IsGood at
      → AllGood streams
      → LogsHaveValues ts
      → values_at at (streams_from text streams ts) ≡ values_at at streams ++ lines_at at ts
  unfolding streams_from insert_telemetry
  streams_from-values at [] streams ga gs h = sym (append-nil (values_at at streams))
  streams_from-values at (log l ∷ ts) streams ga gs (h, hs) =
      let gl : IsGood (labels_of text l) = (labels_of-IsMap l, h) in
      streams_from-values at ts (insert_log (labels_of text l) (entry_of text l) streams) ga
        (insert_log-AllGood (labels_of text l) (entry_of text l) streams gl gs) hs
      ∙ ap (λ v. v ++ lines_at at ts)
          (values_at-insert_log at (labels_of text l) (entry_of text l) streams ga gl gs)
      ∙ append_assoc (values_at at streams)
          (one_if (maps_equal (labels_of text l) at) (entry_of text l)) (lines_at at ts)
      ∙ ap (◌++◌ (values_at at streams)) (one_if-lines at l ts)
  streams_from-values at (span s ∷ ts) streams ga gs h = streams_from-values at ts streams ga gs h
  streams_from-values at (metric m ∷ ts) streams ga gs h = streams_from-values at ts streams ga gs h

  streams_from-IsDistinct :
      (ts : List Telemetry) (streams : List Stream)
      → IsDistinct streams
      → IsDistinct (streams_from text streams ts)
  unfolding streams_from insert_telemetry
  streams_from-IsDistinct [] streams d = d
  streams_from-IsDistinct (log l ∷ ts) streams d =
      streams_from-IsDistinct ts (insert_log (labels_of text l) (entry_of text l) streams)
        (insert_log-IsDistinct (labels_of text l) (entry_of text l) streams d)
  streams_from-IsDistinct (span s ∷ ts) streams d = streams_from-IsDistinct ts streams d
  streams_from-IsDistinct (metric m ∷ ts) streams d = streams_from-IsDistinct ts streams d

  -- The lines of the first stream whose labels are these, as a map; none where there is no such stream.
  abbrev pub Values : Labels → List Stream → List LokiLog → Type 0
  Values at [] values = values ≡ []
  Values at (s ∷ streams) values =
      (SameMap s.stream at × (values ≡ s.values))
      ⊎ ((¬ SameMap s.stream at) × Values at streams values)

  -- The logs of a batch whose labels are these, as a map: their lines, in order.
  abbrev pub Lines : Labels → List Telemetry → List LokiLog → Type 0
  Lines at [] lines = lines ≡ []
  Lines at (log l ∷ ts) lines =
      (SameMap (labels_of text l) at
        × (rest : List LokiLog) × (lines ≡ entry_of text l ∷ rest)
        × Lines at ts rest)
      ⊎ ((¬ SameMap (labels_of text l) at) × Lines at ts lines)
  Lines at (t ∷ ts) lines = Lines at ts lines

  -- No two streams have the same labels.
  abbrev pub AllApart : List Stream → Type 0
  AllApart [] = Unit
  AllApart (s ∷ streams) = All (λ t. ¬ SameMap s.stream t.stream) streams × AllApart streams

  same : (a b : Labels) → IsGood a → IsGood b → maps_equal a b ≡ true → SameMap a b
  same a b ga gb = (maps_equal-SameMap a b ga.0 gb.0 ga.1).0

  apart : (a b : Labels) → IsGood a → IsGood b → maps_equal a b ≡ false → ¬ SameMap a b
  apart a b ga gb q h = cc (q, (maps_equal-SameMap a b ga.0 gb.0 ga.1).1 h)

  values_at-Values :
      (at : Labels) (streams : List Stream)
      → IsGood at
      → AllGood streams
      → Values at streams (values_at at streams)
  values_at-Values at [] ga gs = refl
  values_at-Values at (s ∷ streams) ga (g, gs) = elim (Bool-cases (maps_equal s.stream at)) [
    | inl q ↦ rw q (inl (same s.stream at g ga q, refl))
    | inr q ↦ rw q (inr (apart s.stream at g ga q, values_at-Values at streams ga gs))
  ]

  lines_at-Lines :
      (at : Labels) (ts : List Telemetry)
      → IsGood at
      → LogsHaveValues ts
      → Lines at ts (lines_at at ts)
  lines_at-Lines at [] ga h = refl
  lines_at-Lines at (span s ∷ ts) ga h = lines_at-Lines at ts ga h
  lines_at-Lines at (metric m ∷ ts) ga h = lines_at-Lines at ts ga h
  lines_at-Lines at (log l ∷ ts) ga (h, hs) =
      let gl : IsGood (labels_of text l) = (labels_of-IsMap l, h) in
      elim (Bool-cases (maps_equal (labels_of text l) at)) [
        | inl q ↦ rw q (
            inl (
              same (labels_of text l) at gl ga q,
              lines_at at ts,
              refl,
              lines_at-Lines at ts ga hs,
            ))
        | inr q ↦ rw q (inr (apart (labels_of text l) at gl ga q, lines_at-Lines at ts ga hs))
      ]

  All-apart :
      (a : Labels) (streams : List Stream)
      → IsGood a
      → AllGood streams
      → All (λ t. maps_equal a t.stream ≡ false) streams
      → All (λ t. ¬ SameMap a t.stream) streams
  All-apart a [] ga gs d = tt
  All-apart a (t ∷ streams) ga (g, gs) (d, ds) =
      (apart a t.stream ga g d, All-apart a streams ga gs ds)

  IsDistinct-AllApart :
      (streams : List Stream) → AllGood streams → IsDistinct streams → AllApart streams
  IsDistinct-AllApart [] gs d = tt
  IsDistinct-AllApart (s ∷ streams) (g, gs) (d, ds) =
      (All-apart s.stream streams g gs d, IsDistinct-AllApart streams gs ds)

  streams_from-AllGood :
      (ts : List Telemetry) (streams : List Stream)
      → AllGood streams
      → LogsHaveValues ts
      → AllGood (streams_from text streams ts)
  unfolding streams_from insert_telemetry
  streams_from-AllGood [] streams gs h = gs
  streams_from-AllGood (log l ∷ ts) streams gs (h, hs) =
      streams_from-AllGood ts (insert_log (labels_of text l) (entry_of text l) streams)
        (insert_log-AllGood (labels_of text l) (entry_of text l) streams (labels_of-IsMap l, h) gs)
        hs
  streams_from-AllGood (span s ∷ ts) streams gs h = streams_from-AllGood ts streams gs h
  streams_from-AllGood (metric m ∷ ts) streams gs h = streams_from-AllGood ts streams gs h

  -- If no label value of the batch is empty: for all labels, the stream that has the same value, or none,
  -- at every label has the lines of exactly the logs with the same value, or none, at every label, in
  -- the order of the batch; where there are no such logs, it has no lines or there is no such stream. No
  -- two streams have labels that are the same map.
  pub streams-grouped :
      (at : Labels) (ts : List Telemetry)
      → IsMap at
      → HasValues at
      → LogsHaveValues ts
      → ((lines : List LokiLog) × Values at (streams_from text [] ts) lines × Lines at ts lines)
        × AllApart (streams_from text [] ts)
  streams-grouped at ts m v h =
      let streams = streams_from text [] ts in
      let good = streams_from-AllGood ts [] tt h in
      (
        (
          lines_at at ts,
          rw (streams_from-values at ts [] (m, v) tt h) at
              (values_at-Values at streams (m, v) good),
          lines_at-Lines at ts (m, v) h,
        ),
        IsDistinct-AllApart streams good (streams_from-IsDistinct ts [] tt),
      )
