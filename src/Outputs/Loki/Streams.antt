-- ===== src/Outputs/Loki/Streams.antt =====
-- `insertLog` on labels where `mapsEqual` is equality.
use arbutus.Base.{
  ◌≡◌, refl, sym, ◌∙◌, inl, inr, Bool, true, false, List, [], ◌∷◌, ◌++◌, append-nil, if◌then◌else◌,
  Bool-cases, bytes_eq, IsMap, All,
}
use arbutus.Outputs.Loki.Labels.{HasValues, maps_equal-SameMap}
use arbutus.Outputs.Loki.{Labels, LokiLog, Stream, maps_equal, insert_log}

-- Labels on which `mapsEqual` is equality.
abbrev pub IsGood : Labels → Type 0
IsGood a = IsMap a × HasValues a

maps_equal_refl : (a : Labels) → IsGood a → maps_equal a a ≡ true
maps_equal_refl a g = (maps_equal-SameMap a a g.0 g.0 g.1).1 (λ k. refl)

maps_equal_cong :
    (a b c : Labels)
    → IsGood a
    → IsGood b
    → IsGood c
    → maps_equal a b ≡ true
    → maps_equal a c ≡ maps_equal b c
maps_equal_cong a b c ga gb gc h =
    let ab = (maps_equal-SameMap a b ga.0 gb.0 ga.1).0 h in
    let ac = maps_equal-SameMap a c ga.0 gc.0 ga.1 in
    let bc = maps_equal-SameMap b c gb.0 gc.0 gb.1 in
    elim (Bool-cases (maps_equal b c)) [
      | inl q ↦ ac.1 (λ k. ab k ∙ bc.0 q k) ∙ sym q
      | inr q ↦ elim (Bool-cases (maps_equal a c)) [
        | inl r ↦ absurd (cc (q, bc.1 (λ k. sym (ab k) ∙ ac.0 r k)))
        | inr r ↦ r ∙ sym q
      ]
    ]

maps_equal_join :
    (a b c : Labels)
    → IsGood a
    → IsGood b
    → IsGood c
    → maps_equal a c ≡ true
    → maps_equal b c ≡ true
    → maps_equal a b ≡ true
maps_equal_join a b c ga gb gc h k =
    let ac = (maps_equal-SameMap a c ga.0 gc.0 ga.1).0 h in
    let bc = (maps_equal-SameMap b c gb.0 gc.0 gb.1).0 k in
    (maps_equal-SameMap a b ga.0 gb.0 ga.1).1 (λ x. ac x ∙ sym (bc x))

not_equal_of : (b : Bool) → (b ≡ true → ⊥) → b ≡ false
not_equal_of true h = absurd (h refl)
not_equal_of false h = refl

-- The lines of the first stream with these labels.
abbrev pub values_at : Labels → List Stream → List LokiLog
values_at labels [] = []
values_at labels (s ∷ streams) =
    if maps_equal s.stream labels then s.values else values_at labels streams

abbrev pub AllGood : List Stream → Type 0
AllGood = All (λ s. IsGood s.stream)

abbrev pub one_if : Bool → LokiLog → List LokiLog
one_if b entry = if b then entry ∷ [] else []

pub insert_log-AllGood :
    (labels : Labels) (entry : LokiLog) (streams : List Stream)
    → IsGood labels
    → AllGood streams
    → AllGood (insert_log labels entry streams)
unfolding insert_log
insert_log-AllGood labels entry [] g gs = (g, tt)
insert_log-AllGood labels entry (s ∷ streams) g (h, gs) =
    elim (Bool-cases (maps_equal s.stream labels)) [
      | inl q ↦ rw q (h, gs)
      | inr q ↦ rw q (h, insert_log-AllGood labels entry streams g gs)
    ]

pub values_at-insert_log :
    (at labels : Labels) (entry : LokiLog) (streams : List Stream)
    → IsGood at
    → IsGood labels
    → AllGood streams
    → values_at at (insert_log labels entry streams)
      ≡ values_at at streams ++ one_if (maps_equal labels at) entry
unfolding insert_log
values_at-insert_log at labels entry [] ga gl gs = refl
values_at-insert_log at labels entry (s ∷ streams) ga gl (h, gs) =
    elim (Bool-cases (maps_equal s.stream labels)) [
      | inl q ↦
          rw (q, maps_equal_cong s.stream labels at h gl ga q)
            (elim (Bool-cases (maps_equal labels at)) [
              | inl r ↦ rw r refl
              | inr r ↦ rw r (sym (append-nil (values_at at streams)))
            ])
      | inr q ↦ rw q (elim (Bool-cases (maps_equal s.stream at)) [
        | inl r ↦
            let apart =
              not_equal_of (maps_equal labels at)
                λ t. cc (q, maps_equal_join s.stream labels at h gl ga r t) in
            rw (r, apart) (sym (append-nil s.values))
        | inr r ↦ rw r (values_at-insert_log at labels entry streams ga gl gs)
      ])
    ]

-- No two streams have labels that `mapsEqual` takes for the same.
abbrev pub IsDistinct : List Stream → Type 0
IsDistinct [] = Unit
IsDistinct (s ∷ streams) =
    All (λ t. maps_equal s.stream t.stream ≡ false) streams × IsDistinct streams

insert_log-apart :
    (a labels : Labels) (entry : LokiLog) (streams : List Stream)
    → maps_equal a labels ≡ false
    → All (λ t. maps_equal a t.stream ≡ false) streams
    → All (λ t. maps_equal a t.stream ≡ false) (insert_log labels entry streams)
unfolding insert_log
insert_log-apart a labels entry [] h hs = (h, tt)
insert_log-apart a labels entry (s ∷ streams) h (i, hs) =
    elim (Bool-cases (maps_equal s.stream labels)) [
      | inl q ↦ rw q (i, hs)
      | inr q ↦ rw q (i, insert_log-apart a labels entry streams h hs)
    ]

pub insert_log-IsDistinct :
    (labels : Labels) (entry : LokiLog) (streams : List Stream)
    → IsDistinct streams
    → IsDistinct (insert_log labels entry streams)
unfolding insert_log
insert_log-IsDistinct labels entry [] d = (tt, tt)
insert_log-IsDistinct labels entry (s ∷ streams) (h, d) =
    elim (Bool-cases (maps_equal s.stream labels)) [
      | inl q ↦ rw q (h, d)
      | inr q ↦ rw q (
        insert_log-apart s.stream labels entry streams q h,
        insert_log-IsDistinct labels entry streams d,
      )
    ]
