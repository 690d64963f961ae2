-- ===== src/Inputs/Reader/Traced.antt =====
-- What reaches the accumulator, against the calls in which the eBPF program of the plugin ran. The
-- program submits an event in some of its calls; `memory` is the event as bytes of the ring buffer,
-- which delivers the records in the order in which they were submitted.
use mathlib.Core.List.{Sublistᴰ}
use mathlib.Core.List.Sublistᴰ as Sub
use mathlib.Core.Path.{subst}
use arbutus.Base.{
  suc, ◌≤◌, ◌≡◌, refl, sym, ap, ◌∙◌, inl, inr, List, [], ◌∷◌, ◌++◌, append_assoc, append-nil, arith,
  map, Option, none, some, length, length-append, Bytes, All, Option-cases,
}
use arbutus.Inputs.Reader.Order.{run-ordered, run-kept}
use arbutus.Inputs.Reader.Passes.{one, decoded, Taken, events_of, logs_of}
use arbutus.Inputs.Reader.{Reader, Step, reads, started, run, channel_size}
use arbutus.Models.{Log, Time}

-- The records that the reading goroutine has got.
abbrev pub samples : List Step → List Bytes
samples [] = []
samples (reads sample ∷ ss) = sample ∷ samples ss
samples (s ∷ ss) = samples ss

pub prefix-Sublist :
    {A : Type 0} {xs ys : List A} (zs : List A) → Sublistᴰ xs ys → Sublistᴰ xs (ys ++ zs)
prefix-Sublist {A} {xs} {ys} zs s =
    subst (λ l. Sublistᴰ l (ys ++ zs)) (append-nil xs) (Sub.append s (Sub.nil-sublist zs))

pub part-Sublist : {A : Type 0} (xs ys : List A) → Sublistᴰ xs (xs ++ ys)
part-Sublist xs ys = prefix-Sublist ys (Sub.refl xs)

pub map-Sublist :
    {A B : Type 0} (f : A → B) {xs ys : List A} → Sublistᴰ xs ys → Sublistᴰ (map f xs) (map f ys)
map-Sublist f Sub.slnil = Sub.slnil
map-Sublist f (Sub.cons s) = Sub.cons (map-Sublist f s)
map-Sublist f (Sub.cons-cons e s) = Sub.cons-cons (ap f e) (map-Sublist f s)

pub All-Sublist :
    {A : Type 0} (P : A → Type 0) {xs ys : List A} → Sublistᴰ xs ys → All P ys → All P xs
All-Sublist P Sub.slnil h = tt
All-Sublist P (Sub.cons s) h = All-Sublist P s h.1
All-Sublist P (Sub.cons-cons e s) h = (subst P (sym e) h.0, All-Sublist P s h.1)

pub All-prefix : {A : Type 0} (P : A → Type 0) (xs ys : List A) → All P (xs ++ ys) → All P xs
All-prefix P [] ys h = tt
All-prefix P (x ∷ xs) ys h = (h.0, All-prefix P xs ys h.1)

abbrev pub put : {E : Type 0} → Option E → List E → List E
put none es = es
put (some e) es = e ∷ es

module _ {C E : Type 0} (program : C → Option E) where
  -- The events that the program submits in these calls.
  abbrev pub submitted : List C → List E
  submitted [] = []
  submitted (c ∷ cs) = put (program c) (submitted cs)

  pub All-submitted :
      (Documented : C → Type 0) (P : E → Type 0)
      → ((c : C) (e : E) → Documented c → program c ≡ some e → P e)
      → (cs : List C) → All Documented cs
      → All P (submitted cs)
  All-submitted Documented P good [] h = tt
  All-submitted Documented P good (c ∷ cs) h = elim (Option-cases (program c)) [
    | inl q ↦
        subst (λ o. All P (put o (submitted cs))) (sym q) (All-submitted Documented P good cs h.1)
    | inr (e, q) ↦
        subst (λ o. All P (put o (submitted cs))) (sym q)
          (good c e h.0 q, All-submitted Documented P good cs h.1)
  ]

module _ {E : Type 0} (decode : Bytes → Option E) (to_log : Time → E → Option Log)
    (memory : E → Bytes) where
  decode_all : List Bytes → List E
  decode_all [] = []
  decode_all (x ∷ xs) = one decode to_log (decode x) ++ decode_all xs

  decode_all-append : (xs ys : List Bytes) → decode_all (xs ++ ys) ≡ decode_all xs ++ decode_all ys
  unfolding decode_all
  decode_all-append [] ys = refl
  decode_all-append (x ∷ xs) ys =
      rw (decode_all-append xs ys)
        (sym (append_assoc (one decode to_log (decode x)) (decode_all xs) (decode_all ys)))

  decode_all-samples : (ss : List Step) → decode_all (samples ss) ≡ decoded decode to_log ss
  unfolding decode_all
  decode_all-samples [] = refl
  decode_all-samples (reads sample ∷ ss) =
      ap (λ es. one decode to_log (decode sample) ++ es) (decode_all-samples ss)
  decode_all-samples (_ ∷ ss) = decode_all-samples ss

  length-map : (es : List E) → length (map memory es) ≡ length es
  length-map [] = refl
  length-map (e ∷ es) = ap suc (length-map es)

  -- The event comes back out of its memory.
  abbrev pub Returns : E → Type 0
  Returns e = decode (memory e) ≡ some e

  decode_all-memory : (es : List E) → All Returns es → decode_all (map memory es) ≡ es
  unfolding decode_all
  decode_all-memory [] h = refl
  decode_all-memory (e ∷ es) h = rw (h.0) (ap (λ xs. e ∷ xs) (decode_all-memory es h.1))

  decoded-unread :
      (es : List E) (ss : List Step) (unread : List Bytes)
      → All Returns es
      → samples ss ++ unread ≡ map memory es
      → decoded decode to_log ss ++ decode_all unread ≡ es
  decoded-unread es ss unread h q =
      ap (λ xs. xs ++ decode_all unread) (sym (decode_all-samples ss))
      ∙ sym (decode_all-append (samples ss) unread)
      ∙ ap decode_all q
      ∙ decode_all-memory es h

  length-decode_all : (xs : List Bytes) → length (decode_all xs) ≤ length xs
  unfolding decode_all
  length-decode_all [] = omega arith
  length-decode_all (x ∷ xs) = elim (Option-cases (decode x)) [
    | inl q ↦ rw q (omega (arith, length-decode_all xs))
    | inr (e, q) ↦ rw q (omega (arith, length-decode_all xs))
  ]

  -- Every record gave an event, so every record that is not read would.
  length-unread :
      (es : List E) (ss : List Step) (unread : List Bytes)
      → All Returns es
      → samples ss ++ unread ≡ map memory es
      → length (decode_all unread) ≡ length unread
  length-unread es ss unread h q = omega (
    arith,
    ap length q,
    length-map es,
    ap length (decoded-unread es ss unread h q),
    ap length (decode_all-samples ss),
    length-append (samples ss) unread,
    length-append (decoded decode to_log ss) (decode_all unread),
    length-decode_all (samples ss),
    length-decode_all unread,
  )

  -- If each event that is submitted comes back out of its memory, and the records read are the first
  -- of those submitted, then in every run what reached the accumulator are the logs of events that the
  -- loop has taken, each at a time; these, then the events in the channel, are submitted events, in
  -- their order and none twice; and as long as no more than 10000 are submitted, these and then as many
  -- as there are records still unread are all the submitted events, in order.
  pub run-traced :
      (es : List E) (ss : List Step) (unread : List Bytes) {r : Reader E}
      → All Returns es
      → samples ss ++ unread ≡ map memory es
      → run decode to_log ss started ≡ some r
      → ((taken : Taken decode to_log) × (r.logs ≡ logs_of decode to_log taken)
          × Sublistᴰ (events_of decode to_log taken ++ r.events) es)
        × (length es ≤ channel_size
            → (taken : Taken decode to_log) × (later : List E) × (r.logs
                ≡ logs_of decode to_log taken)
              × ((events_of decode to_log taken ++ r.events) ++ later ≡ es)
              × (length later ≡ length unread))
  run-traced es ss unread {r} h q e =
      let all = decoded-unread es ss unread h q in
      let (taken, logged, ordered, _) = run-ordered decode to_log ss {r = r} e in
      (
        (
          taken,
          logged,
          subst (λ xs. Sublistᴰ (events_of decode to_log taken ++ r.events) xs) all
              (prefix-Sublist (decode_all unread) ordered),
        ),
        (λ few.
            let (taken, logged, kept) = run-kept decode to_log ss {r = r} e (
              omega (
                arith,
                few,
                ap length all,
                length-append (decoded decode to_log ss) (decode_all unread),
              )) in
            (
              taken,
              decode_all unread,
              logged,
              ap (λ xs. xs ++ decode_all unread) kept ∙ all,
              length-unread es ss unread h q,
            )),
      )
