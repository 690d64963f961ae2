-- ===== src/Pipeline/Delivery.antt =====
-- What `Flush` writes, seen through outputs that record each call of `Write` and answer it as they
-- like, by all that they have been given before.
use arbutus.Base.{
  ◌≡◌, refl, sym, ap, ◌∙◌, ◌≢◌, ◌⊎◌, inl, inr, Bool, List, [], ◌∷◌, ◌++◌, append_assoc, append-nil,
  arith, filter, GoMap, Eq, if◌then◌else◌, All,
}
use arbutus.Models.{Telemetry, TelemetryType}
use arbutus.Models.Plugin.{Output, Outcome, returned, failed, panicked}
use arbutus.Pipeline.{
  Pipeline, running, supports, write_to, deliver, write_filtered, take_all, flush_taken, flush,
}

-- A call of `Write`: the output, and the batch that it is given.
abbrev pub Calls : Type 0 → Type 0
Calls O = List (O × List Telemetry)

module _ {O : Type 0} (types : O → GoMap TelemetryType Bool)
    (reply : Calls O → O → List Telemetry → Outcome) where
  -- Outputs that keep a journal of their calls.
  abbrev pub recorder : Output O (Calls O)
  recorder = record {
    supported_types = types;
    write = λ o batch calls. (calls ++ (o, batch) ∷ [], reply calls o batch);
  }

  -- The part of a batch that an output supports.
  abbrev pub share : O → List Telemetry → List Telemetry
  share o batch = filter (supports recorder o) batch

  route : O → List Telemetry → Calls O
  route o [] = []
  route o (t ∷ ts) = (o, t ∷ ts) ∷ []

  -- The calls that a batch should lead to: one for each output that supports some of it, with all
  -- that it supports.
  pub routes : List O → List Telemetry → Calls O
  unfolding route
  routes [] batch = []
  routes (o ∷ os) batch = route o (share o batch) ++ routes os batch

  -- The output never panics, whatever all of them have been given before.
  abbrev pub IsCalm : O → Type 0
  IsCalm o = (calls : Calls O) (batch : List Telemetry) → reply calls o batch ≢ panicked

  abbrev pub Calm : List O → Type 0
  Calm = All IsCalm

  write_filtered-route :
      (o : O) (part : List Telemetry) (calls : Calls O)
      → IsCalm o
      → ((write_filtered recorder o part calls).0 ≡ calls ++ route o part)
        × ((write_filtered recorder o part calls).1 ≢ panicked)
  unfolding write_filtered route
  write_filtered-route o [] calls calm = (sym (append-nil calls), λ e. cc)
  write_filtered-route o (t ∷ ts) calls calm = (refl, calm calls (t ∷ ts))

  write_to-route :
      (o : O) (batch : List Telemetry) (calls : Calls O)
      → IsCalm o
      → ((write_to recorder o batch calls).0 ≡ calls ++ route o (share o batch))
        × ((write_to recorder o batch calls).1 ≢ panicked)
  unfolding write_to
  write_to-route o batch calls calm = write_filtered-route o (share o batch) calls calm

  -- One round of the loop over the outputs.
  pub routes-cons :
      (o : O) (os : List O) (batch : List Telemetry) (calls : Calls O)
      → IsCalm o
      → (write_to recorder o batch calls).0 ++ routes os batch ≡ calls ++ routes (o ∷ os) batch
  unfolding routes
  routes-cons o os batch calls calm =
      rw (write_to-route o batch calls calm).0 (append_assoc calls _ _)

  -- One round of the loop over the outputs cannot panic.
  pub write_to_calm :
      (o : O) (batch : List Telemetry) (calls : Calls O)
      → IsCalm o
      → (write_to recorder o batch calls).1 ≢ panicked
  write_to_calm o batch calls calm = (write_to-route o batch calls calm).1

  deliver-cons :
      (o : O) (os : List O) (batch : List Telemetry) (calls : Calls O)
      → IsCalm o
      → deliver recorder (o ∷ os) batch calls
        ≡ deliver recorder os batch (write_to recorder o batch calls).0
  unfolding deliver
  deliver-cons o os batch calls calm = go (write_to recorder o batch calls).1 refl
    where
      go :
          (outcome : Outcome)
          → (write_to recorder o batch calls).1 ≡ outcome
          → deliver recorder (o ∷ os) batch calls
            ≡ deliver recorder os batch (write_to recorder o batch calls).0
      go returned e = rw (e, deliver)
      go (failed m) e = rw (e, deliver)
      go panicked e = absurd ((write_to-route o batch calls calm).1 e)

  deliver-routes :
      (os : List O) (batch : List Telemetry) (calls : Calls O)
      → Calm os
      → deliver recorder os batch calls ≡ (calls ++ routes os batch, running)
  unfolding deliver routes
  deliver-routes [] batch calls calm = ap (λ c. (c, running)) (sym (append-nil calls))
  deliver-routes (o ∷ os) batch calls calm =
      deliver-cons o os batch calls calm.0
      ∙ deliver-routes os batch _ calm.1
      ∙ ap (λ c. (c, running)) (routes-cons o os batch calls calm.0)

  pub routes_none : (batch : List Telemetry) → routes [] batch ≡ []
  unfolding routes
  routes_none batch = refl

  pub routes-nil : (os : List O) → routes os [] ≡ []
  unfolding routes route
  routes-nil [] = refl
  routes-nil (o ∷ os) = routes-nil os

  flush_taken-routes :
      (p : Pipeline O) (buffer : List Telemetry) (calls : Calls O)
      → p.buffer ≡ buffer
      → Calm p.outputs
      → flush_taken recorder (take_all buffer p) calls
        ≡ (record p { buffer = [] }, calls ++ routes p.outputs buffer, running)
  unfolding flush_taken take_all
  flush_taken-routes p [] calls e calm =
      rw (routes-nil p.outputs, append-nil calls)
        (ap (λ b. (record p { buffer = b }, calls, running)) e)
  flush_taken-routes p (t ∷ ts) calls e calm =
      rw (deliver-routes p.outputs (t ∷ ts) calls calm) refl

  -- If none of the pipeline's outputs panics, `Flush` empties the buffer and writes to every output, in the outputs'
  -- order, one batch of all buffered items that it supports, in their order, and nothing to an
  -- output that supports none of them. An error of one output does not keep the batch from the rest.
  pub flush-routes :
      (p : Pipeline O) (calls : Calls O)
      → Calm p.outputs
      → flush recorder p calls
        ≡ (record p { buffer = [] }, calls ++ routes p.outputs p.buffer, running)
  unfolding flush
  flush-routes p calls calm = flush_taken-routes p p.buffer calls refl calm

-- All that an output was given, in order.
module _ {O : Type 0} ⦃e : Eq O⦄ where
  abbrev pub received : O → Calls O → List Telemetry
  received o [] = []
  received o ((p, batch) ∷ calls) =
      if e.beq p o then batch ++ received o calls else received o calls

  pub received-append :
      (o : O) (xs ys : Calls O) → received o (xs ++ ys) ≡ received o xs ++ received o ys
  received-append o [] ys = refl
  received-append o ((p, batch) ∷ xs) ys =
      ground (arith, received-append o xs ys, append_assoc batch (received o xs) (received o ys))

  -- The output is not among those listed.
  abbrev pub Absent : O → List O → Type 0
  Absent o = All (λ p. p ≢ o)

  -- It is there once.
  abbrev pub Once : O → List O → Type 0
  Once o [] = ⊥
  Once o (p ∷ ps) = ((p ≡ o) × Absent o ps) ⊎ ((p ≢ o) × Once o ps)

  module _ (types : O → GoMap TelemetryType Bool)
      (reply : Calls O → O → List Telemetry → Outcome) where
    received-route :
        (o p : O) (part : List Telemetry)
        → received o (route types reply p part) ≡ (if e.beq p o then part else [])
    unfolding route
    received-route o p [] = ground arith
    received-route o p (t ∷ ts) = ground (arith, append-nil (t ∷ ts))

    received-routes-Absent :
        (o : O) (os : List O) (batch : List Telemetry)
        → Absent o os
        → received o (routes types reply os batch) ≡ []
    unfolding routes
    received-routes-Absent o [] batch h = refl
    received-routes-Absent o (p ∷ ps) batch h = ground (
      arith,
      received-append o (route types reply p (share types reply p batch))
          (routes types reply ps batch),
      received-route o p (share types reply p batch),
      e.beq_iff p o,
      received-routes-Absent o ps batch h.1,
    )

    -- An output that is configured once gets its share of a batch exactly once.
    pub received-routes :
        (o : O) (os : List O) (batch : List Telemetry)
        → Once o os
        → received o (routes types reply os batch) ≡ share types reply o batch
    unfolding routes
    received-routes o [] batch h = absurd h
    received-routes o (p ∷ ps) batch (inl (same, h)) = rw (
      received-append o (route types reply p (share types reply p batch))
          (routes types reply ps batch),
      received-route o p (share types reply p batch),
      (e.beq_iff p o).1 same,
      received-routes-Absent o ps batch h,
      append-nil (share types reply p batch),
      same,
    )
    received-routes o (p ∷ ps) batch (inr (other, h)) = ground (
      arith,
      received-append o (route types reply p (share types reply p batch))
          (routes types reply ps batch),
      received-route o p (share types reply p batch),
      e.beq_iff p o,
      received-routes o ps batch h,
    )
