-- ===== src/Agent/Ledger.antt =====
-- Where an item is on its way from `add` to an output, and that each event only moves it along.
use arbutus.Base.{
  ℕ, ◌≡◌, refl, sym, ap, ◌∙◌, ◌≢◌, inl, inr, Bool, true, false, List, [], ◌∷◌, ◌++◌, append_assoc,
  append-nil, arith, GoMap, Eq, filter-append, Option, none, some, some_eq, zero, suc, Bool-cases,
}
use mathlib.Core.Path.{subst, ap₂}
use arbutus.Models.{Telemetry, TelemetryType}
use arbutus.Models.Plugin.{Outcome, returned, failed, panicked}
use arbutus.Pipeline.{Pipeline, take_buffer, Takes, take_buffer-Takes, supports, write_to, signal}
use arbutus.Pipeline.Delivery.{
  Calls, recorder, share, routes, IsCalm, routes-cons, write_to_calm, routes_none, Once, received,
  received-append, received-routes,
}
use arbutus.Agent.Service.{Serves, Serving}
use arbutus.Agent.{
  Agent, Main, selecting, flushing, writing, exited, Event, adds, sends, ticks, interrupts, on_done,
  on_signal, on_tick, on_flush, takes, writes, returns, locked_add, step, step_any, step_main,
  take_locked, write_one, finish, send, select, ready, alive,
}

-- The items that the events hand to `add`, in order.
abbrev pub added : List Event → List Telemetry
added [] = []
added (adds t ∷ es) = t ∷ added es
added (e ∷ es) = added es

module _ {O : Type 0} ⦃e : Eq O⦄ (types : O → GoMap TelemetryType Bool)
    (reply : Calls O → O → List Telemetry → Outcome) (o : O) where
  -- The calls that the flush at hand still has to make.
  abbrev pub in_flight : Main O → Calls O
  in_flight (writing last batch os) = routes types reply os batch
  in_flight _ = []

  -- What the output has been given or will be given: by calls made, by the flush at hand, and out of
  -- the buffer.
  abbrev pub ledger : Agent O (Calls O) → List Telemetry
  ledger a = received o (a.world ++ in_flight a.main) ++ share types reply o a.pipeline.buffer

  abbrev pub Booked : List Telemetry → Agent O (Calls O) → Agent O (Calls O) → Type 0
  Booked items a b =
      (ledger b ≡ ledger a ++ share types reply o items) × (b.pipeline.outputs ≡ a.pipeline.outputs)

  locked_add-Booked : (a : Agent O (Calls O)) (t : Telemetry) → Booked (t ∷ []) a (locked_add a t)
  unfolding locked_add
  locked_add-Booked a t = (
    rw (filter-append (supports (recorder types reply) o) a.pipeline.buffer (t ∷ [])) (
        sym (
          append_assoc (received o (a.world ++ in_flight a.main))
            (share types reply o a.pipeline.buffer) (share types reply o (t ∷ [])))),
    refl,
  )

  -- A step that hands nothing to `add`.
  abbrev Keeps : Agent O (Calls O) → Agent O (Calls O) → Type 0
  Keeps a b = (ledger b ≡ ledger a) × (b.pipeline.outputs ≡ a.pipeline.outputs)

  Keeps-Booked : (a b : Agent O (Calls O)) → Keeps a b → Booked [] a b
  Keeps-Booked a b k = (rw (append-nil (ledger a)) k.0, k.1)

  Keeps-of_eq :
      (a b : Agent O (Calls O))
      → b.world ++ in_flight b.main ≡ a.world ++ in_flight a.main
      → b.pipeline.buffer ≡ a.pipeline.buffer
      → b.pipeline.outputs ≡ a.pipeline.outputs
      → Keeps a b
  Keeps-of_eq a b w q h = (ap₂ (λ c buffer. received o c ++ share types reply o buffer) w q, h)

  finish-Keeps :
      (last : Bool) (a b : Agent O (Calls O))
      → b.world ≡ a.world
      → in_flight a.main ≡ []
      → b.pipeline ≡ a.pipeline
      → Keeps a (finish last b)
  unfolding finish
  finish-Keeps true a b w m q =
      Keeps-of_eq a (record b { main = exited }) (rw (w, m)) (ap (λ p. p.buffer) q)
        (ap (λ p. p.outputs) q)
  finish-Keeps false a b w m q =
      Keeps-of_eq a (record b { main = selecting }) (rw (w, m)) (ap (λ p. p.buffer) q)
        (ap (λ p. p.outputs) q)

  -- The batch that is taken is booked under the flush at hand.
  taken-Keeps :
      (a : Agent O (Calls O))
      → in_flight a.main ≡ []
      → Once o a.pipeline.outputs
      → received o (a.world ++ routes types reply a.pipeline.outputs a.pipeline.buffer) ++ []
        ≡ ledger a
  taken-Keeps a m once = rw (
    append-nil (received o (a.world ++ routes types reply a.pipeline.outputs a.pipeline.buffer)),
    m,
    append-nil a.world,
    received-append o a.world (routes types reply a.pipeline.outputs a.pipeline.buffer),
    received-routes types reply o a.pipeline.outputs a.pipeline.buffer once,
  )

  take_locked-Keeps :
      (last : Bool) (a : Agent O (Calls O)) (r : Pipeline O × Option (List Telemetry))
      → in_flight a.main ≡ []
      → Once o a.pipeline.outputs
      → Takes a.pipeline r
      → Keeps a (take_locked last r a)
  unfolding take_locked
  take_locked-Keeps last a (p, none) m once (inl (e, q)) =
      finish-Keeps last a _ refl m (ap (λ t. t.0) q)
  take_locked-Keeps last a (p, some batch) m once (inl (e, q)) = cc (ap (λ t. t.1) q)
  take_locked-Keeps last a (p, none) m once (inr q) = cc (ap (λ t. t.1) q)
  take_locked-Keeps last a (p, some batch) m once (inr q) =
      rw (ap (λ t. t.0) q, some_eq (ap (λ t. t.1) q)) (taken-Keeps a m once, refl)

  write_one-Keeps :
      (last : Bool) (a : Agent O (Calls O)) (batch : List Telemetry) (p : O) (os : List O)
      (r : Calls O × Outcome)
      → a.main ≡ writing last batch (p ∷ os)
      → r.1 ≢ panicked
      → r.0 ++ routes types reply os batch ≡ a.world ++ routes types reply (p ∷ os) batch
      → Keeps a (write_one (recorder types reply) last batch os r a)
  unfolding write_one
  write_one-Keeps last a batch p os (w, returned) m ne e =
      Keeps-of_eq a (record a { world = w; main = writing last batch os }) (rw m e) refl refl
  write_one-Keeps last a batch p os (w, failed _) m ne e =
      Keeps-of_eq a (record a { world = w; main = writing last batch os }) (rw m e) refl refl
  write_one-Keeps last a batch p os (w, panicked) m ne e = absurd (ne refl)

  send-Keeps : (n : ℕ) (a b : Agent O (Calls O)) → send n a ≡ some b → Keeps a b
  unfolding send signal
  send-Keeps zero a b h = cc
  send-Keeps (suc n) a b h = Keeps-of_eq a b (ground arith) (ground arith) (ground arith)

  ready-Keeps :
      (flag : Bool) (a b c : Agent O (Calls O)) → ready flag c ≡ some b → Keeps a c → Keeps a b
  unfolding ready
  ready-Keeps true a b c h k = subst (Keeps a) (some_eq h) k
  ready-Keeps false a b c h k = absurd cc

  -- A state that the main loop reaches from its `select` has the same items in the same places.
  select-Keeps :
      (e : Event) (a b : Agent O (Calls O))
      → in_flight a.main ≡ []
      → select e a ≡ some b
      → Keeps a b
  unfolding select
  select-Keeps on_done a b m h =
      let c = record a { main = flushing true } in
      ready-Keeps a.cancelled a b c h (Keeps-of_eq a c (rw m) refl refl)
  select-Keeps on_signal a b m h =
      let c = record a { interrupted = false; cancelled = true } in
      ready-Keeps a.interrupted a b c h (Keeps-of_eq a c refl refl refl)
  select-Keeps on_tick a b m h =
      let c = record a { ticked = false; main = flushing false } in
      ready-Keeps a.ticked a b c h (Keeps-of_eq a c (rw m) refl refl)
  select-Keeps on_flush a b m h =
      let c = record a {
        pipeline = record a.pipeline { flush_token = false };
        main = flushing false;
      } in
      ready-Keeps a.pipeline.flush_token a b c h (Keeps-of_eq a c (rw m) refl refl)
  select-Keeps _ a b m h = absurd cc

  step_main-Keeps :
      (m : Main O) (e : Event) (a b : Agent O (Calls O))
      → Serves (IsCalm types reply) a
      → a.main ≡ m
      → Once o a.pipeline.outputs
      → step_main (recorder types reply) m e a ≡ some b
      → Keeps a b
  unfolding step_main
  step_main-Keeps selecting e a b calm m once h = select-Keeps e a b (ap in_flight m) h
  step_main-Keeps (flushing last) takes a b calm m once h = subst (Keeps a) (some_eq h) (
      take_locked-Keeps last a (take_buffer a.pipeline) (ap in_flight m) once
        (take_buffer-Takes a.pipeline))
  step_main-Keeps (writing last batch (p ∷ os)) writes a b calm m once h =
      let head = (subst (λ x. Serving (IsCalm types reply) x) m calm.serving).0 in
      subst (Keeps a) (some_eq h) (
        write_one-Keeps last a batch p os (write_to (recorder types reply) p batch a.world) m
          (write_to_calm types reply p batch a.world head)
          (routes-cons types reply p os batch a.world head))
  step_main-Keeps (writing last batch []) returns a b calm m once h =
      subst (Keeps a) (some_eq h)
        (finish-Keeps last a a refl (ap in_flight m ∙ routes_none types reply batch) refl)
  step_main-Keeps _ _ a b calm m once h = absurd cc

  step_any-Booked :
      (e : Event) (a b : Agent O (Calls O))
      → Serves (IsCalm types reply) a
      → Once o a.pipeline.outputs
      → step_any (recorder types reply) e a ≡ some b
      → Booked (added (e ∷ [])) a b
  unfolding step_any
  step_any-Booked (adds t) a b calm once h =
      subst (Booked (t ∷ []) a) (some_eq h) (locked_add-Booked a t)
  step_any-Booked sends a b calm once h = Keeps-Booked a b (send-Keeps a.senders a b h)
  step_any-Booked ticks a b calm once h =
      subst (Booked [] a) (some_eq h) (Keeps-Booked a (record a { ticked = true }) (refl, refl))
  step_any-Booked interrupts a b calm once h =
      subst (Booked [] a) (some_eq h)
        (Keeps-Booked a (record a { interrupted = true }) (refl, refl))
  step_any-Booked e a b calm once h =
      Keeps-Booked a b (step_main-Keeps a.main e a b calm refl once h)

  -- An event adds to the books what it hands to `add`, and nothing else changes them.
  pub step-Booked :
      (e : Event) (a b : Agent O (Calls O))
      → Serves (IsCalm types reply) a
      → Once o a.pipeline.outputs
      → step (recorder types reply) e a ≡ some b
      → Booked (added (e ∷ [])) a b
  unfolding step
  step-Booked e a b calm once h = elim (Bool-cases (alive a.main)) [
    | inl q ↦ step_any-Booked e a b calm once (rw (q, step) at h)
    | inr q ↦ cc (rw (q, step) at h)
  ]
