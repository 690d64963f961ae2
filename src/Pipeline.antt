-- ===== src/Pipeline.antt =====
-- internal/pipeline/pipeline.go. What runs under the mutex is one function (`append`,
-- `take_buffer`), so that the steps of concurrent goroutines can be put in any order. The flush
-- channel has room for one token.
pub mod Delivery
pub mod Receipt
pub mod Replay
pub mod View
mod Tests
use arbutus.Base.{
  ℕ, ◌≡◌, refl, sym, ap, ◌⊎◌, inl, inr, Bool, true, false, List, [], ◌∷◌, ◌++◌, Option, none, some,
  length, filter, leb, lookup, if◌then◌else◌, GoMap,
}
use arbutus.Models.{
  Telemetry, Log, Span, Metric, log, span, metric, TelemetryType, type_of, type_eq,
}
use arbutus.Models.Plugin.{Output, Outcome, returned, failed, panicked}

pub record Pipeline (O : Type 0) : Type 0 where
  pub outputs : List O
  pub buffer : List Telemetry
  pub flush_token : Bool

-- Whether the process goes on.
pub data Control : Type 0 where
  running crashed : Control

module _ {O : Type 0} where
  unfoldable pub new_pipeline : List O → Pipeline O
  new_pipeline outputs = record { outputs = outputs; buffer = []; flush_token = false }

  -- The locked part of `add`, with `shouldFlush`.
  unfoldable pub append : Pipeline O → Telemetry → Pipeline O × Bool
  append p t =
      let buffer = p.buffer ++ t ∷ [] in (record p { buffer = buffer }, leb 100 (length buffer))

  -- `select { case p.flush <- struct{}{}: default: }`
  unfoldable pub signal : Pipeline O → Pipeline O
  signal p = if p.flush_token then p else record p { flush_token = true }

  unfoldable pub add : Pipeline O → Telemetry → Pipeline O
  unfolding append signal
  add p t = let (q, should_flush) = append p t in if should_flush then signal q else q

  unfoldable pub add_log : Pipeline O → Log → Pipeline O
  unfolding add
  add_log p l = add p (log l)

  unfoldable pub add_span : Pipeline O → Span → Pipeline O
  unfolding add
  add_span p s = add p (span s)

  unfoldable pub add_metric : Pipeline O → Metric → Pipeline O
  unfolding add
  add_metric p m = add p (metric m)

  -- `FlushChannel`, whose receiver sees whether a token waits.
  abbrev pub flush_channel : Pipeline O → Bool
  flush_channel p = p.flush_token

  take_all : List Telemetry → Pipeline O → Pipeline O × Option (List Telemetry)
  take_all [] p = (p, none)
  take_all (t ∷ ts) p = (record p { buffer = [] }, some (t ∷ ts))

  -- The locked part of `Flush`; `none` where it returns at once.
  unfoldable pub take_buffer : Pipeline O → Pipeline O × Option (List Telemetry)
  unfolding take_all
  take_buffer p = take_all p.buffer p

  -- What `take_buffer` does: nothing on an empty buffer; else it hands all of it over.
  abbrev pub Takes : Pipeline O → Pipeline O × Option (List Telemetry) → Type 0
  Takes p r =
      ((p.buffer ≡ []) × (r ≡ (p, none))) ⊎ ((r ≡ (record p { buffer = [] }, some p.buffer)))

  take_all-Takes :
      (p : Pipeline O) (buffer : List Telemetry) → p.buffer ≡ buffer → Takes p (take_all buffer p)
  unfolding take_all
  take_all-Takes p [] e = inl (e, refl)
  take_all-Takes p (t ∷ ts) e = inr (ap (λ b. (record p { buffer = [] }, some b)) (sym e))

  pub take_buffer-Takes : (p : Pipeline O) → Takes p (take_buffer p)
  unfolding take_buffer
  take_buffer-Takes p = take_all-Takes p p.buffer refl

module _ {O W : Type 0} (api : Output O W) where
  is_true : Option Bool → Bool
  is_true none = false
  is_true (some b) = b

  -- `supportedTypes[t.Type()]`
  unfoldable pub supports : O → Telemetry → Bool
  unfolding is_true
  supports o t = is_true (lookup (type_of t) (api.supported_types o))

  write_filtered : O → List Telemetry → W → W × Outcome
  write_filtered o [] w = (w, returned)
  write_filtered o (t ∷ ts) w = api.write o (t ∷ ts) w

  -- The body of the loop over the outputs: filter, and write if something is left.
  unfoldable pub write_to : O → List Telemetry → W → W × Outcome
  unfolding write_filtered
  write_to o batch w = write_filtered o (filter (supports o) batch) w

  -- An error is logged and the loop goes on; a panic ends it.
  unfoldable pub deliver : List O → List Telemetry → W → W × Control
  deliver [] batch w = (w, running)
  deliver (o ∷ os) batch w =
      let (v, outcome) = write_to o batch w in
      elim outcome [ panicked ↦ (v, crashed) | _ ↦ deliver os batch v ]

  flush_taken : Pipeline O × Option (List Telemetry) → W → Pipeline O × W × Control
  flush_taken (p, none) w = (p, w, running)
  flush_taken (p, some batch) w = let (v, control) = deliver p.outputs batch w in (p, v, control)

  -- `Flush`, where nothing else runs meanwhile.
  unfoldable pub flush : Pipeline O → W → Pipeline O × W × Control
  unfolding flush_taken take_buffer
  flush p w = flush_taken (take_buffer p) w
