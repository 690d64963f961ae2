-- ===== src/Pipeline/Receipt.antt =====
-- What one output receives from a `Flush`.
use arbutus.Base.{◌≡◌, ◌∙◌, ap, Bool, List, ◌++◌, GoMap, Eq}
use arbutus.Models.{Telemetry, TelemetryType}
use arbutus.Models.Plugin.{Outcome}
use arbutus.Pipeline.{Pipeline, flush}
use arbutus.Pipeline.Delivery.{
  Calls, recorder, share, routes, Calm, flush-routes, received, received-append, Once,
  received-routes,
}

module _ {O : Type 0} ⦃e : Eq O⦄ (types : O → GoMap TelemetryType Bool)
    (reply : Calls O → O → List Telemetry → Outcome) where
  -- If none of the outputs panics, an output that is configured once has received after a `Flush` what it had
  -- received before, and then what it supports of the buffer: all of it once, in order.
  pub received-flush :
      (o : O) (p : Pipeline O) (calls : Calls O)
      → Calm types reply p.outputs
      → Once o p.outputs
      → received o (flush (recorder types reply) p calls).1
        ≡ received o calls ++ share types reply o p.buffer
  received-flush o p calls calm once =
      ap (λ r. received o r.1) (flush-routes types reply p calls calm)
      ∙ received-append o calls (routes types reply p.outputs p.buffer)
      ∙ ap (λ ts. received o calls ++ ts) (received-routes types reply o p.outputs p.buffer once)
