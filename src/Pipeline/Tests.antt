-- ===== src/Pipeline/Tests.antt =====
-- A flush with three outputs: one fails, one supports nothing of the batch.
use arbutus.Base.{◌≡◌, true, List, [], ◌∷◌, ◌++◌, GoMap, codes, Bool}
use arbutus.Models.{
  Telemetry, log, metric, pos, TelemetryType, type_log, type_metric, type_trace, type_eq,
}
use arbutus.Models.Plugin.{Outcome, returned, failed}
use arbutus.Pipeline.{Pipeline, running, flush}
use arbutus.Pipeline.Delivery.{Calls, recorder, routes, Calm, flush-routes}

abbrev types : TelemetryType → GoMap TelemetryType Bool
types o = (o, true) ∷ []

abbrev reply : Calls TelemetryType → TelemetryType → List Telemetry → Outcome
reply calls type_log batch = returned
reply calls _ batch = failed (codes "no route to host")

reply-Calm : Calm types reply (type_metric ∷ type_trace ∷ type_log ∷ [])
reply-Calm = ((λ calls batch q. cc), ((λ calls batch q. cc), ((λ calls batch q. cc), tt)))

abbrev batch : List Telemetry
batch =
    log (record { time = pos 1; level = codes "info"; message = codes "m"; attributes = [] })
    ∷ metric (record { time = pos 5; name = codes "cpu"; value = 1; tags = []; fields = [] })
    ∷ []

abbrev outputs : List TelemetryType
outputs = type_metric ∷ type_trace ∷ type_log ∷ []

abbrev loaded : Pipeline TelemetryType
loaded = record { outputs = outputs; buffer = batch; flush_token = true }

flush-routes_example :
    flush (recorder types reply) loaded []
    ≡ (record loaded { buffer = [] }, [] ++ routes types reply outputs batch, running)
flush-routes_example = flush-routes types reply loaded [] reply-Calm
