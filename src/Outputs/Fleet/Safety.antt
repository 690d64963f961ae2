-- ===== src/Outputs/Fleet/Safety.antt =====
-- When no output panics.
use arbutus.Base.{◌≡◌, ◌≢◌, refl, List, [], ◌∷◌, Option, none, some, ℕ, inl, inr, Bytes, ◌⊎◌}
use arbutus.Models.Plugin.{panicked}
use arbutus.Models.{Telemetry}
use arbutus.Outputs.File.{Os}
use arbutus.Outputs.Fleet.{
  Kind, console, file, loki, kind_eq, World, fleet, write, supported_types, outcome_of,
}
use arbutus.Outputs.Lines.{Format}
use arbutus.Outputs.Loki.Client.{Web}
use arbutus.Outputs.Loki.Client.Replies.{write_calm}
use arbutus.Outputs.Loki.{Text}
use arbutus.Pipeline.Delivery.{Calls, Calm, Absent}
use arbutus.Pipeline.Replay.{replay, answers}

module _ {H D N : Type 0} (format : Format) (text : Text) (os : Os H D) (web : Web N) where
  pub write-loki :
      (k : Kind) (batch : List Telemetry) (w : World H D N)
      → (write format text os web k batch w).0.loki ≡ w.loki
  unfolding write
  write-loki console batch w = refl
  write-loki file batch w = refl
  write-loki loki batch w = refl

  replay-loki :
      (w : World H D N) (calls : Calls Kind)
      → (replay (fleet format text os web) w calls).loki ≡ w.loki
  unfolding replay
  replay-loki w [] = refl
  replay-loki w ((k, batch) ∷ calls) =
      rw (replay-loki (write format text os web k batch w).0 calls) (write-loki k batch w)

  outcome_calm : (e : Option Bytes) → outcome_of e ≢ panicked
  outcome_calm none = λ q. cc
  outcome_calm (some e) = λ q. cc

  -- Loki is not among these outputs, or it has its client.
  abbrev pub IsReady : List Kind → World H D N → Type 0
  IsReady os w = Absent loki os ⊎ ((timeout : ℕ) × (w.loki.client ≡ some timeout))

  pub write_console_calm :
      (batch : List Telemetry) (w : World H D N)
      → (write format text os web console batch w).1 ≢ panicked
  unfolding write
  write_console_calm batch w = λ q. cc

  pub write_file_calm :
      (batch : List Telemetry) (w : World H D N)
      → (write format text os web file batch w).1 ≢ panicked
  unfolding write
  write_file_calm batch w = outcome_calm _

  pub write_loki_calm :
      (batch : List Telemetry) (w : World H D N) (timeout : ℕ)
      → w.loki.client ≡ some timeout
      → (write format text os web loki batch w).1 ≢ panicked
  unfolding write
  write_loki_calm batch w timeout c = write_calm web text w.loki batch w.net timeout c

  rest :
      (k : Kind) (outputs : List Kind) (w : World H D N)
      → IsReady (k ∷ outputs) w
      → IsReady outputs w
  rest k outputs w (inl absent) = inl absent.1
  rest k outputs w (inr client) = inr client

  -- If Loki has its client at the start or is not configured, no output panics, whatever all of them
  -- have been given before and whatever the disk and the network answer.
  pub fleet-Calm :
      (outputs : List Kind) (w : World H D N)
      → IsReady outputs w
      → Calm (supported_types format text os web) (answers (fleet format text os web) w) outputs
  unfolding answers
  fleet-Calm [] w ready = tt
  fleet-Calm (console ∷ outputs) w ready = (
    λ calls batch. write_console_calm batch (replay (fleet format text os web) w calls),
    fleet-Calm outputs w (rest console outputs w ready),
  )
  fleet-Calm (file ∷ outputs) w ready = (
    λ calls batch. write_file_calm batch (replay (fleet format text os web) w calls),
    fleet-Calm outputs w (rest file outputs w ready),
  )
  fleet-Calm (loki ∷ outputs) w (inl absent) = absurd (absent.0 refl)
  fleet-Calm (loki ∷ outputs) w (inr (timeout, c)) = (
    λ calls batch.
        write_loki_calm batch (replay (fleet format text os web) w calls) timeout
          (rw (replay-loki w calls) c),
    fleet-Calm outputs w (inr (timeout, c)),
  )
