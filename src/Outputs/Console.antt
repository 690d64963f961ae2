-- ===== src/Outputs/Console.antt =====
-- internal/plugins/outputs/console/console.go. What `fmt.Println` prints is the text of standard
-- output; its error is not looked at by the code.
use arbutus.Base.{List, [], ◌∷◌, ◌++◌, Bool, true, Bytes, codes, GoMap, Option, none}
use arbutus.Models.{Any, Telemetry, log, span, metric, TelemetryType, type_log, type_metric}
use arbutus.Outputs.Lines.{Format, log_line, metric_line}

module _ (format : Format) where
  write_one : Telemetry → Bytes → Bytes
  unfolding log_line metric_line
  write_one (log l) stdout = stdout ++ (log_line format l ++ codes "\n")
  write_one (metric m) stdout = stdout ++ (metric_line format m ++ codes "\n")
  write_one (span s) stdout = stdout

  -- `Write`, which gives no error.
  unfoldable pub write : List Telemetry → Bytes → Bytes
  unfolding write_one
  write [] stdout = stdout
  write (t ∷ ts) stdout = write ts (write_one t stdout)

-- `Connect` and `Close` only log, and give no error.
abbrev pub connect : GoMap Bytes Any → Option Bytes
connect config = none

-- `SupportedTypes`
abbrev pub supported_types : GoMap TelemetryType Bool
supported_types = (type_log, true) ∷ (type_metric, true) ∷ []
