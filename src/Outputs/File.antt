-- ===== src/Outputs/File.antt =====
-- internal/plugins/outputs/file/file.go. The file is a handle of the operating system `Os`, which
-- changes the world `W`; it is nil before `Connect` and after `Close`.
pub mod Writes
mod Tests
use arbutus.Base.{
  ◌⊎◌, inl, inr, List, [], ◌∷◌, ◌++◌, Option, none, some, Bool, true, Bytes, codes, GoMap,
}
use arbutus.Models.{Telemetry, log, span, metric, Any, TelemetryType, type_log, type_metric}
use arbutus.Outputs.Lines.{Format, log_line, metric_line}

pub record File (H : Type 0) : Type 0 where
  pub file_path : Bytes
  pub file : Option H

-- `New`
abbrev pub new_file : {H : Type 0} → File H
new_file = record { file_path = []; file = none }

-- The libraries: JSON, and files with the handles `H`. On the left of a sum, and in an option, is the
-- text of an error.
pub record Os (H W : Type 0) : Type 0 where
  pub marshal_config : GoMap Bytes Any → Bytes ⊎ Bytes
  -- `json.Unmarshal` into the field: what it holds after it, and the error
  pub unmarshal : Bytes → Bytes → Bytes × Option Bytes
  -- `os.OpenFile`, to append, with the file created if need be
  pub open_file : Bytes → W → W × (Bytes ⊎ H)
  pub write_string : H → Bytes → W → W × Option Bytes
  pub sync : H → W → W
  pub close : H → W → W × Option Bytes

module _ {H W : Type 0} (os : Os H W) where
  -- `f.file.WriteString`; on a nil file it gives `os.ErrInvalid`.
  write_string : Option H → Bytes → W → W × Option Bytes
  write_string none line w = (w, some (codes "invalid argument"))
  write_string (some h) line w = os.write_string h line w

  opened : File H → W × (Bytes ⊎ H) → File H × W × Option Bytes
  opened f (w, inl e) = (f, w, some (codes "failed to open file: " ++ e))
  opened f (w, inr h) = (record f { file = some h }, w, none)

  open_path : Bytes → File H → W → File H × W × Option Bytes
  unfolding opened
  open_path [] f w = (record f { file_path = [] }, w, some (codes "filepath is required"))
  open_path (c ∷ cs) f w = opened (record f { file_path = c ∷ cs }) (os.open_file (c ∷ cs) w)

  unmarshal_into : Bytes × Option Bytes → File H → W → File H × W × Option Bytes
  unfolding open_path
  unmarshal_into (path, some e) f w =
      (record f { file_path = path }, w, some (codes "failed to unmarshal config: " ++ e))
  unmarshal_into (path, none) f w = open_path path f w

  unfoldable pub connect : GoMap Bytes Any → File H → W → File H × W × Option Bytes
  unfolding unmarshal_into
  connect config f w = elim (os.marshal_config config) [
    | inl e ↦ (f, w, some (codes "failed to marshal config: " ++ e))
    | inr json ↦ unmarshal_into (os.unmarshal json f.file_path) f w
  ]

  -- `return fmt.Errorf("failed to write …: %w", err)`
  wrap : Bytes → W × Option Bytes → W × Option Bytes
  wrap words (w, none) = (w, none)
  wrap words (w, some e) = (w, some (words ++ e))

  synced : Option Bytes → File H → W → File H × W × Option Bytes
  synced (some e) f w = (f, w, some (codes "failed to close file: " ++ e))
  synced none f w = (record f { file = none }, w, none)

  -- An error of `Sync` is only logged.
  close_handle : Option H → File H → W → File H × W × Option Bytes
  unfolding synced
  close_handle none f w = (f, w, none)
  close_handle (some h) f w = let (v, e) = os.close h (os.sync h w) in synced e f v

  unfoldable pub close : File H → W → File H × W × Option Bytes
  unfolding close_handle
  close f w = close_handle f.file f w

  module _ (format : Format) where
    write_one : Option H → Telemetry → W → W × Option Bytes
    unfolding write_string wrap log_line metric_line
    write_one file (log l) w =
        wrap (codes "failed to write log: ") (write_string file (log_line format l ++ codes "\n") w)
    write_one file (metric m) w =
        wrap (codes "failed to write metric: ")
          (write_string file (metric_line format m ++ codes "\n") w)
    write_one file (span s) w = (w, none)

    -- The loop of `Write`: an error ends it.
    write_all : Option H → List Telemetry → W → W × Option Bytes
    unfolding write_one
    write_all file [] w = (w, none)
    write_all file (t ∷ ts) w =
        let (v, error) = write_one file t w in
        elim error [ some e ↦ (v, some e) | none ↦ write_all file ts v ]

    unfoldable pub write : File H → List Telemetry → W → W × Option Bytes
    unfolding write_all
    write f ts w = write_all f.file ts w

-- `SupportedTypes`
abbrev pub supported_types : GoMap TelemetryType Bool
supported_types = (type_log, true) ∷ (type_metric, true) ∷ []
