-- ===== src/Outputs/Lines.antt =====
-- The line formats of internal/plugins/outputs/console/console.go and
-- internal/plugins/outputs/file/file.go, which are the same: a log with its attributes in JSON, a
-- metric in the line protocol of InfluxDB. The formatting of the standard library is an argument.
use arbutus.Base.{List, [], ◌∷◌, ◌++◌, Bytes, codes, GoMap, ℕ}
use arbutus.Models.{Telemetry, log, span, metric, Log, Metric, Time, Any}
use arbutus.Outputs.Loki.{format_int}

pub record Format : Type 0 where
  -- `t.Format(time.RFC3339)`
  pub rfc3339 : Time → Bytes
  -- `json.Marshal`, whose data is empty where it gives an error
  pub to_json : GoMap Bytes Any → Bytes
  -- `%v` of a value, and of the float64 with these bits
  pub sprint : Any → Bytes
  pub sprint_float : ℕ → Bytes

module _ (format : Format) where
  attributes_text : GoMap Bytes Any → Bytes
  attributes_text [] = []
  attributes_text (a ∷ more) = codes " " ++ format.to_json (a ∷ more)

  tags_text : GoMap Bytes Bytes → Bytes
  tags_text [] = []
  tags_text ((k, v) ∷ tags) = codes "," ++ (k ++ (codes "=" ++ (v ++ tags_text tags)))

  fields_text : GoMap Bytes Any → Bytes
  fields_text [] = []
  fields_text ((k, v) ∷ fields) =
      codes "," ++ (k ++ (codes "=" ++ (format.sprint v ++ fields_text fields)))

  -- Without the newline.
  unfoldable pub log_line : Log → Bytes
  unfolding attributes_text
  log_line l =
      format.rfc3339 l.time
      ++ (codes " [" ++ (l.level ++ (codes "] " ++ (l.message ++ attributes_text l.attributes))))

  unfoldable pub metric_line : Metric → Bytes
  unfolding tags_text fields_text format_int
  metric_line m =
      m.name
      ++ (tags_text m.tags
          ++ (codes " value="
              ++ (format.sprint_float m.value
                  ++ (fields_text m.fields ++ (codes " " ++ format_int m.time)))))

  -- The lines of a batch, with their newlines; a trace has none.
  abbrev pub line_of : Telemetry → List Bytes
  line_of (log l) = (log_line l ++ codes "\n") ∷ []
  line_of (metric m) = (metric_line m ++ codes "\n") ∷ []
  line_of (span s) = []

  abbrev pub lines_of : List Telemetry → List Bytes
  lines_of [] = []
  lines_of (t ∷ ts) = line_of t ++ lines_of ts
