-- ===== src/Outputs/Loki.antt =====
-- internal/plugins/outputs/loki/loki.go: the batch of streams that `Write` builds from telemetry.
-- `sprint` is `fmt.Sprintf("%v", value)`; `valid` and `to_valid` are `utf8.ValidString` and
-- `strings.ToValidUTF8` with the replacement character.
pub mod Labels
pub mod Streams
pub mod Grouping
pub mod Client
mod Tests
use arbutus.Base.{
  ℕ, suc, ◌+◌, ◌≡◌, Bool, true, false, not, ◌&&◌, List, [], ◌∷◌, ◌++◌, Option, none, some, length,
  ◌==◌, if◌then◌else◌, Bytes, codes, beq_bytes, bytes_eq, format_uint, GoMap, lookup, insert,
}
use arbutus.Models.{Telemetry, Log, log, span, metric, Any, Time, ℤ, pos, negsuc}

abbrev pub Labels : Type 0
Labels = GoMap Bytes Bytes

-- `LokiLog`, a pair [timestamp, line]
abbrev pub LokiLog : Type 0
LokiLog = Bytes × Bytes

pub record Stream : Type 0 where
  pub stream : Labels
  pub values : List LokiLog

abbrev pub or_empty : Option Bytes → Bytes
or_empty none = []
or_empty (some v) = v

-- `b[k]`, with the zero value for a missing key.
abbrev pub get_or_empty : Bytes → Labels → Bytes
get_or_empty k b = or_empty (lookup k b)

-- The loop of `mapsEqual` over the first map.
unfoldable pub all_found : Labels → Labels → Bool
all_found [] b = true
all_found ((k, v) ∷ a) b =
    let rest = all_found a b in if beq_bytes (get_or_empty k b) v then rest else false

unfoldable pub maps_equal : Labels → Labels → Bool
unfolding all_found
maps_equal a b = if length a == length b then all_found a b else false

-- `insertLog`: to the first stream with these labels, or to a new one at the end.
unfoldable pub insert_log : Labels → LokiLog → List Stream → List Stream
insert_log labels entry [] = record { stream = labels; values = entry ∷ [] } ∷ []
insert_log labels entry (s ∷ streams) =
    let rest = insert_log labels entry streams in
    if maps_equal s.stream labels
    then record s { values = s.values ++ entry ∷ [] } ∷ streams
    else s ∷ rest

-- `strconv.FormatInt(n, 10)`
unfoldable pub format_int : ℤ → Bytes
format_int (pos n) = format_uint n
format_int (negsuc n) = b'-' ∷ format_uint (n + 1)

-- What `Write` uses of the standard library.
pub record Text : Type 0 where
  pub sprint : Any → Bytes
  pub valid : Bytes → Bool
  pub to_valid : Bytes → Bytes

module _ (text : Text) where
  unfoldable pub sanitize_utf8 : Bytes → Bytes
  sanitize_utf8 s = if text.valid s then s else text.to_valid s

  add_attributes : GoMap Bytes Any → Labels → Labels
  unfolding sanitize_utf8
  add_attributes [] labels = labels
  add_attributes ((key, value) ∷ attributes) labels =
      add_attributes attributes (insert key (sanitize_utf8 (text.sprint value)) labels)

  -- The labels of a log: its level, and its attributes.
  unfoldable pub labels_of : Log → Labels
  unfolding add_attributes
  labels_of l = add_attributes l.attributes (insert (codes "level") (sanitize_utf8 l.level) [])

  unfoldable pub entry_of : Log → LokiLog
  unfolding sanitize_utf8 format_int
  entry_of l = (format_int l.time, sanitize_utf8 l.message)

  insert_telemetry : Telemetry → List Stream → List Stream
  unfolding labels_of entry_of
  insert_telemetry (log l) streams = insert_log (labels_of l) (entry_of l) streams
  insert_telemetry (span s) streams = streams
  insert_telemetry (metric m) streams = streams

  -- The loop of `Write`.
  unfoldable pub streams_from : List Stream → List Telemetry → List Stream
  unfolding insert_telemetry
  streams_from streams [] = streams
  streams_from streams (t ∷ ts) = streams_from (insert_telemetry t streams) ts
