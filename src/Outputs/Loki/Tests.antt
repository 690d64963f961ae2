-- ===== src/Outputs/Loki/Tests.antt =====
-- Two logs with the same labels and one with others; a network that accepts, and one that does not.
use arbutus.Base.{
  inr, ◌≡◌, ◌≢◌, length, ◌↔◌, refl, true, List, [], ◌∷◌, none, some, Bytes, codes, IsMap, arith,
  beq_bytes, bytes_eq,
}
use arbutus.Models.{Telemetry, log, pos, Any, str}
use arbutus.Models.Plugin.{returned, panicked}
use arbutus.Outputs.Loki.Client.Replies.{IsAccepted, LacksClient, write-IsAccepted, write-panics}
use arbutus.Outputs.Loki.Client.{
  Loki, Web, Request, answer, new_loki, request_of, write, connect, configure, unmarshal_into,
  complete, make_client, or_default,
}
use arbutus.Outputs.Loki.Grouping.{LogsHaveValues, Values, Lines, AllApart, streams-grouped}
use arbutus.Outputs.Loki.Labels.{SameMap, HasValues, Covers, maps_equal_iff, maps_equal-SameMap}
use arbutus.Outputs.Loki.{
  Labels, LokiLog, Text, maps_equal, all_found, labels_of, streams_from, sanitize_utf8,
  add_attributes,
}

abbrev print : Any → Bytes
print (str s) = s
print v = codes "?"

abbrev text : Text
text = record { sprint = print; valid = λ s. true; to_valid = λ s. s }

abbrev entry : Bytes → Bytes → Telemetry
entry level message = log (record {
  time = pos 1000;
  level = level;
  message = message;
  attributes = (codes "input", str (codes "memleak")) ∷ [];
})

abbrev batch : List Telemetry
batch =
    entry (codes "warning") (codes "a")
    ∷ entry (codes "critical") (codes "b")
    ∷ entry (codes "warning") (codes "c")
    ∷ []

abbrev warnings : Labels
warnings = (codes "level", codes "warning") ∷ (codes "input", codes "memleak") ∷ []

abbrev swapped : Labels
swapped = (codes "input", codes "memleak") ∷ (codes "level", codes "warning") ∷ []

warnings-IsMap : IsMap warnings
warnings-IsMap = ground arith

swapped-IsMap : IsMap swapped
swapped-IsMap = ground arith

warnings-HasValues : HasValues warnings
warnings-HasValues = ground arith

batch-LogsHaveValues : LogsHaveValues text batch
unfolding labels_of sanitize_utf8 add_attributes
batch-LogsHaveValues = ground arith

streams-grouped_example :
    ((lines : List LokiLog) × Values text warnings (streams_from text [] batch) lines
      × Lines text warnings batch lines)
    × AllApart text (streams_from text [] batch)
streams-grouped_example =
    streams-grouped text warnings batch warnings-IsMap warnings-HasValues batch-LogsHaveValues

maps_equal-SameMap_example : (maps_equal warnings swapped ≡ true) ↔ SameMap warnings swapped
maps_equal-SameMap_example =
    maps_equal-SameMap warnings swapped warnings-IsMap swapped-IsMap warnings-HasValues

abbrev a_job : Labels
a_job = (codes "job", []) ∷ []

abbrev a_host : Labels
a_host = (codes "host", codes "a") ∷ []

maps_equal_iff_example :
    (maps_equal a_job a_host ≡ true) ↔ ((length a_job ≡ length a_host) × Covers a_host a_job)
maps_equal_iff_example = maps_equal_iff a_job a_host (tt, tt)

-- They differ, and are equal to `mapsEqual`.
differ_and_equal : (maps_equal a_job a_host ≡ true) × (a_job ≢ a_host)
unfolding maps_equal all_found
differ_and_equal = (refl, λ q. cc)

-- The file gives the domain; the network is the list of requests, and answers 204.
abbrev web : Web (List Request)
web = record {
  marshal_config = λ config. inr [];
  unmarshal = λ json s. (record s { domain = codes "http://loki:3100" }, none);
  parse_duration = λ s. inr 10;
  marshal_streams = λ streams. inr (codes "{}");
  url_error = λ url. none;
  canonical = λ k. k;
  equal_fold = beq_bytes;
  basic_auth = λ user password. codes "Basic";
  close_idle = λ n. n;
  send = λ timeout r sent. (r ∷ sent, answer 204 []);
}

abbrev connected : Loki
connected = record {
  settings = record {
    domain = codes "http://loki:3100";
    endpoint = codes "/loki/api/v1/push";
    timeout = codes "10s";
    username = [];
    password = [];
    headers = [];
  };
  url = codes "http://loki:3100/loki/api/v1/push";
  client = some 10;
}

connects : connect web [] new_loki ≡ (connected, none)
unfolding connect configure unmarshal_into complete make_client or_default
connects = refl

write-IsAccepted_example :
    ((write web text connected batch []).0 ≡ request_of web connected (codes "{}") ∷ [])
    × (((write web text connected batch []).1 ≡ returned) ↔ IsAccepted web (answer 204 []))
write-IsAccepted_example =
    write-IsAccepted web text connected (entry (codes "warning") (codes "a"))
      (entry (codes "critical") (codes "b") ∷ entry (codes "warning") (codes "c") ∷ []) [] 10
      (codes "{}") (request_of web connected (codes "{}") ∷ []) (answer 204 []) refl refl refl refl

write-panics_example :
    ((write web text new_loki batch []).1 ≡ panicked) ↔ LacksClient web text new_loki batch
write-panics_example = write-panics web text new_loki batch []
