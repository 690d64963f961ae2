-- ===== src/Outputs/File/Tests.antt =====
-- A batch of all three kinds on a disk that takes everything, and on one that is full after a line.
use arbutus.Base.{◌≡◌, refl, inr, List, [], ◌∷◌, Option, none, some, Bytes, codes}
use arbutus.Models.{Telemetry, Log, log, metric, span, pos, Any, str}
use arbutus.Outputs.Console
use arbutus.Outputs.File.Writes.{journal, Told, write-Told}
use arbutus.Outputs.File.{File, Os, write, close, close_handle, synced}
use arbutus.Outputs.Lines.{Format, lines_of}

abbrev print : Any → Bytes
print (str s) = s
print v = codes "?"

abbrev format : Format
format = record {
  rfc3339 = λ t. codes "2025-01-01T00:00:00Z";
  to_json = λ attributes. codes "{}";
  sprint = print;
  sprint_float = λ bits. codes "0.5";
}

-- Handles are the paths.
abbrev os : {W : Type 0} → Os Bytes W
os = record {
  marshal_config = λ config. inr (codes "{}");
  unmarshal = λ json path. (codes "/var/log/arbutus", none);
  open_file = λ path w. (w, inr path);
  write_string = λ h line w. (w, none);
  sync = λ h w. w;
  close = λ h w. (w, none);
}

abbrev a_log : Log
a_log = record { time = pos 5; level = codes "info"; message = codes "started"; attributes = [] }

abbrev batch : List Telemetry
batch =
    log a_log
    ∷ span (record {
      trace_id = [];
      span_id = [];
      parent_id = [];
      name = codes "request";
      start_time = pos 1;
      end_time = pos 2;
      attributes = [];
    })
    ∷ metric (record {
      time = pos 5;
      name = codes "cpu";
      value = 0;
      tags = (codes "host", codes "a") ∷ [];
      fields = (codes "core", str (codes "1")) ∷ [];
    })
    ∷ []

abbrev appending : File Bytes
appending = record { file_path = codes "/var/log/arbutus"; file = some (codes "/var/log/arbutus") }

abbrev full_after_one : List Bytes → Bytes → Option Bytes
full_after_one [] line = none
full_after_one (l ∷ ls) line = some (codes "no space left on device")

write-Told_example :
    Told os full_after_one format
      (lines_of format batch)
      []
      (write (journal os full_after_one format) format appending batch [])
write-Told_example =
    write-Told os full_after_one format appending (codes "/var/log/arbutus") batch [] refl

abbrev closed : File Bytes
closed = record { file_path = codes "/var/log/arbutus"; file = none }

closes : close os appending (codes "disk") ≡ (closed, codes "disk", none)
unfolding close close_handle synced
closes = refl
