-- ===== src/Inputs/Template.antt =====
-- internal/plugins/inputs/template/template.go: the example plugin. It is not in the imports of
-- inputs.go, so the agent does not register it.
pub mod Kernel
use arbutus.Base.{List, ◌++◌, Option, none, some, length, ltb, ℕ, Bytes, codes, if◌then◌else◌}
use arbutus.Inputs.Reader
use arbutus.Inputs.Wire.{cstring, field, hostname_or_unknown, attributes}
use arbutus.Models.{Log, Time}

pub record TemplateEvent : Type 0 where
  pub msg : Bytes

abbrev pub event_size : ℕ
event_size = 256

-- `binary.Read(..., binary.LittleEndian, &event)`
unfoldable pub decode : Bytes → Option TemplateEvent
unfolding field
decode sample =
    if ltb (length sample) event_size then none else some (record { msg = field 0 256 sample })

-- The case `event := <-eventChan` at this time. It cannot panic.
unfoldable pub to_log : Option Bytes → Time → TemplateEvent → Option Log
unfolding hostname_or_unknown
to_log host now event = some (record {
  time = now;
  level = codes "info";
  message = codes "Template msg: " ++ cstring event.msg;
  attributes = attributes (codes "template") (hostname_or_unknown host);
})

-- The goroutine and the loop of `Run`, and `Stop`: the steps of Inputs/Reader, with the name that
-- `os.Hostname` gave, or none.
unfoldable pub run :
    Option Bytes
    → List Reader.Step
    → Reader.Reader TemplateEvent
    → Option (Reader.Reader TemplateEvent)
run host ss r = Reader.run decode (to_log host) ss r
