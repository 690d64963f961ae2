-- ===== src/Inputs/Opensnoop.antt =====
-- internal/plugins/inputs/opensnoop/opensnoop.go: the struct that comes out of the ring buffer, and
-- what the loop of `Run` makes of it. The int32 `Ret` is its bit pattern.
pub mod Event
pub mod Kernel
mod Tests
use arbutus.Base.{
  ℕ, List, [], ◌∷◌, ◌++◌, Option, none, some, length, ltb, Bytes, codes, format_uint, if◌then◌else◌,
}
use arbutus.Inputs.Reader
use arbutus.Inputs.Wire.{cstring, little_endian, field, hostname_or_unknown, attributes}
use arbutus.Models.{Log, Time}

pub record OpensnoopEvent : Type 0 where
  pub pid : ℕ
  pub uid : ℕ
  pub ret : ℕ
  pub comm : Bytes
  pub fname : Bytes

abbrev pub event_size : ℕ
event_size = 284

-- `binary.Read(..., binary.LittleEndian, &event)`
unfoldable pub decode : Bytes → Option OpensnoopEvent
unfolding little_endian field
decode sample =
    if ltb (length sample) event_size
    then none
    else some (record {
      pid = little_endian (field 0 4 sample);
      uid = little_endian (field 4 4 sample);
      ret = little_endian (field 8 4 sample);
      comm = field 12 16 sample;
      fname = field 28 256 sample;
    })

unfoldable pub message : OpensnoopEvent → Bytes
message event =
    codes "Process "
    ++ (cstring event.comm
        ++ (codes " (PID "
            ++ (format_uint event.pid ++ (codes ") opened file: " ++ cstring event.fname))))

-- The case `event := <-eventChan` at this time. It cannot panic.
unfoldable pub to_log : Option Bytes → Time → OpensnoopEvent → Option Log
unfolding message hostname_or_unknown
to_log host now event = some (record {
  time = now;
  level = codes "info";
  message = message event;
  attributes = attributes (codes "opensnoop") (hostname_or_unknown host);
})

-- The goroutine and the loop of `Run`, and `Stop`: the steps of Inputs/Reader, with the name that
-- `os.Hostname` gave, or none.
unfoldable pub run :
    Option Bytes
    → List Reader.Step
    → Reader.Reader OpensnoopEvent
    → Option (Reader.Reader OpensnoopEvent)
run host ss r = Reader.run decode (to_log host) ss r
