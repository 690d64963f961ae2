-- ===== src/Inputs/Dnssnoop.antt =====
-- internal/plugins/inputs/dnssnoop/dnssnoop.go: the struct that comes out of the ring buffer, and what
-- the loop of `Run` makes of it. Strings of an array are values here: the array is not written again.
pub mod Query
pub mod Event
pub mod Run
pub mod Kernel
mod Tests
use arbutus.Base.{
  ℕ, suc, ◌+◌, ◌/◌, ◌%◌, ◌≡◌, Bool, List, [], ◌∷◌, ◌++◌, Option, none, some, length, ltb, Bytes,
  codes, format_uint, if◌then◌else◌,
}
use arbutus.Inputs.Reader
use arbutus.Inputs.Wire.{cstring, little_endian, field, hostname_or_unknown, attributes}
use arbutus.Models.{Log, Time}
use Query.{slice, parse_dns_query}

pub record DnssnoopEvent : Type 0 where
  pub pid : ℕ
  pub comm : Bytes
  pub dst_ip : ℕ
  pub payload_len : ℕ
  pub payload : Bytes

abbrev pub event_size : ℕ
event_size = 284

-- `binary.Read(..., binary.LittleEndian, &event)`
unfoldable pub decode : Bytes → Option DnssnoopEvent
unfolding little_endian field
decode sample =
    if ltb (length sample) event_size
    then none
    else some (record {
      pid = little_endian (field 0 4 sample);
      comm = field 4 16 sample;
      dst_ip = little_endian (field 20 4 sample);
      payload_len = little_endian (field 24 4 sample);
      payload = field 28 256 sample;
    })

-- `byte(x >> k)` for k = 0, 8, 16, 24
abbrev pub octets : ℕ → List ℕ
octets x = x % 256 ∷ x / 256 % 256 ∷ x / 65536 % 256 ∷ x / 16777216 % 256 ∷ []

pub dotted_quad : List ℕ → Bytes
dotted_quad [] = []
dotted_quad (x ∷ []) = format_uint x
dotted_quad (x ∷ y ∷ xs) = format_uint x ++ (b'.' ∷ dotted_quad (y ∷ xs))

-- The query of an event; `none` if `event.Payload[:event.PayloadLen]` is out of range.
unfoldable pub dns_query : DnssnoopEvent → Option Bytes
dns_query event =
    if ltb 12 event.payload_len
    then elim (slice event.payload 0 event.payload_len) [
      | none ↦ none
      | some payload ↦ parse_dns_query payload
    ]
    else some []

unfoldable pub message : DnssnoopEvent → Bytes → Bytes
unfolding dotted_quad
message event query =
    codes "DNS Query: pid="
    ++ (format_uint event.pid
        ++ (codes " comm="
            ++ (cstring event.comm
                ++ (codes " dst_ip="
                    ++ (dotted_quad (octets event.dst_ip) ++ (codes " query=" ++ query))))))

-- The case `event := <-eventChan` at this time; `none` is a panic.
unfoldable pub to_log : Option Bytes → Time → DnssnoopEvent → Option Log
unfolding dns_query message hostname_or_unknown
to_log host now event = elim (dns_query event) [
  | none ↦ none
  | some query ↦ some (record {
    time = now;
    level = codes "info";
    message = message event query;
    attributes = attributes (codes "dnssnoop") (hostname_or_unknown host);
  })
]

-- The goroutine and the loop of `Run`, and `Stop`: the steps of Inputs/Reader, with the name that
-- `os.Hostname` gave, or none.
unfoldable pub run :
    Option Bytes
    → List Reader.Step
    → Reader.Reader DnssnoopEvent
    → Option (Reader.Reader DnssnoopEvent)
run host ss r = Reader.run decode (to_log host) ss r
