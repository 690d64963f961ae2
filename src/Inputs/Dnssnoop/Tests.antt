-- ===== src/Inputs/Dnssnoop/Tests.antt =====
-- A DNS packet for example.com, in an event and on its own.
mod Sending
use arbutus.Base.{
  ℕ, zero, suc, ◌-◌, ◌≤◌, ◌≡◌, ◌≢◌, refl, sym, ap, ◌∙◌, true, false, some_eq, format_uint, List, [],
  ◌∷◌, ◌++◌, none, some, length, arith, Bytes, codes, All,
}
use arbutus.Inputs.Dnssnoop.Run.{Bounded, run-Bounded}
use arbutus.Inputs.Dnssnoop.{DnssnoopEvent, decode, run, to_log}
use arbutus.Inputs.Reader
use arbutus.Inputs.Reader.{Reader, Step, testing, panicked, reads, tests, on_event, started}
use arbutus.Inputs.Wire.{attributes, cstring}
use arbutus.Inputs.Dnssnoop.Event.{IsEvent, wire, decode-wire}
use arbutus.Inputs.Dnssnoop.Query.{parse_dns_query, slice}
use arbutus.Inputs.Dnssnoop.Query.Total.{parse_dns_query-total}
use arbutus.Inputs.Dnssnoop.Query.RoundTrip.{encode, IsLabel, parse_dns_query-encode}
use arbutus.Models.{pos}

abbrev zeros : ℕ → Bytes
zeros zero = []
zeros (suc n) = 0 ∷ zeros n

-- The header of a query with one question.
abbrev header : Bytes
header = 18 ∷ 52 ∷ 1 ∷ 0 ∷ 0 ∷ 1 ∷ zeros 6

abbrev labels : List Bytes
labels = codes "example" ∷ codes "com" ∷ []

-- Type A, class IN.
abbrev question : Bytes
question = 0 ∷ 1 ∷ 0 ∷ 1 ∷ []

abbrev packet : Bytes
packet = header ++ encode labels question

labels-IsLabel : All IsLabel labels
labels-IsLabel = ground arith

-- A label of 192 bytes or more, or one that runs out of the packet, ends the domain.
abbrev truncated : Bytes
truncated = header ++ 3 ∷ b'c' ∷ b'o' ∷ []

parse_dns_query-total_example :
    (domain : Bytes) × (parse_dns_query truncated ≡ some domain)
    × (length domain ≤ length truncated - 12)
parse_dns_query-total_example = parse_dns_query-total truncated

parse_dns_query-encode_example : parse_dns_query packet ≡ some (codes "example.com")
parse_dns_query-encode_example = parse_dns_query-encode header labels question refl labels-IsLabel

abbrev lookup_event : DnssnoopEvent
lookup_event = record {
  pid = 4242;
  comm = codes "curl" ++ zeros 12;
  dst_ip = 16843009;
  payload_len = 29;
  payload = packet ++ zeros 227;
}

abbrev one_event : List Step
one_event = tests ∷ reads (wire lookup_event []) ∷ on_event (pos 1) ∷ []

abbrev logged : Reader DnssnoopEvent
logged = record {
  reading = true;
  events = [];
  errors = none;
  running = true;
  cancelled = false;
  closed = false;
  loop = testing;
  logs =
      record {
        time = pos 1;
        level = codes "info";
        message = codes "DNS Query: pid=4242 comm=curl dst_ip=1.1.1.1 query=example.com";
        attributes = attributes (codes "dnssnoop") (codes "unknown");
      }
      ∷ [];
}

run-one_event : run none one_event started ≡ some logged
unfolding run Reader.run decode to_log slice parse_dns_query format_uint cstring
run-one_event = refl
