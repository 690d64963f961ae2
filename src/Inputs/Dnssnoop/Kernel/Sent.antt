-- ===== src/Inputs/Dnssnoop/Kernel/Sent.antt =====
-- A packet that a process sends to port 53, from udp_sendmsg to the log.
use arbutus.Base.{
  ℕ, ◌/◌, ◌%◌, ◌^◌, ◌≤◌, ◌<◌, ◌≡◌, ◌≢◌, refl, ap, ◌∙◌, true, false, List, [], ◌∷◌, ◌++◌, Option,
  some, drop, length, ◌==◌, arith, Bytes, codes, format_uint, join, All,
}
use arbutus.Inputs.Dnssnoop.Event.{wire, decode-wire, dns_query-packet}
use arbutus.Inputs.Dnssnoop.Kernel.Submitted.{dns_send-Fits, IsDocumented}
use arbutus.Inputs.Dnssnoop.Kernel.{
  Call, identified, embedded_iovec, locate, data_len, clamp, overwrite, probe_either, read_payload,
  fill, dns_send,
}
use arbutus.Inputs.Dnssnoop.Query.RoundTrip.{encode, IsLabel}
use arbutus.Inputs.Dnssnoop.{DnssnoopEvent, decode, dns_query, message, octets, dotted_quad, to_log}
use arbutus.Inputs.Wire.Laws.{IsText, cstring_closed}
use arbutus.Inputs.Wire.{hostname_or_unknown, attributes}
use arbutus.Models.{Time}

-- A call that sends this packet to port 53, with room in the ring buffer and memory that can be read.
pub record Sends (c : Call) (packet : Bytes) : Type 0 where
  pub port : c.dport ≡ 53
  pub room : c.has_room ≡ true
  pub base : (locate c (embedded_iovec c)).iov_base ≢ 0
  pub size : data_len c (locate c (embedded_iovec c)) ≡ length packet
  pub small : length packet ≤ 256
  pub nonempty : 0 < length packet
  pub memory :
      probe_either c (length packet) (locate c (embedded_iovec c)).iov_base
      ≡ record { bytes = packet; ok = true }

-- The event of such a call.
abbrev pub event_of : Call → Bytes → DnssnoopEvent
event_of c packet = record (identified c) {
  payload_len = length packet;
  payload = overwrite packet (identified c).payload;
}

clamp_small : (n : ℕ) → n ≤ 256 → clamp n ≡ n
unfolding clamp
clamp_small n h = ground arith

read_payload-packet :
    (c : Call) (p : ℕ) (packet : Bytes) (e : DnssnoopEvent)
    → probe_either c (length packet) p ≡ record { bytes = packet; ok = true }
    → read_payload c (length packet) p e
      ≡ record e { payload_len = length packet; payload = overwrite packet e.payload }
unfolding read_payload
read_payload-packet c p packet e h = rw h refl

pub dns_send-event_of :
    (c : Call) (packet : Bytes) → Sends c packet → dns_send c ≡ some (event_of c packet)
unfolding dns_send fill
dns_send-event_of c packet s =
    let v = locate c (embedded_iovec c) in
    let size : clamp (data_len c v) ≡ length packet =
      ap clamp s.size ∙ clamp_small (length packet) s.small in
    let based : v.iov_base == 0 ≡ false = ground (arith, s.base) in
    let some_bytes : length packet == 0 ≡ false = ground (arith, s.nonempty) in
    rw (s.port, s.room, based, size, some_bytes)
      (ap some (read_payload-packet c v.iov_base packet (identified c) s.memory))

-- What the message says of a call: the process, the address and the name that is asked for.
abbrev pub words : Call → Bytes → List Bytes → Bytes
words c comm labels =
    codes "DNS Query: pid="
    ++ (format_uint (c.pid_tgid / 2 ^ 32 % 2 ^ 32)
        ++ (codes " comm="
            ++ (comm
                ++ (codes " dst_ip="
                    ++ (dotted_quad (octets c.daddr)
                        ++ (codes " query=" ++ join (codes ".") labels))))))

to_log-some :
    (host : Option Bytes) (now : Time) (e : DnssnoopEvent) (query : Bytes)
    → dns_query e ≡ some query
    → to_log host now e
      ≡ some (record {
        time = now;
        level = codes "info";
        message = message e query;
        attributes = attributes (codes "dnssnoop") (hostname_or_unknown host);
      })
unfolding to_log
to_log-some host now e query h = rw (h, to_log) refl

message-event_of :
    (c : Call) (packet : Bytes) (comm pad : Bytes) (labels : List Bytes)
    → c.comm ≡ comm ++ 0 ∷ pad
    → IsText comm
    → message (event_of c packet) (join (codes ".") labels) ≡ words c comm labels
unfolding message identified
message-event_of c packet comm pad labels h t = rw (h, cstring_closed comm pad t) refl

-- If a process sends a DNS packet of at most 256 bytes to port 53, with a name that the parser reads,
-- there is room in the ring buffer and the packet can be read, then the program submits an event, the
-- plugin reads the same event back, and its log names the process, the address and the name asked for.
pub dns_send-to_log :
    (host : Option Bytes) (now : Time) (c : Call) (header : Bytes) (labels : List Bytes)
    (rest comm pad : Bytes)
    → IsDocumented c
    → length header ≡ 12
    → All IsLabel labels
    → Sends c (header ++ encode labels rest)
    → c.comm ≡ comm ++ 0 ∷ pad
    → IsText comm
    → (e : DnssnoopEvent) × (dns_send c ≡ some e)
      × (decode (wire e []) ≡ some e)
      × (to_log host now e
          ≡ some (record {
            time = now;
            level = codes "info";
            message = words c comm labels;
            attributes = attributes (codes "dnssnoop") (hostname_or_unknown host);
          }))
dns_send-to_log host now c header labels rest comm pad d h ls s name text =
    let packet = header ++ encode labels rest in
    let e = event_of c packet in
    let sent = dns_send-event_of c packet s in
    let query =
      dns_query-packet e header labels rest (drop (length packet) (identified c).payload) h ls refl
        refl in
    (
      e,
      sent,
      decode-wire e [] (dns_send-Fits c {e = e} d sent).event,
      rw (message-event_of c packet comm pad labels name text) at
          (to_log-some host now e (join (codes ".") labels) query),
    )
