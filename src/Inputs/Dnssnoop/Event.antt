-- ===== src/Inputs/Dnssnoop/Event.antt =====
-- From the bytes of a ring buffer record to the log.
use arbutus.Base.{
  ℕ, ◌-◌, ◌≤◌, ◌<◌, ◌^◌, ◌≡◌, refl, ap, ◌∙◌, ◌↔◌, ◌⊎◌, inl, inr, false, List, [], ◌++◌,
  append_assoc, arith, Option, none, some, length, length-append, take, drop, take-length-append,
  ltb, leb, Bytes, codes, join, All, Bool-cases,
}
use arbutus.Inputs.Dnssnoop.Query.RoundTrip.{encode, IsLabel, length-encode, parse_dns_query-encode}
use arbutus.Inputs.Dnssnoop.Query.Total.{parse_dns_query-total}
use arbutus.Inputs.Dnssnoop.Query.{slice}
use arbutus.Inputs.Dnssnoop.{DnssnoopEvent, decode, event_size, dns_query, to_log}
use arbutus.Inputs.Wire.Laws.{u32, little_endian-u32, field-append}
use arbutus.Inputs.Wire.{little_endian, field}
use arbutus.Models.{Time}

-- The sizes and ranges of the C struct `dns_event`.
pub record IsEvent (e : DnssnoopEvent) : Type 0 where
  pub pid_range : e.pid < 2 ^ 32
  pub comm_size : length e.comm ≡ 16
  pub ip_range : e.dst_ip < 2 ^ 32
  pub len_range : e.payload_len < 2 ^ 32
  pub payload_size : length e.payload ≡ 256

-- The struct in memory, and the bytes behind it.
abbrev pub wire : DnssnoopEvent → Bytes → Bytes
wire e rest = u32 e.pid ++ (e.comm ++ (u32 e.dst_ip ++ (u32 e.payload_len ++ (e.payload ++ rest))))

DnssnoopEvent_eq :
    (pid dst_ip payload_len : ℕ) (comm payload : Bytes) (e : DnssnoopEvent)
    → pid ≡ e.pid
    → comm ≡ e.comm
    → dst_ip ≡ e.dst_ip
    → payload_len ≡ e.payload_len
    → payload ≡ e.payload
    → some (record {
      pid = pid;
      comm = comm;
      dst_ip = dst_ip;
      payload_len = payload_len;
      payload = payload;
    })
      ≡ some e
DnssnoopEvent_eq pid dst_ip payload_len comm payload e p c d l b =
    λ i. some (record { pid = p i; comm = c i; dst_ip = d i; payload_len = l i; payload = b i })

abbrev after_len : DnssnoopEvent → Bytes → Bytes
after_len e rest = e.payload ++ rest

abbrev after_ip : DnssnoopEvent → Bytes → Bytes
after_ip e rest = u32 e.payload_len ++ after_len e rest

abbrev after_comm : DnssnoopEvent → Bytes → Bytes
after_comm e rest = u32 e.dst_ip ++ after_ip e rest

abbrev after_pid : DnssnoopEvent → Bytes → Bytes
after_pid e rest = e.comm ++ after_comm e rest

long :
    (e : DnssnoopEvent) (rest : Bytes) → IsEvent e → ltb (length (wire e rest)) event_size ≡ false
long e rest h =
    ground (arith, length-append e.comm (after_comm e rest), length-append e.payload rest)

len_field :
    (e : DnssnoopEvent) (rest : Bytes) → IsEvent e → field 24 4 (wire e rest) ≡ u32 e.payload_len
len_field e rest h = rw (append_assoc e.comm (u32 e.dst_ip) (after_ip e rest)) at (
    field-append (u32 e.pid ++ (e.comm ++ u32 e.dst_ip)) (u32 e.payload_len) (after_len e rest) 24 4
      (omega (arith, h.comm_size, length-append e.comm (u32 e.dst_ip))) refl)

payload_field :
    (e : DnssnoopEvent) (rest : Bytes) → IsEvent e → field 28 256 (wire e rest) ≡ e.payload
payload_field e rest h =
    rw (append_assoc e.comm (u32 e.dst_ip ++ u32 e.payload_len) (after_len e rest)) at (
      field-append (u32 e.pid ++ (e.comm ++ (u32 e.dst_ip ++ u32 e.payload_len))) e.payload rest 28
        256 (omega (arith, h.comm_size, length-append e.comm (u32 e.dst_ip ++ u32 e.payload_len)))
        h.payload_size)

-- Reading back the struct that the kernel side put in the ring buffer gives each of its fields.
pub decode-wire : (e : DnssnoopEvent) (rest : Bytes) → IsEvent e → decode (wire e rest) ≡ some e
unfolding decode
decode-wire e rest h = rw (long e rest h) (
    DnssnoopEvent_eq _ _ _ _ _ e
      (ap little_endian (field-append [] (u32 e.pid) (after_pid e rest) 0 4 refl refl)
        ∙ little_endian-u32 e.pid h.pid_range)
      (field-append (u32 e.pid) e.comm (after_comm e rest) 4 16 refl h.comm_size)
      (ap little_endian (
          field-append (u32 e.pid ++ e.comm) (u32 e.dst_ip) (after_ip e rest) 20 4
            (omega (arith, h.comm_size)) refl)
        ∙ little_endian-u32 e.dst_ip h.ip_range)
      (ap little_endian (len_field e rest h) ∙ little_endian-u32 e.payload_len h.len_range)
      (payload_field e rest h))

-- The query of an event is missing only if the slice is out of range.
dns_query-none_iff :
    (e : DnssnoopEvent)
    → length e.payload ≡ 256
    → ((dns_query e ≡ none) × (256 < e.payload_len))
      ⊎ ((q : Bytes) × (dns_query e ≡ some q) × (e.payload_len ≤ 256))
unfolding dns_query slice
dns_query-none_iff e h =
    let part = take (e.payload_len - 0) (drop 0 e.payload) in
    let (q, total, _) = parse_dns_query-total part in
    elim (Bool-cases (ltb 12 e.payload_len)) [
      | inl long ↦ elim (Bool-cases (leb e.payload_len 256)) [
        | inl fits ↦ inr (q, ground arith, ground arith)
        | inr over ↦ inl (ground arith, ground arith)
      ]
      | inr short ↦ inr ([], ground arith, ground arith)
    ]

-- With the array at its size, a payload length above 256 makes the slice panic, and nothing else does.
pub to_log-panics_iff :
    (host : Option Bytes) (now : Time) (e : DnssnoopEvent)
    → length e.payload ≡ 256
    → (to_log host now e ≡ none) ↔ (256 < e.payload_len)
unfolding to_log
to_log-panics_iff host now e h = elim (dns_query-none_iff e h) [
  | inl (q, over) ↦ ((λ _. over), (λ _. rw (q, to_log)))
  | inr (r, q, fits) ↦ ((λ n. cc (rw (q, to_log) at n)), (λ over. absurd (omega arith)))
]

-- An event that carries a DNS packet, cut to its length and padded, logs the packet's name.
pub dns_query-packet :
    (e : DnssnoopEvent) (header : Bytes) (labels : List Bytes) (rest padding : Bytes)
    → length header ≡ 12
    → All IsLabel labels
    → e.payload ≡ (header ++ encode labels rest) ++ padding
    → e.payload_len ≡ length (header ++ encode labels rest)
    → dns_query e ≡ some (join (codes ".") labels)
unfolding dns_query slice
dns_query-packet e header labels rest padding h hs p l =
    let packet = header ++ encode labels rest in
    ground (
      arith,
      take-length-append packet padding,
      length-append packet padding,
      length-append header (encode labels rest),
      length-encode labels rest,
      parse_dns_query-encode header labels rest h hs,
    )
