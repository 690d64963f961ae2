-- ===== src/Inputs/Dnssnoop/Tests/Sending.antt =====
-- curl asks for example.com; then a call that has nothing to do with DNS.
use mathlib.Core.List.{Sublistᴰ}
use arbutus.Base.{
  ℕ, zero, suc, ◌*◌, ◌+◌, ◌^◌, ◌≡◌, ◌≢◌, refl, ap, true, false, List, [], ◌∷◌, ◌++◌, some, none,
  length, arith, Bytes, codes,
}
use arbutus.Inputs.Dnssnoop.Event.{wire}
use arbutus.Inputs.Dnssnoop.Kernel.Records.{run-dns_send}
use arbutus.Inputs.Dnssnoop.Kernel.Sent.{Sends, words, dns_send-to_log}
use arbutus.Inputs.Dnssnoop.Kernel.Submitted.{IsDocumented}
use arbutus.Inputs.Dnssnoop.Kernel.{Call, data_len, locate, embedded_iovec, dns_send}
use arbutus.Inputs.Dnssnoop.Tests.{
  zeros, header, labels, question, packet, labels-IsLabel, lookup_event, one_event, logged,
  run-one_event,
}
use arbutus.Inputs.Dnssnoop.{DnssnoopEvent, decode, to_log}
use arbutus.Inputs.Reader.Passes.{Taken, events_of, logs_of}
use arbutus.Inputs.Reader.Traced.{submitted}
use arbutus.Inputs.Reader.{panicked}
use arbutus.Inputs.Wire.{attributes, hostname_or_unknown}
use arbutus.Models.{pos}

-- The first bytes of a memory that is zero behind these.
abbrev exactly : ℕ → Bytes → Bytes
exactly zero b = []
exactly (suc n) [] = 0 ∷ exactly n []
exactly (suc n) (x ∷ b) = x ∷ exactly n b

length-exactly : (n : ℕ) (b : Bytes) → length (exactly n b) ≡ n
length-exactly zero b = refl
length-exactly (suc n) [] = ap suc (length-exactly n [])
length-exactly (suc n) (x ∷ b) = ap suc (length-exactly n b)

-- The iovec has base 16 and length 29; the packet is in user memory.
abbrev asks : ℕ → Call
asks port = record {
  dport = port;
  has_room = true;
  pid_tgid = 4242 * 2 ^ 32 + 4243;
  comm = codes "curl" ++ zeros 12;
  daddr = 16843009;
  count = 29;
  has_ubuf_iovec = true;
  ubuf_iovec = record { bytes = 16 ∷ zeros 7 ++ (29 ∷ zeros 7); ok = true };
  has_iov = false;
  iov = 0;
  probe_user = λ n p. record { bytes = exactly n packet; ok = true };
  probe_kernel = λ n p. record { bytes = exactly n []; ok = false };
}

asks-IsDocumented : (port : ℕ) → IsDocumented (asks port)
asks-IsDocumented port = record {
  comm_size = refl;
  daddr_range = omega arith;
  user_size = λ n p. length-exactly n packet;
  kernel_size = λ n p. length-exactly n [];
}

asks-Sends : Sends (asks 53) packet
unfolding data_len locate embedded_iovec
asks-Sends = record {
  port = refl;
  room = refl;
  base = λ e. omega (arith, e);
  size = refl;
  small = omega arith;
  nonempty = omega arith;
  memory = refl;
}

dns_send-to_log_example :
    (e : DnssnoopEvent) × (dns_send (asks 53) ≡ some e)
    × (decode (wire e []) ≡ some e)
    × (to_log none (pos 1) e
        ≡ some (record {
          time = pos 1;
          level = codes "info";
          message = words (asks 53) (codes "curl") labels;
          attributes = attributes (codes "dnssnoop") (hostname_or_unknown none);
        }))
dns_send-to_log_example =
    dns_send-to_log none (pos 1) (asks 53) header labels question (codes "curl") (zeros 11)
      (asks-IsDocumented 53) refl labels-IsLabel asks-Sends refl
      ((λ e. omega arith), ((λ e. omega arith), ((λ e. omega arith), ((λ e. omega arith), tt))))

abbrev calls : List Call
calls = asks 53 ∷ asks 443 ∷ []

sent : submitted dns_send calls ≡ lookup_event ∷ []
unfolding dns_send
sent = refl

run-dns_send_example :
    (logged.loop ≢ panicked)
    × ((taken : Taken decode (to_log none)) × (logged.logs ≡ logs_of decode (to_log none) taken)
        × Sublistᴰ
            (events_of decode (to_log none) taken ++ logged.events)
            (submitted dns_send calls))
run-dns_send_example =
    run-dns_send none calls one_event [] {r = logged}
      (asks-IsDocumented 53, (asks-IsDocumented 443, tt)) (rw sent refl) run-one_event
