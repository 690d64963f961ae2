-- ===== src/Inputs/Dnssnoop/Kernel/Records.antt =====
-- Runs of the plugin on the records that dnssnoop.bpf.c submits.
use mathlib.Core.List.{Sublistᴰ}
use mathlib.Core.Path.{subst}
use arbutus.Base.{
  ◌≤◌, ◌≡◌, ◌≢◌, sym, ◌∙◌, List, [], ◌∷◌, ◌++◌, map, Option, some, Bytes, All, some_eq,
}
use arbutus.Inputs.Dnssnoop.Event.{wire, decode-wire}
use arbutus.Inputs.Dnssnoop.Kernel.Submitted.{Fits, IsDocumented, dns_send-Fits}
use arbutus.Inputs.Dnssnoop.Kernel.{Call, dns_send}
use arbutus.Inputs.Dnssnoop.Run.{Bounded, run-Bounded}
use arbutus.Inputs.Dnssnoop.{DnssnoopEvent, decode, to_log, run}
use arbutus.Inputs.Reader.Passes.{Taken, events_of, logs_of}
use arbutus.Inputs.Reader.Traced.{
  samples, submitted, All-prefix, All-submitted, Returns, run-traced,
}
use arbutus.Inputs.Reader.{Reader, Step, reads, started, panicked}

-- An event as a record of the ring buffer.
abbrev pub memory : DnssnoopEvent → Bytes
memory e = wire e []

-- A record whose event claims no payload longer than its array.
Bounds : Bytes → Type 0
Bounds sample = (e : DnssnoopEvent) → decode sample ≡ some e → e.payload_len ≤ 256

samples-Bounded : (ss : List Step) → All Bounds (samples ss) → Bounded ss
unfolding Bounds
samples-Bounded [] h = tt
samples-Bounded (reads sample ∷ ss) h = (h.0, samples-Bounded ss h.1)
samples-Bounded (_ ∷ ss) h = samples-Bounded ss h

memory-Bounds : (es : List DnssnoopEvent) → All Fits es → All Bounds (map memory es)
unfolding Bounds
memory-Bounds [] h = tt
memory-Bounds (e ∷ es) h = (
  (λ d q.
      let same = some_eq (sym (decode-wire e [] h.0.event) ∙ q) in
      subst (λ (x : DnssnoopEvent). x.payload_len ≤ 256) same h.0.fits),
  memory-Bounds es h.1,
)

memory-Returns :
    (host : Option Bytes) (es : List DnssnoopEvent)
    → All Fits es
    → All (Returns decode (to_log host) memory) es
memory-Returns host [] h = tt
memory-Returns host (e ∷ es) h = (decode-wire e [] h.0.event, memory-Returns host es h.1)

-- If the records that are read are the first of those that the eBPF program submits in these calls of
-- udp_sendmsg, then in no run does the loop of the plugin panic, whatever was sent; and what reached
-- the accumulator are the logs of submitted events, in their order and none twice.
pub run-dns_send :
    (host : Option Bytes) (cs : List Call) (ss : List Step) (unread : List Bytes)
    {r : Reader DnssnoopEvent}
    → All IsDocumented cs
    → samples ss ++ unread ≡ map memory (submitted dns_send cs)
    → run host ss started ≡ some r
    → (r.loop ≢ panicked)
      × ((taken : Taken decode (to_log host)) × (r.logs ≡ logs_of decode (to_log host) taken)
          × Sublistᴰ (events_of decode (to_log host) taken ++ r.events) (submitted dns_send cs))
unfolding run
run-dns_send host cs ss unread {r} d q e =
    let fits = All-submitted dns_send IsDocumented Fits (λ c e. dns_send-Fits c {e = e}) cs d in
    (
      run-Bounded host ss {r = r}
          (samples-Bounded ss (
            All-prefix Bounds (samples ss) unread
              (subst (All Bounds) (sym q) (memory-Bounds (submitted dns_send cs) fits))))
          e,
      (run-traced decode (to_log host) memory (submitted dns_send cs) ss unread {r = r}
          (memory-Returns host (submitted dns_send cs) fits) q e).0,
    )
