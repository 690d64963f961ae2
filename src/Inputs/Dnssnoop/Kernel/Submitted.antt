-- ===== src/Inputs/Dnssnoop/Kernel/Submitted.antt =====
-- The events that dnssnoop.bpf.c submits, and what the plugin makes of them.
use mathlib.Core.Path.{subst}
use arbutus.Base.{
  ℕ, zero, suc, ◌^◌, ◌≤◌, ◌<◌, ◌≡◌, refl, ap, ◌∙◌, inl, inr, some, drop, length, length-append,
  length-drop, ltb, ◌==◌, ◌&&◌, arith, Bytes, Bool-cases, some_eq,
}
use arbutus.Inputs.Dnssnoop.Event.{IsEvent}
use arbutus.Inputs.Dnssnoop.Kernel.{
  Call, Iovec, zeros, identified, embedded_iovec, locate, data_len, clamp, overwrite, probe_either,
  read_payload, fill, dns_send,
}
use arbutus.Inputs.Dnssnoop.{DnssnoopEvent}

-- What is documented of the helpers: sizes of what they write, and ranges of what they return.
pub record IsDocumented (c : Call) : Type 0 where
  pub comm_size : length c.comm ≡ 16
  pub daddr_range : c.daddr < 2 ^ 32
  pub user_size : (n p : ℕ) → length (c.probe_user n p).bytes ≡ n
  pub kernel_size : (n p : ℕ) → length (c.probe_kernel n p).bytes ≡ n

length-zeros : (n : ℕ) → length (zeros n) ≡ n
length-zeros zero = refl
length-zeros (suc n) = ap suc (length-zeros n)

length-overwrite :
    (part payload : Bytes)
    → length part ≤ length payload
    → length (overwrite part payload) ≡ length payload
length-overwrite part payload h =
    omega
      (arith, h, length-append part (drop (length part) payload), length-drop (length part) payload)

clamp_le : (n : ℕ) → clamp n ≤ 256
unfolding clamp
clamp_le n = ground arith

length-probe_either : (c : Call) (n p : ℕ) → IsDocumented c → length (probe_either c n p).bytes ≡ n
unfolding probe_either
length-probe_either c n p d = elim (Bool-cases (c.probe_user n p).ok) [
  | inl q ↦ rw q (d.user_size n p)
  | inr q ↦ rw q (d.kernel_size n p)
]

-- An event with a payload no longer than its array.
pub record Fits (e : DnssnoopEvent) : Type 0 where
  pub event : IsEvent e
  pub fits : e.payload_len ≤ 256

identified-Fits : (c : Call) → IsDocumented c → Fits (identified c)
unfolding identified
identified-Fits c d = record {
  event = record {
    pid_range = omega arith;
    comm_size = d.comm_size;
    ip_range = d.daddr_range;
    len_range = omega arith;
    payload_size = length-zeros 256;
  };
  fits = omega arith;
}

read_payload-Fits :
    (c : Call) (n p : ℕ) (e : DnssnoopEvent)
    → IsDocumented c
    → n ≤ 256
    → Fits e
    → Fits (read_payload c n p e)
unfolding read_payload
read_payload-Fits c n p e d small h =
    let size : length (overwrite (probe_either c n p).bytes e.payload) ≡ 256 =
      length-overwrite (probe_either c n p).bytes e.payload
        (omega (arith, small, length-probe_either c n p d, h.event.payload_size))
      ∙ h.event.payload_size in
    record {
      event = record {
        pid_range = h.event.pid_range;
        comm_size = h.event.comm_size;
        ip_range = h.event.ip_range;
        len_range = ground (arith, small);
        payload_size = size;
      };
      fits = ground (arith, small);
    }

fill-Fits : (c : Call) (v : Iovec) (e : DnssnoopEvent) → IsDocumented c → Fits e → Fits (fill c v e)
unfolding fill
fill-Fits c v e d h = elim (Bool-cases (v.iov_base == 0 && ltb 0 c.count)) [
  | inl q ↦ rw q h
  | inr q ↦ elim (Bool-cases (clamp (data_len c v) == 0)) [
    | inl r ↦ rw (q, r) h
    | inr r ↦
        rw (q, r)
          (read_payload-Fits c (clamp (data_len c v)) v.iov_base e d (clamp_le (data_len c v)) h)
  ]
]

-- Whatever the helpers answer, an event that is submitted has the layout of the struct, and a payload
-- length within its array.
pub dns_send-Fits : (c : Call) {e : DnssnoopEvent} → IsDocumented c → dns_send c ≡ some e → Fits e
unfolding dns_send
dns_send-Fits c {e} d h = elim (Bool-cases (c.dport == 53)) [
  | inl q ↦ elim (Bool-cases c.has_room) [
    | inl r ↦
        subst Fits (some_eq (rw (q, r, dns_send) at h))
          (fill-Fits c (locate c (embedded_iovec c)) (identified c) d (identified-Fits c d))
    | inr r ↦ cc (rw (q, r, dns_send) at h)
  ]
  | inr q ↦ cc (rw (q, dns_send) at h)
]
