-- ===== src/Inputs/Dnssnoop/Kernel.antt =====
-- internal/plugins/inputs/dnssnoop/dnssnoop.bpf.c: `dns_send`, the program at the entry of
-- udp_sendmsg. What the helpers of the kernel do during one call is the record `Call`.
pub mod Submitted
pub mod Sent
pub mod Records
use arbutus.Base.{
  ℕ, zero, suc, ◌/◌, ◌%◌, ◌^◌, Bool, true, List, [], ◌∷◌, ◌++◌, Option, none, some, drop, length,
  ltb, ◌&&◌, ◌==◌, Bytes, if◌then◌else◌,
}
use arbutus.Inputs.Dnssnoop.{DnssnoopEvent}
use arbutus.Inputs.Wire.{little_endian, field}

-- What a read of memory leaves at its destination, and whether it succeeded.
pub record Probe : Type 0 where
  pub bytes : Bytes
  pub ok : Bool

-- One call of udp_sendmsg, as the helpers show it.
pub record Call : Type 0 where
  -- the port that the socket sends to, after `bpf_ntohs`
  pub dport : ℕ
  -- `bpf_ringbuf_reserve` has room
  pub has_room : Bool
  pub pid_tgid : ℕ
  -- the 16 bytes that `bpf_get_current_comm` writes
  pub comm : Bytes
  pub daddr : ℕ
  -- `msg_iter.count`
  pub count : ℕ
  -- whether the kernel has the field, and the read of it
  pub has_ubuf_iovec : Bool
  pub ubuf_iovec : Probe
  pub has_iov : Bool
  -- what the read of the field leaves in `iov_ptr`
  pub iov : ℕ
  -- `bpf_probe_read_user` and `bpf_probe_read_kernel`, by size and address
  pub probe_user : ℕ → ℕ → Probe
  pub probe_kernel : ℕ → ℕ → Probe

abbrev pub zeros : ℕ → Bytes
zeros zero = []
zeros (suc n) = 0 ∷ zeros n

-- `struct dns_event` after `__builtin_memset`
abbrev pub zeroed : DnssnoopEvent
zeroed = record { pid = 0; comm = zeros 16; dst_ip = 0; payload_len = 0; payload = zeros 256 }

unfoldable pub identified : Call → DnssnoopEvent
identified c = record zeroed { pid = c.pid_tgid / 2 ^ 32 % 2 ^ 32; comm = c.comm; dst_ip = c.daddr }

-- `struct iovec`: where the data is, and how much.
pub record Iovec : Type 0 where
  pub iov_base : ℕ
  pub iov_len : ℕ

unfoldable pub iovec_of : Bytes → Iovec
unfolding little_endian field
iovec_of b = record {
  iov_base = little_endian (field 0 8 b);
  iov_len = little_endian (field 8 8 b);
}

-- The read of the field `__ubuf_iovec`, on kernels that have it.
unfoldable pub embedded_iovec : Call → Iovec
unfolding iovec_of
embedded_iovec c =
    if c.has_ubuf_iovec && c.ubuf_iovec.ok
    then iovec_of c.ubuf_iovec.bytes
    else record { iov_base = 0; iov_len = 0 }

-- `if (bpf_probe_read_user(dst, size, ptr) < 0) bpf_probe_read_kernel(dst, size, ptr)`
unfoldable pub probe_either : Call → ℕ → ℕ → Probe
probe_either c size ptr =
    let user = c.probe_user size ptr in if user.ok then user else c.probe_kernel size ptr

-- `iov_ptr`: null on kernels without the field `__iov`.
unfoldable pub iov_ptr : Call → ℕ
iov_ptr c = if c.has_iov then c.iov else 0

-- With no base in the first iovec, the one that `__iov` points to.
unfoldable pub locate : Call → Iovec → Iovec
unfolding iovec_of probe_either iov_ptr
locate c v =
    if v.iov_base == 0
    then if iov_ptr c == 0 then v else iovec_of (probe_either c 16 (iov_ptr c)).bytes
    else v

-- `data_len`, which a shorter iovec cuts
unfoldable pub data_len : Call → Iovec → ℕ
data_len c v = if ltb 0 v.iov_len && ltb v.iov_len c.count then v.iov_len else c.count

-- `u32 payload_len = data_len`, cut to the size of the array
unfoldable pub clamp : ℕ → ℕ
clamp n = if ltb 256 (n % 2 ^ 32) then 256 else n % 2 ^ 32

-- The payload with these bytes written at its start.
abbrev pub overwrite : Bytes → Bytes → Bytes
overwrite part payload = part ++ drop (length part) payload

-- `e->payload_len` is taken back if neither read succeeds.
unfoldable pub read_payload : Call → ℕ → ℕ → DnssnoopEvent → DnssnoopEvent
unfolding probe_either
read_payload c size ptr e =
    let got = probe_either c size ptr in
    record e { payload_len = if got.ok then size else 0; payload = overwrite got.bytes e.payload }

-- From the test of the iovec to the label `submit`.
unfoldable pub fill : Call → Iovec → DnssnoopEvent → DnssnoopEvent
unfolding data_len clamp read_payload
fill c v e =
    if v.iov_base == 0 && ltb 0 c.count
    then e
    else if clamp (data_len c v) == 0
    then e
    else read_payload c (clamp (data_len c v)) v.iov_base e

-- The event that is submitted, if one is.
unfoldable pub dns_send : Call → Option DnssnoopEvent
unfolding identified embedded_iovec locate fill
dns_send c =
    if c.dport == 53
    then if c.has_room then some (fill c (locate c (embedded_iovec c)) (identified c)) else none
    else none
