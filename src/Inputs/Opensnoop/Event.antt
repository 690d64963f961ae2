-- ===== src/Inputs/Opensnoop/Event.antt =====
-- From the bytes of a ring buffer record to the log.
use arbutus.Base.{
  ℕ, ◌^◌, ◌<◌, ◌≡◌, refl, ap, ◌∙◌, false, [], ◌∷◌, ◌++◌, arith, some, length, length-append, ltb,
  Bytes, codes, format_uint,
}
use arbutus.Inputs.Opensnoop.{OpensnoopEvent, decode, event_size, message}
use arbutus.Inputs.Wire.Laws.{IsText, u32, little_endian-u32, field-append, cstring_closed}
use arbutus.Inputs.Wire.{little_endian}

-- What `struct event` of opensnoop.bpf.c holds: the name of the process and the path, each closed by
-- a zero within its array.
abbrev pub opened : ℕ → ℕ → ℕ → Bytes → Bytes → Bytes → Bytes → OpensnoopEvent
opened pid uid ret comm comm_pad fname fname_pad = record {
  pid = pid;
  uid = uid;
  ret = ret;
  comm = comm ++ 0 ∷ comm_pad;
  fname = fname ++ 0 ∷ fname_pad;
}

-- The struct in memory, and the bytes behind it.
abbrev pub layout : OpensnoopEvent → Bytes → Bytes
layout e rest = u32 e.pid ++ (u32 e.uid ++ (u32 e.ret ++ (e.comm ++ (e.fname ++ rest))))

pub record IsEvent (e : OpensnoopEvent) : Type 0 where
  pub pid_range : e.pid < 2 ^ 32
  pub uid_range : e.uid < 2 ^ 32
  pub ret_range : e.ret < 2 ^ 32
  pub comm_size : length e.comm ≡ 16
  pub fname_size : length e.fname ≡ 256

OpensnoopEvent_eq :
    (pid uid ret : ℕ) (comm fname : Bytes) (e : OpensnoopEvent)
    → pid ≡ e.pid
    → uid ≡ e.uid
    → ret ≡ e.ret
    → comm ≡ e.comm
    → fname ≡ e.fname
    → some (record { pid = pid; uid = uid; ret = ret; comm = comm; fname = fname }) ≡ some e
OpensnoopEvent_eq pid uid ret comm fname e p u r c f =
    λ i. some (record { pid = p i; uid = u i; ret = r i; comm = c i; fname = f i })

long :
    (e : OpensnoopEvent) (rest : Bytes)
    → IsEvent e
    → ltb (length (layout e rest)) event_size ≡ false
long e rest h = ground (arith, length-append e.comm (e.fname ++ rest), length-append e.fname rest)

-- Reading back the struct that the kernel side put in the ring buffer gives each of its fields.
pub decode-layout :
    (e : OpensnoopEvent) (rest : Bytes) → IsEvent e → decode (layout e rest) ≡ some e
unfolding decode
decode-layout e rest h =
    let tail = e.comm ++ (e.fname ++ rest) in
    rw (long e rest h) (
      OpensnoopEvent_eq _ _ _ _ _ e
        (ap little_endian
            (field-append [] (u32 e.pid) (u32 e.uid ++ (u32 e.ret ++ tail)) 0 4 refl refl)
          ∙ little_endian-u32 e.pid h.pid_range)
        (ap little_endian (field-append (u32 e.pid) (u32 e.uid) (u32 e.ret ++ tail) 4 4 refl refl)
          ∙ little_endian-u32 e.uid h.uid_range)
        (ap little_endian (field-append (u32 e.pid ++ u32 e.uid) (u32 e.ret) tail 8 4 refl refl)
          ∙ little_endian-u32 e.ret h.ret_range)
        (field-append (u32 e.pid ++ (u32 e.uid ++ u32 e.ret)) e.comm (e.fname ++ rest) 12 16 refl
          h.comm_size)
        (field-append (u32 e.pid ++ (u32 e.uid ++ (u32 e.ret ++ e.comm))) e.fname rest 28 256
          (omega (arith, h.comm_size)) h.fname_size))

-- The message names the process, its pid and the path, without the padding of the arrays.
pub message-opened :
    (pid uid ret : ℕ) (comm comm_pad fname fname_pad : Bytes)
    → IsText comm
    → IsText fname
    → message (opened pid uid ret comm comm_pad fname fname_pad)
      ≡ codes "Process "
        ++ (comm ++ (codes " (PID " ++ (format_uint pid ++ (codes ") opened file: " ++ fname))))
unfolding message
message-opened pid uid ret comm comm_pad fname fname_pad h k =
    rw (cstring_closed comm comm_pad h, cstring_closed fname fname_pad k)
