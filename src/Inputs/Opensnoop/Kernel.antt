-- ===== src/Inputs/Opensnoop/Kernel.antt =====
-- internal/plugins/inputs/opensnoop/opensnoop.bpf.c: the program at the entry of the system call openat.
-- What the helpers of the kernel give during one call is the record `Call`.
pub mod Messages
pub mod Kept
use arbutus.Base.{ℕ, ◌/◌, ◌%◌, ◌^◌, Bool, ◌∷◌, ◌++◌, Option, none, some, Bytes, if◌then◌else◌}
use arbutus.Inputs.Opensnoop.{OpensnoopEvent}

pub record Call : Type 0 where
  -- `bpf_ringbuf_reserve` has room
  pub has_room : Bool
  pub pid_tgid : ℕ
  pub uid_gid : ℕ
  -- what `bpf_get_current_comm` writes to the array: the name, a zero, and the bytes behind
  pub comm : Bytes
  pub comm_rest : Bytes
  -- what `bpf_probe_read_user_str` leaves in the array, in the same form
  pub fname : Bytes
  pub fname_rest : Bytes

-- `struct event` as it is submitted, if it is.
unfoldable pub sys_enter_openat : Call → Option OpensnoopEvent
sys_enter_openat c =
    if c.has_room
    then some (record {
      pid = c.pid_tgid / 2 ^ 32 % 2 ^ 32;
      uid = c.uid_gid % 2 ^ 32;
      ret = 0;
      comm = c.comm ++ 0 ∷ c.comm_rest;
      fname = c.fname ++ 0 ∷ c.fname_rest;
    })
    else none
