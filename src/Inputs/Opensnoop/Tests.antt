-- ===== src/Inputs/Opensnoop/Tests.antt =====
-- `cat` opens a file.
use arbutus.Base.{
  ℕ, zero, suc, ◌*◌, ◌+◌, ◌^◌, ◌≡◌, refl, Bool, true, false, List, [], ◌∷◌, ◌++◌, map, length, none,
  some, arith, Bytes, codes, format_uint,
}
use arbutus.Inputs.Opensnoop.Event.{opened, layout}
use arbutus.Inputs.Opensnoop.Kernel.Kept.{had_room, run-openat_kept}
use arbutus.Inputs.Opensnoop.Kernel.Messages.{IsDocumented, words}
use arbutus.Inputs.Opensnoop.Kernel.{Call, sys_enter_openat}
use arbutus.Inputs.Opensnoop.{OpensnoopEvent, message, decode, to_log, run}
use arbutus.Inputs.Reader
use arbutus.Inputs.Reader.Traced.{submitted}
use arbutus.Inputs.Reader.{Reader, Step, testing, reads, tests, on_event, started}
use arbutus.Inputs.Wire.{attributes, cstring}
use arbutus.Models.{Log, pos}

abbrev zeros : ℕ → Bytes
zeros zero = []
zeros (suc n) = 0 ∷ zeros n

abbrev opening : OpensnoopEvent
opening = opened 17 1000 0 (codes "cat") (zeros 12) (codes "/etc/hosts") (zeros 245)

-- The calls: cat opens a file, then one for which the ring buffer has no room.
abbrev opens : Bool → Call
opens has_room = record {
  has_room = has_room;
  pid_tgid = 17 * 2 ^ 32 + 18;
  uid_gid = 1000;
  comm = codes "cat";
  comm_rest = zeros 12;
  fname = codes "/etc/hosts";
  fname_rest = zeros 245;
}

opens-IsDocumented : (has_room : Bool) → IsDocumented (opens has_room)
opens-IsDocumented has_room = record {
  comm_size = refl;
  comm_text = ground arith;
  fname_size = refl;
  fname_text = ground arith;
}

abbrev calls : List Call
calls = opens true ∷ opens false ∷ []

abbrev one_event : List Step
one_event = tests ∷ reads (layout opening []) ∷ on_event (pos 1) ∷ []

abbrev logged : Reader OpensnoopEvent
logged = record {
  reading = true;
  events = [];
  errors = none;
  running = true;
  cancelled = false;
  closed = false;
  loop = testing;
  logs =
      record {
        time = pos 1;
        level = codes "info";
        message = codes "Process cat (PID 17) opened file: /etc/hosts";
        attributes = attributes (codes "opensnoop") (codes "unknown");
      }
      ∷ [];
}

run-one_event : run none one_event started ≡ some logged
unfolding run Reader.run decode to_log cstring format_uint
run-one_event = refl

sent : submitted sys_enter_openat calls ≡ opening ∷ []
unfolding sys_enter_openat
sent = refl

run-openat_kept_example :
    (later : List OpensnoopEvent) × (length later ≡ 0)
    × (map (λ (l : Log). l.message) logged.logs ++ map message later ≡ map words (had_room calls))
run-openat_kept_example =
    run-openat_kept none calls one_event [] {r = logged}
      (opens-IsDocumented true, (opens-IsDocumented false, tt)) (rw sent refl)
      (rw sent (omega arith)) run-one_event
