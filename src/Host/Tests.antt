-- ===== src/Host/Tests.antt =====
-- cat opens a file, and the next tick of the main loop prints it; then curl asks for nothing.
use mathlib.Core.List.{Sublistᴰ}
use arbutus.Agent
use arbutus.Agent.{ticks, on_tick, takes, writes, returns, selecting}
use arbutus.Base.{
  ℕ, zero, suc, ◌*◌, ◌+◌, ◌^◌, ◌≡◌, ◌≢◌, refl, inl, true, false, List, [], ◌∷◌, ◌++◌, map, none,
  some, Bytes, codes, bytes_eq, GoMap, arith, format_uint,
}
use arbutus.Host.Order.{telemetry}
use arbutus.Host.Queues.{logs_by}
use arbutus.Host.Terminal.{run-terminal, run-calls_told}
use arbutus.Host.{Host, Step, runs, on_opensnoop, hands, put, set, run, started}
use arbutus.Inputs.Fleet.{dnssnoop, memleak, opensnoop}
use arbutus.Inputs.Memleak.Loop
use arbutus.Inputs.Memleak.Tests.Insertion.{insertion}
use arbutus.Inputs.Memleak.{new_memleak}
use arbutus.Inputs.Opensnoop
use arbutus.Inputs.Opensnoop.{OpensnoopEvent}
use arbutus.Inputs.Opensnoop.Event.{opened, layout}
use arbutus.Inputs.Opensnoop.Kernel.Messages.{IsDocumented, words}
use arbutus.Inputs.Opensnoop.Kernel.{Call, sys_enter_openat}
use arbutus.Inputs.Reader
use arbutus.Inputs.Reader.Traced.{submitted}
use arbutus.Inputs.Reader.{testing, panicked, reads, tests, on_event}
use arbutus.Inputs.Wire.{attributes, cstring}
use arbutus.Models.Plugin.Start.{initialize_plugins}
use arbutus.Models.{Log, pos}
use arbutus.Outputs.Console
use arbutus.Outputs.Fleet.Starting
use arbutus.Outputs.Fleet.Starting.{acts, launched}
use arbutus.Outputs.Fleet.Tests.{format, text, os, web}
use arbutus.Outputs.Fleet.{console, Config, new_world, initialize_outputs, write}
use arbutus.Pipeline.{write_to, supports}

abbrev zeros : ℕ → Bytes
zeros zero = []
zeros (suc n) = 0 ∷ zeros n

abbrev opens : Call
opens = record {
  has_room = true;
  pid_tgid = 17 * 2 ^ 32 + 18;
  uid_gid = 1000;
  comm = codes "cat";
  comm_rest = zeros 12;
  fname = codes "/etc/hosts";
  fname_rest = zeros 245;
}

opens-IsDocumented : IsDocumented opens
opens-IsDocumented = record {
  comm_size = refl;
  comm_text = ground arith;
  fname_size = refl;
  fname_text = ground arith;
}

abbrev opening : OpensnoopEvent
opening = opened 17 1000 0 (codes "cat") (zeros 12) (codes "/etc/hosts") (zeros 245)

abbrev cat_log : Log
cat_log = record {
  time = pos 1;
  level = codes "info";
  message = codes "Process cat (PID 17) opened file: /etc/hosts";
  attributes = attributes (codes "opensnoop") (codes "unknown");
}

abbrev from_call_to_screen : List Step
from_call_to_screen =
    on_opensnoop tests
    ∷ on_opensnoop (reads (layout opening []))
    ∷ on_opensnoop (on_event (pos 1))
    ∷ runs (acts ticks)
    ∷ hands opensnoop
    ∷ runs (acts on_tick)
    ∷ runs (acts takes)
    ∷ runs (acts writes)
    ∷ runs (acts returns)
    ∷ []

abbrev configs : GoMap Bytes Config
configs = (codes "console", []) ∷ []

abbrev seen : Host Bytes ℕ ℕ
seen = record {
  program = record {
    agent = record {
      pipeline = record { outputs = console ∷ []; buffer = []; flush_token = false };
      main = selecting;
      senders = 0;
      cancelled = false;
      interrupted = false;
      ticked = false;
      world =
          new_world
            (codes "2025-01-01T00:00:00Z [info] Process cat (PID 17) opened file: /etc/hosts {}\n")
            0 0;
    };
    pending = (console, []) ∷ [];
  };
  opens = record {
    reading = true;
    events = [];
    errors = none;
    running = true;
    cancelled = false;
    closed = false;
    loop = testing;
    logs = cat_log ∷ [];
  };
  asks = Reader.started;
  leaks = (new_memleak, Loop.waiting);
  reported = [];
  queue =
      set opensnoop []
        (put opensnoop (cat_log ∷ []) (put opensnoop [] (put opensnoop [] (λ i. []))));
  order = (opensnoop, cat_log) ∷ [];
}

run-from_call_to_screen :
    run format text os web none insertion from_call_to_screen
      (started (launched configs (new_world [] 0 0)) new_memleak)
    ≡ some seen
unfolding run Starting.step Agent.step Agent.start initialize_outputs initialize_plugins write_to
    supports write Console.write Reader.step Opensnoop.decode Opensnoop.to_log cstring format_uint
run-from_call_to_screen = refl

run-terminal_example :
    (Console.write format [] seen.program.agent.world.stdout
      ≡ Console.write format (telemetry seen.order) [])
    × (logs_by opensnoop seen.order ++ seen.queue opensnoop ≡ seen.opens.logs)
    × (logs_by dnssnoop seen.order ++ seen.queue dnssnoop ≡ seen.asks.logs)
    × (logs_by memleak seen.order ++ seen.queue memleak ≡ seen.reported)
run-terminal_example =
    run-terminal format text os web none insertion configs [] (new_world [] 0 0) new_memleak
      from_call_to_screen {h = seen} (tt, tt) refl run-from_call_to_screen (inl refl)

sent : submitted sys_enter_openat (opens ∷ []) ≡ opening ∷ []
unfolding sys_enter_openat
sent = refl

run-calls_told_example :
    Sublistᴰ (map (λ (l : Log). l.message) (logs_by opensnoop seen.order)) (map words (opens ∷ []))
    × (seen.asks.loop ≢ panicked)
run-calls_told_example =
    run-calls_told format text os web none insertion (launched configs (new_world [] 0 0))
      new_memleak from_call_to_screen (opens ∷ []) [] [] [] {h = seen} (opens-IsDocumented, tt) tt
      (rw sent refl) refl run-from_call_to_screen
