-- ===== src/Outputs/Fleet/Tests.antt =====
-- A configuration with the console, Loki and a name that no plugin has.
use arbutus.Base.{
  ℕ, ◌≡◌, ◌≢◌, refl, inl, inr, true, false, List, [], ◌∷◌, none, some, Bytes, codes, beq_bytes,
  bytes_eq, GoMap, lookup, IsMap, arith,
}
use arbutus.Agent
use arbutus.Agent.{adds, ticks, on_tick, takes, writes, returns, selecting, writing, crashed, start}
use arbutus.Agent.Ledger.{added}
use arbutus.Models.Plugin.Start.{initialize_plugins}
use arbutus.Models.{Telemetry, log, pos, Any, str}
use arbutus.Outputs.Console
use arbutus.Outputs.File.{Os}
use arbutus.Outputs.Fleet.Startup.{name_of, initialize_outputs_lem}
use arbutus.Outputs.Fleet.Starting.Printer.{events}
use arbutus.Outputs.Fleet.Starting.Stdout.{run-stdout}
use arbutus.Outputs.Fleet.Starting.Unharmed.{Safe, run-unharmed}
use arbutus.Outputs.Fleet.Starting.{Step, acts, connects, Program, launched, run}
use arbutus.Outputs.Fleet.{
  Kind, console, file, loki, kind_eq, Config, World, new_world, initialize_outputs, connect, write,
}
use arbutus.Outputs.Lines.{Format}
use arbutus.Outputs.Loki.Client
use arbutus.Outputs.Loki.Client.{Web, Loki, answer}
use arbutus.Outputs.Loki.{Text}
use arbutus.Pipeline.{write_to, supports}

abbrev pub print : Any → Bytes
print (str s) = s
print v = codes "?"

abbrev pub format : Format
format = record {
  rfc3339 = λ t. codes "2025-01-01T00:00:00Z";
  to_json = λ attributes. codes "{}";
  sprint = print;
  sprint_float = λ bits. codes "0.5";
}

abbrev pub text : Text
text = record { sprint = print; valid = λ s. true; to_valid = λ s. s }

-- A disk and a network that count what they are asked.
abbrev pub os : Os Bytes ℕ
os = record {
  marshal_config = λ config. inr (codes "{}");
  unmarshal = λ json path. (codes "/var/log/arbutus", none);
  open_file = λ path n. (n, inr path);
  write_string = λ h line n. (n, none);
  sync = λ h n. n;
  close = λ h n. (n, none);
}

abbrev pub web : Web ℕ
web = record {
  marshal_config = λ config. inr [];
  unmarshal = λ json s. (record s { domain = codes "http://loki:3100" }, none);
  parse_duration = λ s. inr 10;
  marshal_streams = λ streams. inr (codes "{}");
  url_error = λ url. none;
  canonical = λ k. k;
  equal_fold = beq_bytes;
  basic_auth = λ user password. codes "Basic";
  close_idle = λ n. n;
  send = λ timeout r n. (n, answer 503 []);
}

abbrev configs : GoMap Bytes Config
configs =
    (codes "console", [])
    ∷ (codes "influx", [])
    ∷ (codes "loki", (codes "domain", str (codes "http://loki:3100")) ∷ [])
    ∷ []

configs-IsMap : IsMap configs
configs-IsMap = ground arith

abbrev before : World Bytes ℕ ℕ
before = new_world [] 0 0

initialize_outputs_lem_example :
    IsMap (initialize_outputs configs)
    × ((k : Kind) → lookup k (initialize_outputs configs) ≡ lookup (name_of k) configs)
initialize_outputs_lem_example = initialize_outputs_lem configs configs-IsMap

abbrev started : GoMap Kind Config
started = (loki, []) ∷ (file, []) ∷ (console, []) ∷ []

started-IsMap : IsMap started
started-IsMap = ground arith

abbrev a_log : Bytes → Telemetry
a_log message =
    log (record { time = pos 5; level = codes "info"; message = message; attributes = [] })

-- Loki is connected only when the flush has already served the console. Its server refuses the batch.
abbrev console_and_loki : GoMap Bytes Config
console_and_loki = (codes "console", []) ∷ (codes "loki", []) ∷ []

abbrev connecting_late : List Step
connecting_late =
    acts (adds (a_log (codes "one")))
    ∷ acts ticks
    ∷ acts on_tick
    ∷ acts takes
    ∷ acts writes
    ∷ connects 1
    ∷ acts writes
    ∷ acts returns
    ∷ acts (adds (a_log (codes "two")))
    ∷ []

abbrev printed : Program Bytes ℕ ℕ
printed = record {
  agent = record {
    pipeline = record {
      outputs = console ∷ loki ∷ [];
      buffer = a_log (codes "two") ∷ [];
      flush_token = false;
    };
    main = selecting;
    senders = 0;
    cancelled = false;
    interrupted = false;
    ticked = false;
    world =
        (connect format text os web loki []
          (new_world (codes "2025-01-01T00:00:00Z [info] one\n") 0 0)).0;
  };
  pending = (console, []) ∷ [];
}

run-connecting_late :
    run format text os web connecting_late (launched console_and_loki before) ≡ some printed
unfolding run Agent.step start initialize_outputs initialize_plugins write_to supports write
    Client.write connect Client.connect Console.write
run-connecting_late = refl

run-stdout_example :
    Console.write format (a_log (codes "two") ∷ []) printed.agent.world.stdout
    ≡ Console.write format (added (events connecting_late)) []
run-stdout_example =
    run-stdout format text os web console_and_loki [] before connecting_late {p = printed}
      (ground arith) refl run-connecting_late (inl refl)

printed-Safe : Safe format text os web printed
unfolding connect Client.connect Client.configure Client.unmarshal_into Client.complete
    Client.make_client Client.or_default
printed-Safe = inr ((10, refl), ((λ q. cc), tt))

-- Another flush, in which the console connects between its write and the one of Loki.
abbrev flushing_again : List Step
flushing_again =
    acts ticks ∷ acts on_tick ∷ acts takes ∷ acts writes ∷ connects 0 ∷ acts writes ∷ []

abbrev flushed : Program Bytes ℕ ℕ
flushed = record {
  agent = record printed.agent {
    pipeline = record printed.agent.pipeline { buffer = [] };
    main = writing false (a_log (codes "two") ∷ []) [];
    world = record printed.agent.world {
      stdout = codes "2025-01-01T00:00:00Z [info] one\n2025-01-01T00:00:00Z [info] two\n";
    };
  };
  pending = [];
}

run-flushing_again : run format text os web flushing_again printed ≡ some flushed
unfolding run Agent.step write_to supports write Client.write connect Client.connect Console.write
run-flushing_again = refl

run-unharmed_example : flushed.agent.main ≢ crashed
run-unharmed_example =
    run-unharmed format text os web printed flushing_again {q = flushed} printed-Safe (λ q. cc)
      run-flushing_again
