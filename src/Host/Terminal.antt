-- ===== src/Host/Terminal.antt =====
-- The whole agent, from the system calls to the terminal.
use mathlib.Core.List.{Sublistᴰ}
use mathlib.Core.List.Sublistᴰ as Sub
use mathlib.Core.Path.{subst}
use arbutus.Base.{
  ◌≡◌, ◌≢◌, refl, sym, ap, ◌∙◌, List, ◌++◌, map, Option, some, All, Bytes, codes, bytes_eq, GoMap,
  lookup, IsMap,
}
use arbutus.Host.Inputs.{opens_of, asks_of, run-Reads}
use arbutus.Host.Order.{telemetry, run-Leads}
use arbutus.Host.Queues.{logs_by, Books, run-Books}
use arbutus.Host.{Host, Step, run, started}
use arbutus.Inputs.Dnssnoop
use arbutus.Inputs.Dnssnoop.Kernel as Dns
use arbutus.Inputs.Dnssnoop.Kernel.Records
use arbutus.Inputs.Dnssnoop.Kernel.Records.{run-dns_send}
use arbutus.Inputs.Dnssnoop.Kernel.Submitted
use arbutus.Inputs.Fleet.{dnssnoop, memleak, opensnoop}
use arbutus.Inputs.Memleak.Report.{Sorter}
use arbutus.Inputs.Memleak.{Memleak}
use arbutus.Inputs.Opensnoop
use arbutus.Inputs.Opensnoop.Kernel as Opens
use arbutus.Inputs.Opensnoop.Kernel.Messages
use arbutus.Inputs.Opensnoop.Kernel.Messages.{run-openat}
use arbutus.Inputs.Reader.Traced.{samples, submitted, map-Sublist, part-Sublist}
use arbutus.Inputs.Reader.{panicked}
use arbutus.Models.{Log}
use arbutus.Outputs.Console
use arbutus.Outputs.File.{Os}
use arbutus.Outputs.Fleet.Starting.Stdout.{IsSettled, run-stdout}
use arbutus.Outputs.Fleet.Starting.{Program, launched}
use arbutus.Outputs.Fleet.{Config, World}
use arbutus.Outputs.Lines.{Format}
use arbutus.Outputs.Loki.Client.{Web}
use arbutus.Outputs.Loki.{Text}

module _ {H D N : Type 0} (format : Format) (text : Text) (os : Os H D) (web : Web N)
    (name : Option Bytes) (sorter : Sorter) where
  started-Books : (p : Program H D N) (m : Memleak) → Books (started p m)
  started-Books p m = record { opens = refl; asks = refl; leaks = refl }

  -- The inputs, the pipeline and the outputs together, with the console configured and the names of the
  -- configuration distinct. In every run of all goroutines, whenever the process lives on or has returned
  -- and no flush is at work: what the standard output shows, with what the buffer still has to print, is
  -- every log that was handed over, once and in the order in which it was; and for each input, the logs
  -- that it has handed over and then those that wait for their `AddLog` are all that it has made, in
  -- order.
  pub run-terminal :
      (configs : GoMap Bytes Config) (config : Config) (w : World H D N) (m : Memleak)
      (ss : List Step) {h : Host H D N}
      → IsMap configs
      → lookup (codes "console") configs ≡ some config
      → run format text os web name sorter ss (started (launched configs w) m) ≡ some h
      → IsSettled h.program.agent
      → (Console.write format h.program.agent.pipeline.buffer h.program.agent.world.stdout
          ≡ Console.write format (telemetry h.order) w.stdout)
        × (logs_by opensnoop h.order ++ h.queue opensnoop ≡ h.opens.logs)
        × (logs_by dnssnoop h.order ++ h.queue dnssnoop ≡ h.asks.logs)
        × (logs_by memleak h.order ++ h.queue memleak ≡ h.reported)
  run-terminal configs config w m ss {h} each has r settled =
      let from = started (launched configs w) m in
      let led = run-Leads format text os web name sorter ss from h r in
      let books =
        run-Books format text os web name sorter ss from h r
          (started-Books (launched configs w) m) in
      let shown =
        run-stdout format text os web configs config w led.steps {p = h.program} each has led.went
          settled in
      (
        shown
            ∙ ap (λ ts. Console.write format ts w.stdout)
                (led.told ∙ ap telemetry (sym led.ordered)),
        books.opens,
        books.asks,
        books.leaks,
      )

  -- Let the records that the two readers get be the first of those that the eBPF programs submit in some
  -- calls of openat and of udp_sendmsg. Then in every run of all goroutines the messages that opensnoop has
  -- handed over tell of some of these calls of openat, in their order and none twice, and the loop of
  -- dnssnoop does not panic.
  pub run-calls_told :
      (p : Program H D N) (m : Memleak) (ss : List Step) (opens : List Opens.Call)
      (asks : List Dns.Call) (opens_unread asks_unread : List Bytes) {h : Host H D N}
      → All Messages.IsDocumented opens
      → All Submitted.IsDocumented asks
      → samples (opens_of ss) ++ opens_unread
        ≡ map Messages.memory (submitted Opens.sys_enter_openat opens)
      → samples (asks_of ss) ++ asks_unread ≡ map Records.memory (submitted Dns.dns_send asks)
      → run format text os web name sorter ss (started p m) ≡ some h
      → Sublistᴰ
          (map (λ (l : Log). l.message) (logs_by opensnoop h.order))
          (map Messages.words opens)
        × (h.asks.loop ≢ panicked)
  unfolding Opensnoop.run Dnssnoop.run
  run-calls_told p m ss opens asks opens_unread asks_unread {h} o a q t r =
      let reads = run-Reads format text os web name sorter ss (started p m) h r in
      let books =
        run-Books format text os web name sorter ss (started p m) h r (started-Books p m) in
      let told = run-openat name opens (opens_of ss) opens_unread {r = h.opens} o q reads.opened in
      let part =
        map-Sublist (λ (l : Log). l.message)
          (subst (λ ls. Sublistᴰ (logs_by opensnoop h.order) ls) books.opens
            (part-Sublist (logs_by opensnoop h.order) (h.queue opensnoop))) in
      (
        Sub.trans part told,
        (run-dns_send name asks (asks_of ss) asks_unread {r = h.asks} a t reads.asked).0,
      )
