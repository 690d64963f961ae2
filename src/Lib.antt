-- ===== src/Lib.antt =====
-- Arbutus collects telemetry on a Linux host. Input plugins read events from eBPF programs and hand
-- logs, spans and metrics to one pipeline, which buffers them; the main loop flushes the buffer to
-- the output plugins.
--
-- The files and what they are about:
--   Models, Models/Plugin            internal/models/telemetry.go, internal/models/plugin.go
--   Pipeline and the modules below it
--                                    internal/pipeline/pipeline.go: `add`, `Flush`
--   Agent and the modules below it   cmd/arbutus/main.go: the main loop and the goroutines that call
--                                    `add`, as steps of one state
--   Inputs/Wire                      `cstring` and `binary.Read`, shared by the tracing inputs
--   Inputs/Reader                    the reading goroutine and the loop of `Run`, which
--                                    internal/plugins/inputs/{opensnoop,dnssnoop,template} have in the
--                                    same words
--   Inputs/Setup                     the start of `Run` of the same three, with its deferred calls
--   Inputs/Opensnoop, Inputs/Dnssnoop, Inputs/Template
--                                    the event of each and the log that it becomes; Dnssnoop/Query is
--                                    `parseDNSQuery`
--   Inputs/Dnssnoop/Kernel, Inputs/Opensnoop/Kernel, Inputs/Template/Kernel, Inputs/Memleak/Kernel
--                                    the eBPF programs beside each plugin (*.bpf.c); Inputs/Reader/Traced
--                                    is about the way from a program to the accumulator
--   Inputs/Memleak                   internal/plugins/inputs/memleak/memleak.go: Config is `parseConfig`,
--                                    Setup `Run` up to its loop, Loop that loop, Symbols
--                                    `loadKallsyms`, `findSymbol` and `getStackTrace`, Leaks and
--                                    Report the two halves of `checkForNewLeaks`
--   Outputs/Loki                     internal/plugins/outputs/loki/loki.go: the streams of a batch;
--                                    Client is the configuration, the connection and the request
--   Outputs/Lines, Outputs/Console   internal/plugins/outputs/console/console.go and its line formats
--   Outputs/File                     internal/plugins/outputs/file/file.go
--   Outputs/Fleet                    internal/plugins/outputs/outputs.go: `InitializeOutputs` and the three
--                                    plugins together as the outputs of the agent; Starting has
--                                    their `Connect` goroutines beside the main loop
--   Inputs/Fleet                     internal/plugins/inputs/inputs.go: `InitializeInputs`
--   Launch                           internal/config/config.go and the start of `main`
--   Host and the modules below it    the inputs, the main loop and the outputs together; Terminal has the
--                                    way of a log from the system call to the standard output
--   Base                             lists, byte strings, association lists and tests of numbers
-- A function has the name that it has in the source, in lower case. Modules named Tests hold runs on
-- concrete input.
--
-- How the model stands to the code. Go maps are association lists in the order of one iteration; what
-- is stated of them does not depend on it, or says so. Strings and byte arrays are lists of bytes;
-- unsigned integers are natural numbers with the wrap-around written out. What the code does under a
-- mutex is one step, and so are the operations on channels; a run is a list of steps that the states
-- allow, so each order in which goroutines can get their turn is a run. Output to the log is left out.
-- An event of an input carries the time that the clock shows when the loop takes it.
--
-- In Host an input may make its next log before it has handed over the last: the model allows more
-- orders there than the code does. Each `Run` is taken to have come to its loop; an input that is not
-- configured takes no step.
--
-- Bounds. `parseDNSQuery` is a recursion on fuel, one more than the length of the payload; each round
-- reads one byte at least, so the loop ends before the fuel does. All other loops are structural.
-- The length byte of a label is any natural number in the model.
--
-- Parameters. Libraries that the code calls are arguments: the outputs of the pipeline, JSON, HTTP and
-- `time.ParseDuration` of Loki (the record `Web`), files (`Os`), UTF-8 repair and `%v` (`Text`),
-- `time.Format` and `%v` of the lines (`Format`), `sort.Slice` (`Sorter`), `strings.Fields` and
-- `strconv.ParseUint`, the reads of the kernel's maps, the eBPF library with the kernel behind it (the two records
-- `Kernel`), reading and decoding the configuration file (`Files`), and what the helpers of the kernel
-- answer to an eBPF program (the records `Call` and `Moment`), with their documented sizes.
-- `time.NewTicker` is only asked whether it panics, which it does on an interval that is not positive.
--
-- Not modelled: two runs of an eBPF program at the same time; the single steps of a `Connect`, against a
-- `Write` of the same output at the same time; a call of `Stop` that comes before `Run` has set
-- `running`, which nothing in the program makes.
pub mod Base
pub mod Models
pub mod Pipeline
pub mod Agent
pub mod Inputs
pub mod Outputs
pub mod Launch
pub mod Host
