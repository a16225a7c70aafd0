-- ===== src/Lib.antt =====
-- go-component: procedures with a lifecycle, and the loader that runs the components of a
-- footprint.
--
-- A component is described by a Descriptor (descriptor.go). The loader (loader/) claims it with its
-- options and a linker, and runs its Bootstrap as a child of one root lifecycle (lifecycle.go,
-- procedure.go). Footprints come from files (fileloader/) or from a Kafka topic (kafkaloader/), and
-- targets are linked through Kafka (kafkalinker/) or in memory (loader/linkers.go). Started and
-- completed hooks of lifecycles feed the health of the process (loader/health.go), which the probes
-- of healthprobe/ ask for. Log records and spans are stamped with the lifecycle they belong to
-- (loghandler.go, tracing.go).
--
-- Where each part is modelled:
-- - Cleanup: funcStack and L.runCleanup of lifecycle.go. `pop`, `push` and `run_cleanup` are the
--   operations; a cleanup function is known by what it registers while it runs and how it ends.
--   `run_cleanup` runs on fuel, since functions may register others; any fuel above the number of
--   functions, registered ones included, gives its result. Cleanup/Errors.antt has CleanupError,
--   CleanupContext and CleanupBackground.
-- - Lifecycle: type L, execute, exec, Fork, Cleanup, Stop, propagateStop, Terminate and Fatal of
--   lifecycle.go, Run and ProcE of procedure.go. A forest of lifecycles stands for the tree of
--   managed children, each with the phase of its goroutine, its channels, contexts and wait group.
--   Each operation is a function; Lifecycle/Step.antt is the relation of the steps that the
--   goroutines and the user's code can take, in any order. `Reach` is what Run comes to by them, while
--   the stopper and the context given to it may signal. A panic ends the program, and is no step.
--   Lifecycle/Hooks.antt has what the hooks of procedure.go are called with in such a run, and
--   Lifecycle/Depth.antt the label component.depth that execute gives to a lifecycle.
--   Lifecycle/Run.antt is a call of Run with broadcastDone, and the select of Stop;
--   Lifecycle/Records.antt has the log records that exec and Fatal emit.
--   Lifecycle/Spec.antt is what it promises, a tree of procedures with the detail forgotten, and
--   Lifecycle/Refine.antt the refinement.
-- - Options: lifecycleOptions and every Option of procedure.go, with the prologues of Run, Fork,
--   loader.Entrypoint and loader.Load.
-- - LogHandler: logHandler of loghandler.go over any slog.Handler, a parameter.
-- - Tracing: detachSpan and spanProcessor of tracing.go, over an interface of the operations of
--   OpenTelemetry that they call.
-- - Health: loader/health.go, gRPCServer.Check of healthprobe/grpc.go and the two handlers of
--   healthprobe/http.go. Health/Servers.antt has StartGRPC and StartHTTP of the same files, as
--   steps of their goroutines, of the cleanup function and of the lifecycle, in any order.
-- - Linker: Linker and MergeTargets of descriptor.go, MuxLinker and SharedMemLinker of
--   loader/linkers.go, KafkaLinker of kafkalinker/kafkalinker.go, and protectLinker of
--   loader/loader.go. Opening a topic or a subscription is a parameter.
-- - Targets: validateTargets of fileloader/fileloader.go.
-- - FileLoader: UnmarshalFootprintJSON of fileloader/jsonloader.go and YAMLLoader.footprint of
--   fileloader/yamlloader.go, from the decoded message on. Decoding is a parameter.
--   FileLoader/Reordered.antt has what the order comes to in which the loader visits the components.
--   FileLoader/Command.antt has Main after ParseFlags, Load and FormatFlag of fileloader/fileloader.go.
-- - Loader: Claim.Exec, forkGroup, loadFootprintComponents and the guard of Load of
--   loader/loader.go, and the loop of Loader.Exec of kafkaloader/kafkaloader.go.
--   Loader/Resources.antt has loadSharedResources, which fills the stack of Cleanup. A call of
--   log.Fatalf in a cleanup function stands as the end of a run of the stack, as a panic does.
-- - Builder: Builder of kafkaloader/builder.go, with Observe in Builder/Observed.antt. Marshalling
--   and sending are parameters.
-- - Flags: ComponentSet, triState, LookupRequired and ParseFlags of loader/loaderflags/, once the
--   flag package has parsed the command line; Flags/Registration.antt has the flags that ParseFlags
--   defines before.
-- - Entrypoint: softStop and hardStop of loader/entrypoint.go, with the channels that signals fill from
--   their calls of signal.Notify on.
-- - KafkaFlags: ConfigFlag.Set, findFieldByName and setField of kafkalinker/kafkaflags.go, on the
--   tree of values that reflect shows. KafkaFlags/Leads.antt tells where a path leads, and
--   KafkaFlags/Brokers.antt has BrokersFlag and ConfigFlag.String of that file, and OpenControlTopic, OpenControlSubscription and BusConfig of
--   kafkaloader/kafkaloader.go, up to the calls that open. Parsers of other packages are parameters.
-- - Help: fillParagraphs and shortenParagraph of loader/loaderflags/help.go, and ffEnvName of
--   loader/loaderflags/parse.go, on bytes, with letters and white space as in ASCII.
-- - HelpCommand: Help of that file, with what it prints as a list of texts and flag-sets.
-- - ExtractDoc: ExtractDoc of extractdoc.go, from the text of the package comment on.
-- - Logging: InjectLogger and Logger of logging.go.
-- - Prelude: names of the libraries, Boolean tests, `length` of lists, Go's maps, and what the code
--   uses of Go's packages strings and strconv.
--
-- Not modelled: other log output, the content of profiles and traces, pprof labels but that of the depth;
-- the answers of the health servers' transports; the comparison of configurations behind
-- ConfigFlag.String, by another library; parsing the command line and printing the defaults of flags,
-- which is the flag package's work.
mod Prelude
pub mod Cleanup
pub mod Lifecycle
pub mod Options
pub mod LogHandler
pub mod Tracing
pub mod Health
pub mod Linker
pub mod Targets
pub mod FileLoader
pub mod Loader
pub mod Builder
pub mod Flags
pub mod Entrypoint
pub mod KafkaFlags
pub mod Help
pub mod HelpCommand
pub mod ExtractDoc
pub mod Logging
