-- ===== src/Lib.antt =====
-- A model of Inspecthor, a tool that runs a Windows program and records what it does, with the
-- theorems that make its controller's core correct.
--
-- The program. The controller (src/controller) turns a target file into a launch, begins an analysis
-- session, learns of child processes from ETW kernel events and from hooked calls, decides for
-- each child whether the agent is injected into it, and keeps the tree of the session's processes.
-- The agent (src/agent) runs inside a process, hooks its calls and sends telemetry over a pipe.
--
-- The files.
-- - Prelude and its children: shared names; tests, lists, text as lists of code units, sets of
--   pids, lists related in pairs.
-- - StdPath: the lexical operations of std::filesystem::path on Windows that the controller calls.
-- - Format, Format/Hex: numbers as text (std::to_string, std::hex), and reading them back.
-- - TargetResolver: src/controller/target_resolver.cpp and office_target_resolver.cpp. Quote is
--   `Quote`, Detect `Detect`, Launchers the searches for launchers, Office
--   `ResolveOfficeTargetProfile`, Resolve `ResolveTargetProfile`. A `Host` holds the answers of
--   Windows (files, registry, directories) while one target is resolved; they do not change meanwhile.
-- - ChildPolicy: src/controller/child_instrumentation_policy.cpp. Paths is `StartsWithPath` and the
--   two tests over it, Names `ProcessImageName` and the two lists, Decide
--   `DecideChildInstrumentation`; a `PolicyHost` holds what Windows answers.
-- - ProcessTree: src/controller/process_tree_manager.cpp. Session holds the structs of
--   analysis_session.h, Manager the methods of `ProcessTreeManager`, Observe `ObserveChild`, Steps any
--   sequence of calls. Each method locks the manager's mutex throughout, so a call is one step and an
--   interleaving of threads is a sequence of calls.
-- - Etw: src/controller/etw_monitor.cpp. Event holds the structs and what Windows answers about a
--   record, Values the readers of property bytes, Describe and Details the friendly texts, Build
--   `BuildEvent`, Numbers std::stoul with base 0, Monitor the shared state and the functions that
--   change it, Callback `EtwRecordCallback`. The callback takes the mutex three times; what other
--   threads do between is a parameter of it, and Soundness lets it be any sequence of calls.
-- - CallerFilter: src/agent/filter.cpp. A `Loader` holds what Windows answers about addresses and
--   modules; the modules' cache is a list of handles and paths.
-- - ActivityStore: src/controller/specialized_activity_store.cpp, each method a function on the
--   store. The restoring methods take lists of any length.
-- - PipeIo: src/shared/pipe_io.h. ReadFile and WriteFile are parameters; Exact and Sent say with
--   named hypotheses what a working pipe does.
-- - Lifecycle: the session functions of src/controller/gui.cpp (`SetTargetProcess`,
--   `WatchSessionProcessExit`, `QueueChildProcessInstrumentation`, `OnChildProcessSpawned`,
--   `OnProcessExited`), over a record of the process tree, the monitor and the globals that they
--   change; Hooked is the report of a child by a hooked call, at the end of `PushTelemetryEvent`. The
--   functions run on detached threads, and g_Target and g_ProcessRunState have no lock. Events is any
--   sequence of the functions, of the stores of `SetTargetProcess` on their own and of the calls that
--   it and the exit watch make, so that its invariant covers those parts in any order; a reported
--   spawn and a queued injection are one run each. The other theorems are about a function run with
--   no other thread in between; which of two threads' stores to the two globals comes last is not
--   said.
-- - RuntimeStrings: the recovery of strings from memory in src/controller/gui.cpp (the decoders,
--   `AppendRecoveredStringCandidate`, `ExtractRuntimeStrings`, `MergeRecoveredStrings`,
--   `ScanRuntimeStringMemory`, the scanner, `RecoverRuntimeStringsFromMemoryTelemetry`). A
--   `ScannedProcess` holds what Windows answers about the memory during one pass. Hex and Base64 hold
--   encoders that the decoders are measured by; Indexed a merge without an index.
-- - StaticAnalysis: the static analysis of a file in src/controller/gui.cpp (`ReadStructAt`,
--   `RvaToOffset`, `ExtractStrings`, `ParseResourcesRecursive`, `AnalyzeSelectedFileInto`). The structs
--   of winnt.h are a parameter: a size and a decoder each. So are the hashes of the file, and the
--   entropy of bytes, since it is a double.
-- - Telemetry: src/shared/telemetry.h, events as JSON; Strings is a reader of JSON strings.
--
-- How they interact. The resolver gives a session its launcher and its type (TargetProfile), the
-- process tree asks the policy about each child that the monitor's callback reports, and the
-- monitor keeps the events of the processes that the tree monitors.
--
-- Conventions. Numbers are natural numbers; the session counter keeps its 64-bit wrap-around. Text
-- that the code walks is a list of code units, a label that it only compares is a native string.
-- tolower and towlower are those of the C locale, which the program never changes. Conversions between
-- code pages are parameters, or the identity where a text is only passed through std::filesystem.
-- std::stoul reads into 32 bits, std::stoull into 64; an exception is `none`.
-- The loops over a pipe take the number of bytes as fuel, which is enough because every round that goes
-- on moves a byte or more. Printing digits takes the number itself as fuel, which is enough because every round divides it.
-- The loops over the imports of a file take its bytes as fuel, since each round moves on in them.
-- The search in bytes takes their number as fuel and a pass over memory the largest address and the
-- limit of bytes; every round moves on.
-- A `std::unordered_set` of pids is a list without repetition.
--
-- Not modelled: the rest of src/controller/gui.cpp (the views and dialogs, the launches that they
-- start, the intake of telemetry, the analysis of scripts and of XML), the hooks themselves
-- (src/agent/hooks.cpp), injection into a process (src/controller/injector.cpp) and the other
-- direct uses of Windows, since what they do lies in the calls that they make; ThirdParty holds copies
-- of other projects. Starting and stopping the ETW session is written as one run each: its separate
-- stores are not interleaved with other threads. Stopping joins the monitor's thread, which ends when
-- its trace is closed; that it does is behaviour of Windows. Log lines and the console are left out.
pub mod Prelude
pub mod TargetResolver
pub mod StdPath
pub mod ChildPolicy
pub mod ProcessTree
pub mod Format
pub mod Etw
pub mod CallerFilter
pub mod ActivityStore
pub mod PipeIo
pub mod Telemetry
pub mod Lifecycle
pub mod RuntimeStrings
pub mod StaticAnalysis
