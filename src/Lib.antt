-- ===== src/Lib.antt =====
-- Ephemeral Sandbox Console: a model of the browser client's logic, with its proofs.
--
-- The console is a page over a fleet of sandboxes. It asks a small server for the list of sandbox
-- records, for snapshots of what they do, for their resource samples and for their files; it
-- polls, faster while something is active; and it shows the fleet, grouped in clusters. The model
-- covers that client (web/src), in the modules:
--
--   Base       Shared helpers: lists over the native numbers, JavaScript's strings as lists of code
--              units (`codes "..."` is a literal), JSON values, `Map` and `Set` with string keys,
--              `Array.prototype.sort` as a stable insertion sort.
--   Api        web/src/api. Types: types.ts. Observability, Daemon, Topology: observability.ts. Rpc: `rpc`
--              of rpc.ts and `postJson` of http.ts. Stream: `rpcStream` and `parseSseChunk` of rpc.ts;
--              Stream.Boundaries and Stream.Chunking carry its proof. Files: files.ts. Catalog: catalog.ts.
--              Traces: the events and traces of observability.ts.
--   Core       web/src/core. Status: status.ts. Activity: activity.ts. Resources: resources.ts. Fleet:
--              fleet.ts. Clusters: sandboxClusters.ts, with its storage in Clusters.Storage.
--              DaemonMetrics: daemonMetrics.ts. Capture: daemonCaptureStore.ts with pages/sandbox/observability/useDaemonCapture.ts. Estimates:
--              pages/sandbox/observability/processEstimates.ts. Blame: pages/sandbox/files/blame.ts.
--              Ledger: pages/sandbox/terminal/ledger.ts. Controls: lib/terminalText.ts.
--   Poll       web/src/poll. Interval: `pollInterval` of usePoll.ts. Snapshot: useSandboxSnapshot.ts.
--              FleetUsage: useFleetCurrentUsage.ts. FleetSnapshots: useFleetSnapshots.ts. Topology:
--              useProcessTopology.ts.
--   Pages      The logic of web/src/pages. Dashboard: dashboard/DashboardPage.tsx. Picker:
--              fleet/WorkspacePicker.tsx. The others are in sandbox/. Poller:
--              terminal/TranscriptPollProvider.tsx. Terminal: terminal/TerminalTab.tsx. Sessions:
--              terminal/SessionSidebar.tsx. Transcript: terminal/TranscriptViewer.tsx.
--              Traces, Events: observability/TracesView.tsx and EventsView.tsx. FileTree: files/FileTree.tsx.
--   Tests      Runs at concrete inputs.
--
-- A module's definitions have the names of the source in this language's spelling, and its children
-- hold the proofs. Api's records go into Core's functions; Core.Fleet uses Core.Activity and
-- Core.Status; Poll.Snapshot uses Core.Activity; Core.Capture uses Core.DaemonMetrics;
-- Core.Ledger uses Core.Controls; Poll.FleetSnapshots is set against Poll.Snapshot; Pages.Dashboard
-- puts Core.Fleet and Core.Clusters together; Pages.Terminal uses Core.Ledger and the
-- snapshots of Api.Observability.
--
-- Conventions. A number of a response is a whole number, natural where the protocol counts, an
-- integer where the code tests its sign. A quotient is kept exact, as numerator and denominator:
-- floating-point rounding is not modelled. A field that may be null or absent is an `Option`. A
-- promise is the value that it settles to; a thrown or rejected error is a constructor. A hook is its
-- state and the steps that its effects and events take. What the platform or a library gives is an
-- argument: `JSON.parse`, `Number`, `toLowerCase`, the answer of `fetch`, the decoded chunks of a body, the
-- answers of the runtime's `file_read`, the failures of the browser's store, `localeCompare`, new ids and
-- the time. `JSON` for the registry and for ledgers is a record of `parse` and `stringify` with the law
-- that the one reads what the other writes; Tests.Codec and Tests.Entries have such records. A handler
-- of a component sees the state of the last render, which is taken to be the current one.
--
-- Loops on fuel. `drain` of Api.Stream takes as many rounds as the buffer has code units, and each
-- round removes two at least. `decimal` of Base.Strings takes n + 1 rounds to print n, and each drops
-- a digit. The loop of `file_read_to_end` depends on the runtime's answers; its rounds are an
-- argument, and as many as the file has lines are enough. `flatten` of Pages.Traces takes as many rounds
-- as the trace has spans. `flatten_rows` of Pages.FileTree goes as deep as the longest open path has
-- code units, and one more, since each open directory below another has a longer path. `fetch_pages`
-- of Pages.Transcript depends on the runtime's pages: as many rounds as the command has lines, and one
-- more, are enough when each page has text.
--
-- Not modelled: the server (server/), the desktop shell (desktop/), the scripts, the markup
-- of the React components and the pages not named above, and what the manifest lists with its reasons.
mod Base
pub mod Api
pub mod Core
pub mod Poll
pub mod Pages
mod Tests
