-- ===== src/Lib.antt =====
-- Verification library for copilot-token-cost, a program that reads the logs of an assistant, keeps
-- the API calls in a database, and reports tokens and costs.
--
-- Parts and files:
-- - go/internal/domain/types.go: Domain. A `Record` is one API call, a `Stats` the sums of calls;
--   Domain/Counters has the six integer counters apart from the float.
-- - go/internal/costing/service.go: Costing. Normalize is `NormalizeModel` with its three regular
--   expressions as functions on bytes; Periods is `GetPeriod` and the lookups of prices; Cost is
--   `CalcCost` and the daily sums; Aggregate is `AggregateByModel`; Reattribute is
--   `ReattributeUserTurns`, whose in-place change of the slice is the list it returns.
-- - go/internal/storage/service.go: Storage. A `Database` is the tables as lists of rows. Calls is
--   the upsert of a log sync and the insert of records, Parsed the tables of parsed logs, of
--   workspaces and of codespaces, Cleanup the two DELETE statements of `CleanupUnknownDuplicates`.
--   `promptTextForStorage` of go/main.go is in Calls.
-- - go/internal/sync/service.go: Sync/Logs is `SyncLogsToDB`. It calls Storage, and Costing by the
--   functions that main.go sets, which are fields of a `Job`, as the directory and the faults are.
--   Sync/Codespaces is the listing and the throttling, Codespaces/Aliases the choice of a host alias,
--   Codespaces/Copy `CopyCodespaceData`, and Codespaces/Tick `SyncCodespacesToDBTick`, which calls
--   Sync/Logs for every copy. What the commands do is in a `Remote`.
-- - go/internal/parsing: Parsing. Expressions is the regular expressions of service.go, Content and Payload
--   the search for a prompt in decoded JSON, Prompt the search in lines, Window the time and the range that
--   both parsers share and their loop over the lines, Legacy `parseRegexRecords`, Telemetry
--   `parseTelemetryRecords` and `ParseLogContent`. Range is `parseLogFileInRange` of go/main.go. What they
--   call of encoding/json, strconv.Unquote and filepath.Base is in a `Decoder`.
-- - go/internal/termstatus/renderer.go: Termstatus, the status line with its modes; what it writes is a
--   field, and a `Call` is one step.
-- - go/internal/display/display.go: Display, which is `AddCommas`.
-- - go/cmd/codespace-tail-proto: Tail. Store is the checkpoints of state.go, Files the copies and samples,
--   File one pass over a file (`syncTrackedFile`), Target the SSH target and the local paths, Session
--   `reconcileTrackedFiles` and `runTailSession`, whose ticks are a list. The remote side is a `Client`,
--   the local one a `Disk`.
-- - go/stats_service.go: StatsService. Queries is `loadAggregatedStats` with the queries of go/main.go, which
--   read the tables of Storage. Project is the labels of directories, Derived `buildAllDerivedStats`,
--   Hourly `buildHourlyStatsMap`, with the viewer's clock in Hourly/Viewer, ProjectCosts the costs of
--   projects, and Payload `buildStatsPayload`, which composes them with Costing.
-- - go/web_mode.go: Dashboard. Subscribers is the channels of updates, with every call and read as an
--   event, Sync the actions that sync a source, with their lock and the status of the sources, Retry the
--   delays that the code has for attempts to sync codespaces, which only its tests call, and Watch
--   `startLocalStreamingLoop`, whose passes are a list; it calls Sync, and keeps the checkpoints in the table of Tail/Store.
-- - go/import_export.go: ImportExport, which is `importSQLiteDB`. Its tables have the NULLs that the schema
--   allows, since another file may bring them; those of Storage have none but in the prompt, as the sync of
--   the logs writes them.
-- Prelude has the shared notation: tests, lists, byte strings, 64-bit words (Int64), maps as association
-- lists (Maps, Distinct), what regular expressions are made of (Patterns), the sorting of strings (Sorting)
-- and floats as an interface (Floats).
-- Examples has the test data.
--
-- Choices: a string is its list of bytes; spaces and letters are those of ASCII where strings.TrimSpace,
-- ToLower and EqualFold read them. An `int` is a 64-bit pattern, a number below 2^64; sums wrap
-- around. A `float64` is any type with the machine's operations; what a theorem needs of IEEE 754 is
-- a record of laws (`IsMonotone`). Every loop is structural recursion, so no fuel is needed but in
-- `rounds`, where it is the number of rounds that `range` fixes, and in `extract_within`, where it is more
-- than the ASCII bytes of any string in the JSON value.
--
-- Not modelled: the SQL engine and the migrations of old schemas, which are the engine's; a NULL in the
-- rows that the statistics read; the import and export of JSON lines and the older command line; the
-- commands gh and ssh, the connection and the reconnecting loop of the tail prototype; the handlers, the pages, the charts and the streams of codespaces of the dashboard;
-- the commands and their output and the desktop shell, which are input and output.
pub mod Prelude
pub mod Domain
pub mod Costing
pub mod Parsing
pub mod ImportExport
pub mod Storage
pub mod Sync
pub mod Termstatus
pub mod Display
pub mod Tail
pub mod Examples
pub mod StatsService
pub mod Dashboard
