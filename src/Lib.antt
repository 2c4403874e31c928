-- ===== src/Lib.antt =====
-- conMon, a network monitor: probes check targets, a state machine turns their results into changes
-- of status, and an alert engine turns the changes into alerts and notifications.
--
-- The program's parts and the modules that model them:
--   internal/model/model.go             Model: targets, results, states, events, alerts
--   internal/fsm/flap.go                Fsm.Flap: changes of status in a sliding window
--   internal/fsm/fsm.go                 Fsm.Machine (state, counters), Fsm.Derive (`derive`),
--                                       Fsm.Process (`Process`, `SetSilent`, `Remove`), Fsm.Runs (runs)
--   internal/alerter/engine.go          Alerter.Rules, Alerter.Engine, Alerter.Build, Alerter.Process
--                                       (`Process`, `dispatch`), Alerter.Lifecycle (`AckAlert`,
--                                       `ResolveByTarget`, `ListAlerts`), Alerter.Calls (runs)
--   internal/config/config.go           Config.Types, Config.Validate, Config.Load (`Load`, its defaults
--                                       and the expansion of the environment)
--   cmd/conmon/server.go, probe.go      Cmd: targets, rules and channels out of the configuration,
--                                       the handler of results (Handler), the start of the server
--                                       (Startup), all of it (Service), and the agent (Agent)
--   internal/probe/probe.go             Probe.Registry, Probe.Registered (what the program registers),
--                                       Probe.Scheduler, Probe.Executor
--   internal/probe/http.go, tcp.go      Probe.Options (the helpers of http.go), Probe.Http, Probe.Tcp
--   internal/probe/dns.go               Probe.Dns (the DNS and the ICMP probe)
--   internal/alerter/notifier/notifier.go  Alerter.Notifier (webhook, DingTalk, WeCom)
--   internal/storage/storage.go         Storage.Queries, Storage.Store (the interface and its promises)
--   internal/storage/sqlite/sqlite.go   Storage.Sqlite: Rows (tables), Where (query builders), Targets,
--                                       Events, Alerts, Nodes, Cleanup, Store, Opening (`Open`,
--                                       `migrate`); over Storage.Sql (the statements of an SQL engine)
--                                       and Storage.Json (JSON columns)
--   internal/api/server.go              Api.Server: Requests (requests and answers), Targets (handlers
--                                       that change something), Reading (the others), Serve (each
--                                       request's handler), Routes (`registerRoutes`, the fallback)
--   internal/api/ws.go                  Api.Hub, Api.Hub.Stream (`handleWS`)
-- Common holds what they share: tests and lists over the native numbers, Go's integers, maps.
-- Examples holds concrete runs.
--
-- How the parts meet: the server makes targets of the configuration (Cmd.Targets), which the scheduler
-- probes (Probe.Scheduler), and takes every result (Cmd.Handler) to `Process` of the state machine, and
-- the event that this returns to the storage, to `Process` of the alert engine, which has its rules from
-- Cmd.Alerting, and to the hub (Api.Hub). Notifiers (Alerter.Notifier) send what the engine dispatches.
-- The start (Cmd.Startup) saves and schedules the configured monitors and the stored targets. The
-- handler and the API (Api.Server) work on the storage through the interface Storage.Store, a record
-- of operations with a record of promises, which the SQLite store fills; they share the state machine
-- and the engine. Cmd.Service puts these together, from the configuration to the end of the server;
-- Cmd.Agent is the other command, which probes and writes to the log.
--
-- How Go is modelled. A method that holds a mutex is one step, a function from the state before to the
-- state after and the results; a run is a list of such calls in any order. What a method reads from
-- outside is an argument: the clock, a fresh identifier, the look-up of a target, the printing of
-- numbers and dates. An instant is a number of nanoseconds, `int` wraps at 64 bits where the code
-- counts (`increment`), `float64` is an abstract type behind the operations of Model.Values. A Go map
-- is an association list, a nil pointer or a missing key is `none`. A loop is recursion on the list,
-- so that nothing here needs fuel. A statement of SQL is an operation of an unknown table, with the
-- test, the order and the conflict rule that its text means; the laws of Storage.Sql are SQLite's of
-- primary keys, WHERE, LIMIT and OFFSET, and a table in memory shows that they can hold; rows that the
-- order of a SELECT leaves open are in an order that each statement chooses anew. Foreign keys are
-- off, as in SQLite unless a connection turns them on. A column of instants is compared as text: the
-- engine's order of the texts that the driver writes is a parameter (`written`; the instants that are
-- compared all come from `time.Now`, in the zone of the process), and instants are read back as they
-- were, without the monotonic reading. JSON's `Marshal` may refuse a value (NaN, the infinities, the
-- year 10000); `toJSON` then writes the empty text. Texts are valid UTF-8. What goes wrong in a
-- statement, the network's answer to a probe or a notification, JSON, the printing of values and HTTP
-- headers are arguments too.
--
-- gin's router is a parameter that refuses a path that it has; the driver of the database is one too,
-- with what SQLite documents of IF NOT EXISTS. What the executor does is a relation between states.
--
-- Not modelled: the static files and texts of the web pages, listening and shutting down, viper's
-- own reading of a file, the flags, the signals and the log, which call third-party code; the main
-- command, which prints two texts; the parsing of the templates of text/template; and `MetricStore` of
-- storage.go, which has neither an implementation nor a user.
pub mod Common
pub mod Model
pub mod Fsm
pub mod Alerter
pub mod Config
pub mod Probe
pub mod Storage
pub mod Api
pub mod Cmd
pub mod Examples
