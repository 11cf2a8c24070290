-- ===== src/Lib.antt =====
-- The service that ranks the most frequent search queries of the last minutes. An event reaches
-- `RuntimeHandler.HandleRaw` as bytes, which validates it and calls `Handler.Handle`. That one asks
-- the deduplicator whether the event's id is new, normalizes its query, asks the anti-fraud
-- evaluator whether it may count, and adds it to the window engine, whose `Snapshot` is the top.
--
-- The files and the code that they are about:
-- - Window: internal/engine/window/ring_buffer.go. `new_engine`, `add` and `snapshot` are
--   `NewEngine`, `Add` and `Snapshot`; the `…Locked` methods have functions of their own. Sums,
--   Order, Ranking, Ring and History hold the lemmas, Invariant, Top, Unique, Bounds, Sliding,
--   Replay, Refinement, Reading and Limits the proofs. Window/Version is snapshot.go beside it.
-- - Dedup: internal/engine/dedup/ttl_store.go. Dedup/History compares it with its past calls.
-- - Normalizer: internal/engine/normalizer/normalizer.go. Normalizer/Text has the definitions,
--   with the functions of Go's `strings`, `regexp` and `unicode` that it calls.
-- - AntiFraud: internal/engine/antifraud/rules.go. AntiFraud/State has the configuration, the
--   state and its upkeep, AntiFraud/Rules has `Evaluate`, cut into stages at its checks.
-- - Ingest: internal/usecase/ingest. Ingest/Handler is handler.go, Ingest/Runtime is
--   runtime_handler.go, both over interfaces that are records of methods on a state; Ingest/System
--   fills them with the components above, as cmd/trends-service/main.go does.
-- - Kafka: internal/adapters/kafka/consumer.go. Kafka/Settings has the configuration and the
--   backoff, Kafka/Consumer the loop of `Run` and its retries, over the library's reader, the
--   handler and the context, which are parameters on a state.
-- - Stoplist: internal/usecase/stoplist/commands.go over the interface of
--   internal/ports/stoplist_store.go, with the normalizer as the updater. Stoplist/Concurrent has the
--   commands call by call, as concurrent requests make them, Stoplist/Schedules what any order of
--   the calls can come to.
-- - Validator: internal/adapters/contracts/search_event_validator.go over the JSON libraries, which
--   are parameters.
-- - Postgres: internal/adapters/storage/postgres/stoplist_repo.go. Postgres/Repository has `Add`,
--   `Remove` and `List` over the calls of `database/sql`, Postgres/Opening the opening and the
--   migrations, Postgres/Tables what the statements do to the tables, Postgres/Store the repository
--   as the store of the commands, Postgres/Keeping the same for concurrent commands.
-- - Metrics: internal/adapters/metrics. Metrics/Prometheus has the counters, Metrics/Render the text.
-- - Config: internal/config/config.go over an environment, and what main makes of it.
-- - Main: cmd/trends-service/main.go up to the call of `Run`, over the libraries and the environment.
--   Main/Startup is about the ends of the start, Main/Serving about the answers after it,
--   Main/Mixed about messages and requests that take turns, which a driver of this development joins.
-- - Http: internal/adapters/httpapi. Http/TopHandlers and Http/StopHandlers have the handlers, over
--   the ports of Http/Ports; Http/Wiring fills these as main does, with
--   internal/usecase/top/query.go. Http/Docs has the pages of documentation and the patterns,
--   Http/Keeping what the requests leave alone, Http/Stale a stop word and the top after it.
-- - App: `Run` of internal/app/service.go as a relation of steps that events label. App/Reports and
--   App/Counts are about the channel of errors, App/Runs about the runs.
-- - Service: the consumer over the runtime handler, as cmd/trends-service/main.go joins them.
--   Service/Totals and Service/Bounds relate the window to the messages that were taken.
-- - Domain and Clock: internal/domain and internal/ports/clock.go.
-- - Common: lists, strings, maps and signed numbers. Tests: data, small runs and examples.
--
-- What is abstracted:
-- - A reading of the clock is an argument. A time is a count of nanoseconds since 1970, and Go's
--   zero time is `none`. A duration is a signed count of nanoseconds.
-- - A method that holds a mutex while it works is one function on the state: its calls are
--   sequences of such steps, in any order. The commands on the stop-list, which hold none
--   between their calls, are also modelled call by call, with a schedule of the clients' turns. In
--   Main/Mixed a message or a request is handled in one go.
-- - A string is the list of its runes. The Unicode tables are a parameter; the theorems that need
--   it assume what the Unicode standard says of white space, case and the bar.
-- - A map is a list of entries, and a loop over it follows the list. That the order does not show
--   in the top is Window/Unique.
-- - A score is a whole number, since the service only adds the score 1; the arithmetic of the
--   window's counters and of seconds is that of numbers without a bound, which `int64` does not
--   leave in the life of a process. The counters of the metrics wrap around as in the source. A
--   duration that leads before 1970 stops there.
-- - A Go panic is the result `none`. Memory has no bound: a size of the window for which `make` would
--   panic is taken like any other.
-- - No definition runs on fuel that can be short: a loop goes over a list or over the retries that
--   are left. Only the endless loop of the consumer's `Run` is taken for a number of rounds, and
--   what is said of it is said of every number, or of as many rounds as there are messages.
-- - The libraries are parameters: the database and what its statements do to the tables (PostgreSQL
--   with no one else who writes to it), the JSON libraries, `time.ParseDuration`, `%q` and `%.2f`.
-- - A response is its status, its content type and the data of its body; a request is what a handler
--   reads of it.
--
-- Not modelled: signals, the closing of the database at the end of the process, logging, the matching
-- of patterns by `net/http`, the encoding of JSON, the interfaces and types that nothing uses, and the
-- libraries themselves.
pub mod AntiFraud
pub mod App
pub mod Clock
pub mod Common
pub mod Config
pub mod Dedup
pub mod Domain
pub mod Http
pub mod Ingest
pub mod Kafka
pub mod Main
pub mod Metrics
pub mod Normalizer
pub mod Postgres
pub mod Service
pub mod Stoplist
pub mod Tests
pub mod Validator
pub mod Window
