-- ===== src/Lib.antt =====
-- A verification library of the MT5 sync service: a model of the service's own logic, translated from
-- its Python sources, with the theorems that make it correct.
--
-- The service keeps trading accounts in a database and syncs them from MetaTrader 5 terminals. Each
-- terminal has a worker process (pool/worker.py) that binds it (mt5api/terminal.py), fetches the
-- history of an account and measures the offset of the broker's clock (mt5api/clock.py). The pool
-- manager (pool/manager.py) has a queue for each worker (pool/worker_handle.py), judges the health
-- of the terminals (pool/health.py), retries, quarantines and restarts, and hands each result to the
-- sync service (services/sync_service.py), which writes it to the database (repositories/) and sets
-- the account's state. The proxy registry (services/proxy_service.py) gives each terminal a proxy.
--
-- Common: Boolean tests, lists, dicts as association lists in insertion order, signed integers over
--   the native numbers, what a search of a list finds, stable sorting, grouping into a dict of lists,
--   decimal texts, and `Float`, the interface of the floating point numbers, of which no law is
--   assumed; its instance in the examples is the whole numbers (Common.Whole).
--
-- Domain: domain/fx.py (`FxPosition` is `FXPosition`, `kind` a field `type`) and domain/rows.py. The
--   documents that pydantic dumps and reads back are the interface `Documents`, SHA-256 is `Hashing`.
--
-- Pool.Protocol: pool/protocol.py, domain/enums.py, mt5api/report.py.
-- Pool.Health: pool/health.py. `HealthBoard` is the class; `record_result` is `record`, `fail`,
--   `add_strike` and `judge` are its guards, its strike and what follows, `success` is `_success`,
--   and `placeable`, `keepable`, `due_for_reclone`, `quorum` and the reclone marks are the methods of
--   those names. Times are microseconds. `none` stands for a KeyError.
-- Pool.Worker: pool/worker_handle.py. A start answers with one of three outcomes, and what the
--   operating system does is an input. `Phase` says where the dispatcher's coroutine stands.
-- Pool.Manager: pool/manager.py. `Pool` is the state of `PoolManager`, its futures as a dict from
--   numbers to results. asyncio runs one coroutine at a time from one `await` to the next, so that
--   every handler of Pool.Manager.Steps is what happens between two of them, `step` chooses it by the
--   event that ends an `await`, and a history is any list of events, in any order: the interleavings
--   of the coroutines are the orders of the events. `submit`, `resolve`, `should_retry`, `enqueue`
--   keep their names; Pool.Manager.Run is `_run_item`, `_quarantine` and `_complete`, cut at `await`.
--   `timed_out_of_drain` is the cancellation of a running task at the drain timeout of `stop`, and
--   `abandoned` keeps the items that it leaves without an answer. The queue is asyncio's PriorityQueue,
--   as an ordered list.
--
-- Mt5api.Clock: mt5api/clock.py and mt5api/timeutil.py. `ServerClock` holds (time, minutes) steps;
--   `offset_at`, `to_utc` and `to_server` keep their names, `steps_of` is `_steps`, `weekends_of` is
--   `_weekends`, `friday_close_utc` and `week_bounds_utc` keep theirs, and `scan_symbol` runs on the
--   rounds that its loop gets to: it answers at the first late round at the latest. Naive datetimes
--   are whole microseconds, and the quotients that the source rounds as floats are rounded exactly. The
--   time zone database is a parameter (`Closes`), as is the ISO text of a datetime (`IsoText`). The
--   search for a Friday has fuel 6, since one of any seven days is a Friday.
-- Mt5api.Terminal: mt5api/terminal.py and `_run_task` of pool/worker.py. `Terminal` has the
--   attributes that change, `Setup` those that do not; `Scene`, `Probes` and `Session` are what the
--   operating system, the proxy and the MetaTrader5 package answer. `prepare` is `_prepare`,
--   `terminal_failure` is `failure`, `connect` keeps its name. An error has its code and its flags,
--   not its text.
-- Mt5api.Fetch: mt5api/fetch.py: `wait_for_history` on the rounds that its loop gets to,
--   `clock_symbols`, and `fetch_clock` with its two module-level dicts as `ClockCache`.
-- Mt5api.Raw: mt5api/raw.py. A row of the MetaTrader5 package is its named fields (`Mt5Row`), and
--   `deal_of`, `order_of` and the like are the methods `from_mt5`.
-- Mt5api.Build: mt5api/builders/ and mt5api/payload.py. The functions keep their names;
--   Build.Comment reads the marks in the comment of a deal as the regular expression does, for ASCII.
-- Mt5api.Enrich: mt5api/enrichment.py. Enrich.Loop is `enrich_mae_mfe` on what each round answers; a
--   position that it sets is kept by its place among the positions, as the source sets the object.
-- Mt5api.History: the other reads of mt5api/fetch.py, `history_withheld`, and the middle of
--   `_run_task`, from `fetch_history` to `rows_from_payload` (`fetch_payload`).
--
-- Services: `Store` has the tables of domain/models.py, their unique constraints as the keys of
--   dicts. Services.Account and Services.Accounts are repositories/account_repo.py,
--   services/terminal_affinity.py and services/account_service.py; Services.Rows is
--   repositories/position_repo.py and repositories/transaction_repo.py, where `none` is a statement
--   that the database refuses because two of its rows have the same key; Services.Sync is
--   services/sync_service.py: `persist_result` is `_persist`, `persist` commits it or rolls it back,
--   `request` and `scheduler_tick` hand the accounts to the pool. Services.Queries is
--   services/query_service.py with the listings of the repositories. Services.Proxies is
--   services/proxy_service.py and repositories/proxy_repo.py: `load_proxies`, and
--   `rotate` with the rows that it reads and those that it writes to. Floating
--   point numbers and the documents of the orders are type parameters there, only passed on.
--   Batches have as much fuel as there are rows, and each takes a row at least.
--
-- Pool.Manager.Upkeep: the reap loop's recloning, master refresh and digest (pool/manager.py), cut at
--   `await` as Pool.Manager is, with `Upkeep` the attributes that they use and `Lock` the reclone lock.
--   `reaper_cancelled` is the cancellation by `stop`, wherever the reaper is.
-- Orchestrator: orchestrator/deps.py, orchestrator/routes/ and schemas/. `create_answer` and
--   `sync_answer` are the answers of `create_account` and `sync_account`, on what the service and the
--   syncs come to; `get_positions` and the like, `pool_status`, `overall` and `healthz` keep
--   their names. Orchestrator.Report is the health report (schemas/pool.py), its problems constructors.
--
-- Utils: utils/logging.py (`redact`, `_safe`, `log_event`) and utils/alerts.py (`notify`, and the
--   durations of `describe_duration` as constructors). The letters of a key are ASCII.
--
-- Not modelled: the copies of directories (pool/reclone.py), the wiring of the application
-- (orchestrator/app.py, main.py), the database session, the formats of the log, the delivery of
-- alerts, process tables, cache files and deployment scripts, which are input, output or
-- configuration. In a task, the fetch is a parameter, since only its kind of end matters there;
-- `fetch_payload` is that parameter.
pub mod Common
pub mod Domain
pub mod Pool
pub mod Mt5api
pub mod Services
pub mod Utils
pub mod Orchestrator
