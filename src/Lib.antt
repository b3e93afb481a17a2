-- ===== src/Lib.antt =====
-- A model of the web crawler in src/crawler, and what holds of it. Paths below are those of the
-- repository.
--
-- The crawler keeps its whole state in a SQLite database. The scheduler takes leases on URLs from
-- it and hands them to a pool of workers; a worker fetches its URL through a rate limiter, has the
-- content processed, normalizes and filters the links, enqueues them and marks its URL as
-- completed, or reports a failure, which the scheduler turns into a retry or a final state.
--
-- - Types: the enums, models and exceptions of src/crawler/types.py.
-- - Config: `_validate_config` and `_validate_seed_url` of src/crawler/crawler.py; Config.Yaml the
--   `from_yaml` methods of the configurations.
-- - Store: src/crawler/metadata_store.py. A store is a record of tables, and `url_records` a list
--   of rows in the order of insertion. Store.Frontier has `enqueue`, `acquire_lease_batch`,
--   `renew_lease` and `expire_leases`, Store.Transitions the `mark_...` methods, Store.Queries the
--   queries, Store.Settings the stored configuration and Store.Metadata the metadata tables.
--   Store.Rows has lemmas on rows, Store.Moves the moves that a call can make of one row, and
--   Store.Lifecycle the histories of calls; Store.Invariant, Ownership, Acquire, Counts,
--   Discovery, Quiet and Attempts prove what holds of them.
-- - Scheduler: src/crawler/scheduler.py, with `turn` for one turn of the loop of `run`. Its children
--   are about retries, about everything that a crawl can reach (Scheduler.Kept for what every row
--   satisfies), about the turns and their progress, and Scheduler.Stats about the logged statistics.
-- - System: the whole of a running crawl. A state has the store, the loop, the pool, the rest of the
--   batch and the leases in flight, and a step is a turn of the loop, a dispatch, one call of a worker
--   on the store, the handling of an outcome, the end of a worker or a request to shut down, in any
--   order. System.Coherence has what holds of every state, System.Refinement
--   takes the code's handling of one lease to steps, System.Runs are its runs,
--   System.Closure about the links that the crawl follows, and System.Gateway adds the rate limiter
--   that all workers share.
-- - Worker: `_do_process` of src/crawler/worker.py, with src/crawler/url_filter.py. Worker.Outcome is
--   about what is reported, Worker.Effects and Worker.Guarantees about what stays as it was, and
--   Worker.Redirects about redirects from a page with a respelled URL; Worker.Heartbeat is
--   `_lease_heartbeat`, Worker.Processing `process_url` with the two side by side, Worker.Pages and
--   Worker.Downloads are about what is recorded of a page, an image or a video, and Worker.Discovery
--   is about the links of a page, with the frontier as a set of URLs in Worker.KeySet.
-- - Dispatcher and Processors: src/crawler/content_dispatcher.py and src/crawler/processors; Disk:
--   `write_file_if_not_exists`, on a disk of files and with what the operating system does as an
--   argument.
-- - Pipeline: src/crawler/pipeline. Pipeline.Percent, Context, Slash and Normalizer are the
--   normalization steps and their pipeline, Pipeline.Filter the filter, Pipeline.Build the choice of
--   the steps by a configuration, and Pipeline.Filter.Choice what a choice means for the filter.
-- - Limiter: src/crawler/rate_limiter.py, one request in Limiter.Backoff, all of them together in
--   Limiter.Shared, and the former as steps of the latter in Limiter.Requests; Pool:
--   src/crawler/worker_pool.py.
-- - Crawler: src/crawler/crawler.py, with `_build_result` and the processors that are registered.
--   Crawler.Bootstrap has `start` and `resume`, from their checks to the call of `run`, Crawler.Sessions
--   and Resume what they leave in the store, Crawler.Running the crawl that follows,
--   Crawler.Scope the URLs that it takes up (with Worker.Scope), and Crawler.Closing `stop` and the end
--   of a session.
-- - Fetcher: src/crawler/fetcher.py; Fetcher.Failures follows a failed fetch through the rate limiter,
--   the worker and the scheduler, and Fetcher.Body is about what a response becomes.
-- - Logger: src/crawler/logger.py; Cli: src/crawler/__main__.py, with the declared
--   arguments in Cli.Parser; Report: src/analyze_crawl.py.
--
-- Code that may raise is an `Action`: a function from a store to a store and a result, where what
-- was written before an exception stays written. Readings of the clock (in milliseconds) and the
-- random tokens are arguments. `urllib.parse`, `re`, `json`, `hashlib`, the parsers of documents,
-- floats and the disk are records of functions, with the laws that are relied on as fields or as
-- hypotheses. Text is a list of code points; `str.lower` is modelled on the ASCII letters.
--
-- The loops are structural, but for the retries of the rate limiter, which run on fuel: the fuel is
-- the ten attempts that the code makes at most, and the results below on them never meet its end.
--
-- What is taken in one step: the SELECT of `acquire_lease_batch` and its guarded updates; a turn of
-- the loop with its calls on the store, up to the dispatches; and the handling of an outcome. What
-- other coroutines may do between the statements of one of these is not modelled. `drain` of the pool
-- waits for its tasks and changes nothing. The lease time and the progress interval are taken not to be
-- negative, although `_validate_config` does not check them.
--
-- Left out are httpx, argparse, the parsing of YAML, what the database and the HTTP client do when
-- they are opened and closed, and what is printed. The calls of the logger from other modules are
-- left out too, but for those of the statistics.
pub mod Prelude
pub mod Types
pub mod Config
pub mod Store
pub mod Scheduler
pub mod Pipeline
pub mod Limiter
pub mod Pool
pub mod Dispatcher
pub mod Processors
pub mod Worker
pub mod System
pub mod Crawler
pub mod Fetcher
pub mod Logger
pub mod Cli
pub mod Disk
pub mod Report
