-- ===== src/Worker/Processing.antt =====
-- `process_url` of src/crawler/worker.py: `_do_process` with the heartbeat beside it. The renewals fall
-- into the time of the fetch, before the page is worked on.
use web_crawler.Prelude.{ℕ, ◌-◌}
use web_crawler.Types.{FetchResponse, LeaseResult, WorkerResult, Error, Result, err}
use web_crawler.Store.{Action}
use web_crawler.Processors.{Media}
use web_crawler.Pipeline.Context.{UrlLib}
use web_crawler.Pipeline.Filter.{Search}
use web_crawler.Worker.{Worker, do_process}
use web_crawler.Worker.Heartbeat.{beats}

-- The task of the heartbeat when it is awaited in the end: it has returned or is cancelled, or a call
-- of the database in it has raised.
pub data HeartbeatTask : Type 0 where
  over : HeartbeatTask
  raised : Error → HeartbeatTask

-- The `finally` block. `suppress` lets every exception through but for that of the cancellation, and
-- it takes the place of what the `try` block returns.
abbrev pub awaited : HeartbeatTask → Result WorkerResult → Result WorkerResult
awaited over result = result
awaited (raised e) result = err e

-- `skipped` of the three renewals are not reached before the cancellation; the renewals happen at
-- the times `beat_at`.
unfoldable pub process_url :
    UrlLib
    → Search
    → Media
    → Worker
    → (clock beat_at : ℕ → ℕ) → (skipped : ℕ) → HeartbeatTask
    → Result FetchResponse
    → LeaseResult
    → Action WorkerResult
process_url lib search media w clock beat_at skipped task outcome lease s =
    let renewed = beats beat_at (λ i t. t) w.config.lease_timeout_ms lease (3 - skipped) 0 s in
    let (s', result) = do_process lib search media w clock outcome lease renewed in
    (s', awaited task result)
