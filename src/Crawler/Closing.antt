-- ===== src/Crawler/Closing.antt =====
-- The end of a session of src/crawler/crawler.py: what `start` and `resume` do when the loop has
-- ended, and `stop`, which another coroutine calls. The workers have been waited for.
use web_crawler.Prelude.{ℕ, ◌≡◌, refl, Bool, true, false, Option, none, some, Text, lit, ◌++◌}
use web_crawler.Types.{CrawlResult, Error, ErrorKind, Result, ok, err}
use web_crawler.Store.{Store}
use web_crawler.Scheduler.Stats.{log_final_stats}
use web_crawler.Logger.{CrawlLogger}
use web_crawler.Crawler.{build_result}

-- Whether there is an HTTP client, what the connection is to while it is open, and the logger.
pub record Session : Type 0 where
  pub http_client : Bool
  pub db : Option Store
  pub logger : CrawlLogger

-- What the call of a method of None raises.
abbrev pub no_attribute : Text → Error
no_attribute name = record {
  kind = ErrorKind.other;
  message = lit "'NoneType' object has no attribute '" ++ name ++ lit "'";
}

-- `_log_final_stats`, which reads the database.
abbrev pub log_final : ℕ → Session → Session × Result (Unit {0})
log_final now x = elim x.db [
  | none ↦ (x, err (no_attribute (lit "execute")))
  | some s ↦ (record x { logger = log_final_stats now s x.logger }, ok tt)
]

-- After `shutdown` has waited for the workers.
abbrev pub close_all : Session × Result (Unit {0}) → Session × Result (Unit {0})
close_all (x, ok _) = (record x { http_client = false; db = none }, ok tt)
close_all (x, err e) = (x, err e)

unfoldable pub stop : ℕ → Session → Session × Result (Unit {0})
stop now x = close_all (log_final now x)

abbrev pub count_states : ℕ → ℕ → Option Store → Result CrawlResult
count_states now started none = err (no_attribute (lit "execute"))
count_states now started (some s) = ok (build_result now started (some s))

abbrev pub close_client : ℕ → ℕ → Bool → Session → Session × Result CrawlResult
close_client now started true x = (record x { http_client = false }, count_states now started x.db)
close_client now started false x = (x, err (no_attribute (lit "aclose")))

abbrev pub on_logged : ℕ → ℕ → Session × Result (Unit {0}) → Session × Result CrawlResult
on_logged now started (x, ok _) = close_client now started x.http_client x
on_logged now started (x, err e) = (x, err e)

-- The statistics that `run` logs on its end, and what follows in `start` and `resume`.
unfoldable pub end_session : ℕ → ℕ → Session → Session × Result CrawlResult
end_session now started x = on_logged now started (log_final now x)

-- A session while its loop runs.
abbrev pub opened : Store → CrawlLogger → Session
opened s logger = record { http_client = true; db = some s; logger = logger }

-- A session that ends before it is stopped returns its result, and `stop` succeeds after it. One that
-- is stopped before its loop has noticed, as while it sleeps, raises an AttributeError in its end.
pub stop_orders :
    (now later started : ℕ) (s : Store) (logger : CrawlLogger)
    → let x = opened s logger in
      let ended = end_session now started x in
      let stopped = stop now x in
      (ended.1 ≡ ok (build_result now started (some s)))
      × ((stop later ended.0).1 ≡ ok tt)
      × (stopped.1 ≡ ok tt)
      × ((end_session later started stopped.0).1 ≡ err (no_attribute (lit "execute")))
unfolding end_session stop
stop_orders now later started s logger = (refl, refl, refl, refl)
