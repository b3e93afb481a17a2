-- ===== src/Report/Statuses.antt =====
-- The status counters of src/analyze_crawl.py against the reasons that src/crawler/scheduler.py
-- writes.
use web_crawler.Prelude.{◌+◌, ◌≡◌, refl, ◌∙◌, true, false, ℕ, some, Text, lit, text_eq}
use web_crawler.Types.{CrawlState, CrawlerConfig, LeaseResult}
use web_crawler.Store.{UrlRecord, Store, find_record}
use web_crawler.Store.Frontier.{is_held}
use web_crawler.Store.Rows.{HasDistinctKeys}
use web_crawler.Store.Transitions.{fail}
use web_crawler.Scheduler.{handle_retry, exceeds, exhausted}
use web_crawler.Scheduler.Retries.{handle_retry_written}
use web_crawler.Report.{matches, server_error}

exhausted_reason :
    (config : CrawlerConfig) (reason : Text) (r : UrlRecord)
    → matches server_error (fail CrawlState.failed (some (exhausted config reason)) r) ≡ false
unfolding matches lit text_eq
exhausted_reason config reason r = refl

-- A URL that has failed for good after its retries, for whatever reason, a server error included, is
-- in no row that the report counts as a server error.
pub server_error_uncounted :
    (config : CrawlerConfig) (now : ℕ) (lease : LeaseResult) (reason : Text) (s : Store)
    (r : UrlRecord)
    → HasDistinctKeys s.records
    → find_record lease.normalized_url s.records ≡ some r
    → is_held lease.normalized_url lease.lease_token r ≡ true
    → exceeds (r.retry_count + 1) config.max_retries ≡ true
    → (f : UrlRecord) × (find_record lease.normalized_url
          (handle_retry config now lease reason s).records
        ≡ some f)
      × (f.crawl_state ≡ CrawlState.failed)
      × (matches server_error f ≡ false)
server_error_uncounted config now lease reason s r d e h over = (
  fail CrawlState.failed (some (exhausted config reason)) r,
  handle_retry_written config now lease reason s r d e h ∙ rw over refl,
  refl,
  exhausted_reason config reason r,
)
