-- ===== src/System/Runs.antt =====
-- Runs of the crawl as a whole, of the loop in src/crawler/scheduler.py and its workers.
use web_crawler.Types.{CrawlerConfig}
use web_crawler.System.{System, Step}

-- Any number of steps.
pub data Run (config : CrawlerConfig) : System → System → Type 0 where
  done : (x : System) → Run config x x
  next : (x y z : System) → Step config x y → Run config y z → Run config x z
