-- ===== src/Config/Tests.antt =====
-- A configuration at the bounds of what src/crawler/crawler.py accepts.
use web_crawler.Prelude.{◌≡◌, ◌↔◌, refl, some, []}
use web_crawler.Prelude.Int.{pos}
use web_crawler.Types.{CrawlerConfig, ok}
use web_crawler.Config.Ranges.{InRange, validate_config-ok}
use web_crawler.Config.{validate_config, validate_seed_url, ParsedUrl, is_http, is_blank}

abbrev config : CrawlerConfig
config = record {
  seed_url = [];
  max_depth = some (pos 1000);
  max_concurrency = pos 100;
  max_retries = pos 0;
  max_content_size = pos 1024;
  max_redirects = pos 5;
  include_patterns = [];
  exclude_patterns = [];
  lease_timeout_ms = 60000;
  batch_size = pos 500;
  progress_interval_ms = 10000;
}

accepts : validate_config config ≡ ok tt
unfolding validate_config web_crawler.Config.check_depth
accepts = refl

validate_config-ok_example : (validate_config config ≡ ok tt) ↔ InRange config
validate_config-ok_example = validate_config-ok config
