-- ===== src/Crawler/Tests.antt =====
-- The result of a crawl of one page, and a session that is started and resumed.
use web_crawler.Prelude.{
  ℕ, ◌+◌, ◌≤◌, ◌≡◌, ◌≢◌, [], inl, none, refl, ap, true, some, ◌++◌, Text, lit, text_eq, any, arith,
}
use web_crawler.Prelude.Int.{pos}
use web_crawler.Types.{CrawlerConfig, ok}
use web_crawler.Store.{Store, empty_store, has_key}
use web_crawler.Store.Settings.{store_config}
use web_crawler.Store.Frontier.{enqueue, new_record}
use web_crawler.Config.{validate_seed_url}
use web_crawler.Config.Ranges.{validate_config-ok}
use web_crawler.Pipeline.Tests.{raw, parsed, lib, normalizes}
use web_crawler.Worker.{Worker}
use web_crawler.Worker.Tests as Page
use web_crawler.Worker.Processing.{process_url, over}
use web_crawler.Scheduler.{process_lease}
use web_crawler.Crawler.Scope.{Crawl, StaysInside, process_lease-StaysInside}
use web_crawler.System.{System, new_system}
use web_crawler.System.Runs.{Run}
use web_crawler.System.Coherence.{IsCoherent}
use web_crawler.Crawler.Bootstrap.{Host, create_output_directories, wire, start, resume}
use web_crawler.Crawler.Sessions.{initialized, start_lem}
use web_crawler.Crawler.Running.{start-IsCoherent}
use web_crawler.Crawler.Resume.{frozen, resume_started}
use web_crawler.Store.Tests.{done, held, store_of, config, codec}
use web_crawler.Crawler.{build_result}
use web_crawler.Crawler.Summary.{build_result_complete}

build_result_complete_example :
    (build_result 90 5 (some (store_of done))).total_completed
      + (build_result 90 5 (some (store_of done))).total_failed
      + (build_result 90 5 (some (store_of done))).total_terminal_failed
    ≡ (build_result 90 5 (some (store_of done))).total_discovered
unfolding web_crawler.Scheduler.is_crawl_complete web_crawler.Store.Queries.counts_get
    web_crawler.Store.Queries.get_state_counts
build_result_complete_example = build_result_complete 90 5 (store_of done) refl

abbrev pub host : Host
host = record {
  json = codec;
  lib = lib;
  urlparse = λ url. parsed;
  join = λ base subdir. base ++ (lit "/" ++ subdir);
  mkdir = λ path. ok tt;
  open_store = ok tt;
}

abbrev pub site : CrawlerConfig
site = record config { seed_url = raw }

abbrev seed : Text
seed = lit "http://a/~x?a=1&b=2"

started : start host (ok site) (lit "out") 5 empty_store ≡ (
  initialized host 5 site seed (store_config codec site parsed.netloc empty_store),
  ok (wire site parsed.netloc (lit "out")),
)
unfolding validate_seed_url create_output_directories lit text_eq
started =
    start_lem host (ok site) (lit "out") 5 empty_store site parsed.netloc seed refl
      ((validate_config-ok site).1 (record {
        depth = tt;
        concurrency = (omega arith, omega arith);
        retries = (omega arith, omega arith);
        content_size = (omega arith, omega arith);
        batch = (omega arith, omega arith);
      }))
      refl refl refl normalizes

abbrev begun : Store
begun = (start host (ok site) (lit "out") 5 empty_store).0

abbrev pub crawler : Worker
crawler = wire site parsed.netloc (lit "out")

start-IsCoherent_example :
    (n : ℕ) × (crawler.config.max_concurrency ≡ pos n)
    × (1 ≤ n)
    × (n ≤ 100)
    × ((later : ℕ) (x : System)
        → Run crawler.config (new_system n later begun) x
        → IsCoherent crawler.config n x)
start-IsCoherent_example =
    start-IsCoherent host (ok site) (lit "out") 5 crawler (ap (λ p. p.1) started)

named : parsed.netloc ≢ []
unfolding lit
named e = cc

seed_there : any (has_key seed) begun.records ≡ true
unfolding enqueue new_record store_config lit text_eq
seed_there = ap (λ p. any (has_key seed) p.0.records) started

resume_started_example :
    ((resume host (lit "out") 90 begun).1 ≡ ok (wire (frozen site) parsed.netloc (lit "out")))
    × ((resume host (lit "out") 90 begun).0.records ≡ begun.records)
resume_started_example =
    resume_started host (ok site) (lit "out") 5 90 empty_store begun crawler seed
      (ap (λ p. p.1) started) normalizes named refl seed_there

-- A site of which the seed is a leased row, and that has a depth limit.
abbrev limited : CrawlerConfig
limited = record config { include_patterns = []; max_depth = some (pos 3) }

process_lease-StaysInside_example :
    StaysInside Page.lib Page.search Page.media limited (lit "a") (lit "out") (store_of held)
    × StaysInside Page.lib Page.search Page.media limited (lit "a") (lit "out") (
        process_lease limited 30
          (process_url Page.lib Page.search Page.media
            (wire limited (lit "a") (lit "out"))
            (λ i. 20)
            (λ i. 15)
            2
            over
            (ok Page.page))
          Page.lease
          (store_of held))
unfolding text_eq lit
process_lease-StaysInside_example =
    process_lease-StaysInside Page.lib Page.search Page.media limited (lit "a") (lit "out")
      (λ i. 20) (λ i. 15) 2 over (ok Page.page) Page.lease 30 (store_of held) (store_of held)
      (
        record {
          parsed = record {
            scheme = lit "http";
            netloc = lit "a";
            hostname = some (lit "a");
            port = ok none;
            path = Page.lease.url;
            query = [];
          };
          parses = refl;
          http = refl;
          domain = refl;
          depth_limit = refl;
          excluded = tt;
          included = inl refl;
        },
        tt,
      )
      Crawl.begun
