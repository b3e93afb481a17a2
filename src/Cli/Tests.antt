-- ===== src/Cli/Tests.antt =====
-- Commands that fail.
use web_crawler.Prelude.{◌≡◌, refl, true, some, Text, lit}
use web_crawler.Prelude.Int.{pos}
use web_crawler.Types.{CrawlerConfig, ok}
use web_crawler.Store.{empty_store}
use web_crawler.Crawler.Bootstrap.{start_session}
use web_crawler.Crawler.Tests.{host, site}
use web_crawler.Cli.{crawl, crashed, interrupted, main}
use web_crawler.Config.Yaml.{Yaml, empty, from_yaml, not_mapping}
use web_crawler.Pipeline.Build.{default_config}
use web_crawler.Cli.Exits.{uninterrupted, main_unread}

abbrev greedy : CrawlerConfig
greedy = record site { max_concurrency = pos 101 }

-- Files that are empty.
abbrev blank : Yaml
blank = record {
  Mapping = CrawlerConfig;
  no_items = site;
  safe_load = λ path. ok empty;
  crawler_config = λ c. ok c;
  pipeline_config = λ c. ok default_config;
  defaults = refl;
}

main_unread_example :
    (type : Text) × (main
        (λ p. true)
        (λ p. uninterrupted (start_session host (λ w s. s) 5 90 (from_yaml blank p) (lit "out")))
        (λ s. (s, interrupted))
        (some (crawl (lit "config.yaml")))
        empty_store
      ≡ (empty_store, crashed (not_mapping (lit "crawler.types.CrawlerConfig") type)))
main_unread_example =
    main_unread host (λ w s. s) 5 90 (λ p. true) (lit "out") empty_store blank (lit "config.yaml")
      (λ s. (s, interrupted)) empty refl refl (λ m e. cc)
