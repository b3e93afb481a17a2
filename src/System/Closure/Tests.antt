-- ===== src/System/Closure/Tests.antt =====
-- A page that links to itself is the whole crawl.
use web_crawler.Prelude.{◌≡◌, ◌⊎◌, refl, true, false, none, some, [], ◌∷◌, lit}
use web_crawler.Types.{WorkerResult, Status, ok}
use web_crawler.Store.{UrlRecord, find_record}
use web_crawler.Store.Invariant.{is_final}
use web_crawler.Store.Tests.{config, key, held, store_of}
use web_crawler.Processors.{Media}
use web_crawler.Worker.{do_process}
use web_crawler.Worker.Tests.{lib, search, media, worker, lease, page}
use web_crawler.System.{System, new_system}
use web_crawler.System.Runs.{done}
use web_crawler.System.Closure.{link_finished}
use web_crawler.Worker
use web_crawler.Prelude
use web_crawler.Store.Metadata
use web_crawler.Store.Queries
use web_crawler.Pipeline.Normalizer
use web_crawler.Pipeline.Build
use web_crawler.Pipeline.Context
use web_crawler.Pipeline.Percent
use web_crawler.Pipeline.Filter
use web_crawler.Scheduler.{is_crawl_complete}
use web_crawler.Scheduler

abbrev to_itself : Media
to_itself = record media { urljoin = λ base link. ok key }

abbrev crawled : System
crawled = new_system 10 0 (store_of held)

abbrev reported : WorkerResult
reported = record {
  normalized_url = key;
  status = Status.completed;
  content_hash = some (1 ∷ 2 ∷ []);
  content_type = some (lit "text/html");
  discovered_urls = key ∷ key ∷ key ∷ key ∷ [];
  failure_reason = none;
}

link_finished_example :
    (r : UrlRecord) × (find_record key
        (do_process lib search to_itself worker (λ i. 20) (ok page) lease (store_of held)).0.records
      ≡ some r)
    × ((is_crawl_complete
            (do_process lib search to_itself worker (λ i. 20) (ok page) lease (store_of held)).0
          ≡ false)
        ⊎ (is_final r.crawl_state ≡ true))
unfolding do_process Prelude.text_eq lit Prelude.lower Metadata.store_html_metadata
    Normalizer.normalize Normalizer.run_steps Build.build Normalizer.execute_step
    Normalizer.reconstruct Context.trailing_slash Percent.decode_unreserved Percent.sub
    Percent.uppercase_percent_encoding Filter.execute Filter.run_steps Filter.execute_step
    Filter.search_any Worker.passes Queries.exists Scheduler.is_crawl_complete Queries.counts_get
    Queries.get_state_counts
link_finished_example =
    link_finished lib search to_itself worker (λ i. 20) (ok page) lease reported key config crawled
      _ refl refl (done _)
