-- ===== src/Crawler/Summary.antt =====
-- The result that src/crawler/crawler.py reports, against the rows of the store.
use web_crawler.Prelude.{ℕ, ◌+◌, ◌≡◌, refl, true, some, List, [], ◌∷◌, arith, count, length, All}
use web_crawler.Types.{CrawlState}
use web_crawler.Store.{UrlRecord, Store}
use web_crawler.Store.Queries.{in_state}
use web_crawler.Store.Counts.{state_counts}
use web_crawler.Store.Invariant.{is_final}
use web_crawler.Scheduler.{is_crawl_complete}
use web_crawler.Scheduler.Rounds.{is_crawl_complete_lem}
use web_crawler.Crawler.{build_result}

final_count :
    (rows : List UrlRecord)
    → All (λ r. is_final r.crawl_state ≡ true) rows
    → count (in_state CrawlState.completed) rows
        + count (in_state CrawlState.failed) rows
        + count (in_state CrawlState.terminal_failed) rows
      ≡ length rows
final_count [] h = refl
final_count (r ∷ rs) h = ground (arith, final_count rs h.1, h.0)

-- The numbers that a crawl reports are those of the rows of its store.
pub build_result_lem :
    (now started : ℕ) (s : Store)
    → let result = build_result now started (some s) in
      (result.total_discovered ≡ length s.records)
      × (result.total_completed ≡ count (in_state CrawlState.completed) s.records)
      × (result.total_failed ≡ count (in_state CrawlState.failed) s.records)
      × (result.total_terminal_failed ≡ count (in_state CrawlState.terminal_failed) s.records)
unfolding build_result
build_result_lem now started s =
    let (counted, all) = state_counts s in
    (
      all,
      counted CrawlState.completed,
      counted CrawlState.failed,
      counted CrawlState.terminal_failed,
    )

-- Once the scheduler calls the crawl complete, the result counts every row that was discovered as
-- completed, failed or permanently failed.
pub build_result_complete :
    (now started : ℕ) (s : Store)
    → is_crawl_complete s ≡ true
    → (build_result now started (some s)).total_completed
        + (build_result now started (some s)).total_failed
        + (build_result now started (some s)).total_terminal_failed
      ≡ (build_result now started (some s)).total_discovered
build_result_complete now started s h =
    let counted = build_result_lem now started s in
    omega (
      arith,
      counted.0,
      counted.1,
      counted.2,
      counted.3,
      final_count s.records ((is_crawl_complete_lem s).0 h),
    )
