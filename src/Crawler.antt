-- ===== src/Crawler.antt =====
-- src/crawler/crawler.py: `_build_result`, and the table of processors that `start` and `resume`
-- register.
pub mod Summary
pub mod Bootstrap
pub mod Sessions
pub mod Running
pub mod Scope
pub mod Resume
pub mod Closing
pub mod Tests
use web_crawler.Prelude.{ℕ, ◌-◌, Option, none, some, List, [], Text, lit, leb, if◌then◌else◌}
use web_crawler.Prelude.Int.{ℤ, pos, negsuc}
use web_crawler.Types.{CrawlState, CrawlResult}
use web_crawler.Store.{Store}
use web_crawler.Store.Queries.{get_state_counts, counts_get, total}
use web_crawler.Dispatcher.{register}
use web_crawler.Processors.{Processor, html, image, video, pdf}

-- `a - b`
abbrev pub difference : ℕ → ℕ → ℤ
difference a b = if leb b a then pos (a - b) else negsuc (b - a - 1)

unfoldable pub processors : List (Text × Processor)
unfolding register
processors = register (lit "application/pdf") pdf (
    register (lit "video/") video
      (register (lit "image/") image (register (lit "text/html") html [])))

-- Before the store is opened there is none.
unfoldable pub build_result : ℕ → ℕ → Option Store → CrawlResult
build_result now started none = record {
  total_discovered = 0;
  total_completed = 0;
  total_failed = 0;
  total_terminal_failed = 0;
  duration_ms = difference now started;
}
build_result now started (some s) =
    let counts = get_state_counts s in
    record {
      total_discovered = total counts;
      total_completed = counts_get counts CrawlState.completed;
      total_failed = counts_get counts CrawlState.failed;
      total_terminal_failed = counts_get counts CrawlState.terminal_failed;
      duration_ms = difference now started;
    }
