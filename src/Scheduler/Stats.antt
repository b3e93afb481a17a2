-- ===== src/Scheduler/Stats.antt =====
-- The statistics that src/crawler/scheduler.py logs: `_log_progress` and `_log_final_stats`.
use web_crawler.Prelude.{ℕ, ◌+◌, ◌≡◌, refl, List, [], ◌∷◌, lit, arith, count, length, if◌then◌else◌}
use web_crawler.Types.{CrawlState, state_eq}
use web_crawler.Store.{UrlRecord, Store}
use web_crawler.Store.Queries.{get_state_counts, counts_get, total, in_state}
use web_crawler.Store.Counts.{state_counts}
use web_crawler.Logger.{CrawlLogger, Context, number, progress, force_progress}

pub record Stats : Type 0 where
  pub total_discovered : ℕ
  pub completed : ℕ
  pub failed : ℕ
  pub in_progress : ℕ
  pub queue_depth : ℕ

unfoldable pub progress_stats : Store → Stats
progress_stats s =
    let counts = get_state_counts s in
    record {
      total_discovered = total counts;
      completed = counts_get counts CrawlState.completed;
      failed = counts_get counts CrawlState.failed + counts_get counts CrawlState.terminal_failed;
      in_progress = counts_get counts CrawlState.in_progress;
      queue_depth = counts_get counts CrawlState.pending + counts_get counts CrawlState.retry;
    }

abbrev pub stats_fields : Stats → Context
stats_fields t =
    (lit "total_discovered", number t.total_discovered)
    ∷ (lit "completed", number t.completed)
    ∷ (lit "failed", number t.failed)
    ∷ (lit "in_progress", number t.in_progress)
    ∷ (lit "queue_depth", number t.queue_depth)
    ∷ []

unfoldable pub log_progress : ℕ → Store → CrawlLogger → CrawlLogger
unfolding progress_stats
log_progress now s l = progress now (stats_fields (progress_stats s)) l

pub record FinalStats : Type 0 where
  pub total_discovered : ℕ
  pub completed : ℕ
  pub failed : ℕ
  pub terminal_failed : ℕ
  pub pending : ℕ
  pub in_progress : ℕ
  pub retry : ℕ

unfoldable pub final_stats : Store → FinalStats
final_stats s =
    let counts = get_state_counts s in
    record {
      total_discovered = total counts;
      completed = counts_get counts CrawlState.completed;
      failed = counts_get counts CrawlState.failed;
      terminal_failed = counts_get counts CrawlState.terminal_failed;
      pending = counts_get counts CrawlState.pending;
      in_progress = counts_get counts CrawlState.in_progress;
      retry = counts_get counts CrawlState.retry;
    }

abbrev pub final_fields : FinalStats → Context
final_fields t =
    (lit "total_discovered", number t.total_discovered)
    ∷ (lit "completed", number t.completed)
    ∷ (lit "failed", number t.failed)
    ∷ (lit "terminal_failed", number t.terminal_failed)
    ∷ (lit "pending", number t.pending)
    ∷ (lit "in_progress", number t.in_progress)
    ∷ (lit "retry", number t.retry)
    ∷ []

unfoldable pub log_final_stats : ℕ → Store → CrawlLogger → CrawlLogger
unfolding final_stats
log_final_stats now s l = force_progress now (final_fields (final_stats s)) l

-- Whether a state is `other`, as a number.
abbrev marks : CrawlState → CrawlState → ℕ
marks state other = if state_eq state other then 1 else 0

one_state :
    (c : CrawlState)
    → marks c CrawlState.pending
        + marks c CrawlState.in_progress
        + marks c CrawlState.completed
        + marks c CrawlState.retry
        + marks c CrawlState.failed
        + marks c CrawlState.terminal_failed
      ≡ 1
one_state CrawlState.pending = refl
one_state CrawlState.in_progress = refl
one_state CrawlState.completed = refl
one_state CrawlState.retry = refl
one_state CrawlState.failed = refl
one_state CrawlState.terminal_failed = refl

counts_sum :
    (rows : List UrlRecord)
    → count (in_state CrawlState.pending) rows
        + count (in_state CrawlState.in_progress) rows
        + count (in_state CrawlState.completed) rows
        + count (in_state CrawlState.retry) rows
        + count (in_state CrawlState.failed) rows
        + count (in_state CrawlState.terminal_failed) rows
      ≡ length rows
counts_sum [] = refl
counts_sum (r ∷ rs) = omega (arith, counts_sum rs, one_state r.crawl_state)

-- The figures that the scheduler logs account for every row of the store: both while it runs and at
-- the end they add up to the number of rows, which is the one reported as discovered.
pub stats_sum :
    (s : Store)
    → let now = progress_stats s in
      let last = final_stats s in
      (now.total_discovered ≡ length s.records)
      × (now.completed + now.failed + now.in_progress + now.queue_depth ≡ now.total_discovered)
      × (last.total_discovered ≡ length s.records)
      × (last.completed + last.failed + last.terminal_failed + last.pending + last.in_progress
            + last.retry
          ≡ last.total_discovered)
unfolding progress_stats final_stats
stats_sum s =
    let (counted, all) = state_counts s in
    let sum = counts_sum s.records in
    let pending = counted CrawlState.pending in
    let in_progress = counted CrawlState.in_progress in
    let completed = counted CrawlState.completed in
    let retry = counted CrawlState.retry in
    let failed = counted CrawlState.failed in
    let terminal_failed = counted CrawlState.terminal_failed in (all, omega arith, all, omega arith)
