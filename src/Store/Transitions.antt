-- ===== src/Store/Transitions.antt =====
-- src/crawler/metadata_store.py: `mark_completed`, `mark_retry`, `mark_terminal_failed` and
-- `mark_failed`.
use web_crawler.Prelude.{ℕ, Bool, ◌&&◌, Option, none, some, Text, count, ltb, or_else}
use web_crawler.Types.{state_eq, CrawlState}
use web_crawler.Store.{UrlRecord, Store, has_key, update}
use web_crawler.Store.Frontier.{is_held}

-- An `UPDATE` on the records and whether it met a row.
unfoldable pub write : (UrlRecord → Bool) → (UrlRecord → UrlRecord) → Store → Store × Bool
unfolding update
write where_ set s =
    (record s { records = update where_ set s.records }, ltb 0 (count where_ s.records))

abbrev pub complete : ℕ → Option Text → Option Text → Option Text → UrlRecord → UrlRecord
complete now hash mime etag r = record r {
  crawl_state = CrawlState.completed;
  content_hash = hash;
  content_type = mime;
  etag = etag;
  last_crawl_timestamp = some now;
  lease_token = none;
  lease_expires_at = none;
}

unfoldable pub mark_completed :
    ℕ → Text → Text → Option Text → Option Text → Option Text → Store → Store × Bool
unfolding write
mark_completed now key token hash mime etag =
    write (is_held key token) (complete now hash mime etag)

abbrev pub schedule : ℕ → Option ℕ → Option Text → UrlRecord → UrlRecord
schedule attempts retry_at reason r = record r {
  crawl_state = CrawlState.retry;
  retry_count = attempts;
  next_retry_at = retry_at;
  failure_reason = reason;
  lease_token = none;
  lease_expires_at = none;
}

unfoldable pub mark_retry :
    Text → Text → ℕ → Option ℕ → Option ℕ → Option Text → Store → Store × Bool
unfolding write
mark_retry key token attempts next_retry_at next_retry_at_ms reason =
    write (is_held key token) (schedule attempts (or_else next_retry_at next_retry_at_ms) reason)

abbrev pub fail : CrawlState → Option Text → UrlRecord → UrlRecord
fail state reason r = record r {
  crawl_state = state;
  failure_reason = reason;
  lease_token = none;
  lease_expires_at = none;
}

unfoldable pub mark_terminal_failed : Text → Text → Option Text → Option Text → Store → Store × Bool
unfolding write
mark_terminal_failed key token failure_reason reason =
    write (is_held key token) (fail CrawlState.terminal_failed (or_else failure_reason reason))

abbrev pub is_waiting : Text → UrlRecord → Bool
is_waiting key r = has_key key r && state_eq r.crawl_state CrawlState.retry

-- `COALESCE(?, failure_reason)`
abbrev pub give_up : Option Text → UrlRecord → UrlRecord
give_up reason r = fail CrawlState.failed (or_else reason r.failure_reason) r

unfoldable pub mark_failed : Text → Option Text → Option Text → Option Text → Store → Store × Bool
unfolding write
mark_failed key (some token) failure_reason reason =
    write (is_held key token) (fail CrawlState.failed (or_else failure_reason reason))
mark_failed key none failure_reason reason =
    write (is_waiting key) (give_up (or_else failure_reason reason))
