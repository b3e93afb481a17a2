-- ===== src/Scheduler/Bound.antt =====
-- What holds of every row and every store that a crawl of src/crawler/scheduler.py reaches.
use web_crawler.Prelude.{
  ℕ, ◌+◌, ◌≤◌, ◌≡◌, Text, refl, inl, inr, true, none, some, lit, arith, All, Bool-cases, is_some,
}
use web_crawler.Prelude.Int.{pos}
use web_crawler.Types.{CrawlerConfig, LeaseResult, WorkerResult, Status, Result, ok, err, retry}
use web_crawler.Store.{UrlRecord, Store}
use web_crawler.Store.Frontier.{new_record}
use web_crawler.Store.Queries.{get_retry_count}
use web_crawler.Store.Lifecycle.{retries, terminates, fails, step}
use web_crawler.Store.Invariant.{IsValid, step-IsValid}
use web_crawler.Scheduler.{
  handle_retry, handle_worker_result, handle_outcome, handle_status, exceeds, exhausted, reason_or,
  compute_retry_delay,
}
use web_crawler.Scheduler.Kept.{Reaches, start, noted, called, handled, IsKept, Reaches-All}

abbrev Within : ℕ → UrlRecord → Type 0
Within m r = r.retry_count ≤ m

IsKept-Within : (m : ℕ) → IsKept (Within m)
unfolding new_record
IsKept-Within m = record {
  fresh = λ now key url depth parent redirects. omega arith;
  taken = λ token until r b. b;
  extended = λ until r b. b;
  reset_ = λ r b. b;
  completed_ = λ now hash mime etag r b. b;
  failed_ = λ reason r b. b;
  terminated = λ reason r b. b;
}

-- However the crawl goes, no row ever counts more retries than the configuration allows, where that
-- number is not negative.
pub Reaches-retries :
    (config : CrawlerConfig) (m : ℕ) (s : Store)
    → config.max_retries ≡ pos m
    → Reaches config s
    → All (λ r. r.retry_count ≤ m) s.records
Reaches-retries config m s e reach =
    Reaches-All (Within m) (IsKept-Within m) config (λ n at reason r h b. ground arith) s reach

-- A row that waits for its next attempt has a time for it.
abbrev pub IsScheduled : UrlRecord → Type 0
IsScheduled r = r.crawl_state ≡ retry → is_some r.next_retry_at ≡ true

IsKept-IsScheduled : IsKept IsScheduled
unfolding new_record
IsKept-IsScheduled = record {
  fresh = λ now key url depth parent redirects e. cc;
  taken = λ token until r b e. cc;
  extended = λ until r b. b;
  reset_ = λ r b e. cc;
  completed_ = λ now hash mime etag r b e. cc;
  failed_ = λ reason r b e. cc;
  terminated = λ reason r b e. cc;
}

-- However the crawl goes, every row that waits for a retry has a time at which it is due.
pub Reaches-IsScheduled :
    (config : CrawlerConfig) (s : Store) → Reaches config s → All IsScheduled s.records
Reaches-IsScheduled config s reach =
    Reaches-All IsScheduled IsKept-IsScheduled config (λ n at reason r h b e. refl) s reach

handle_retry-IsValid :
    (config : CrawlerConfig) (now : ℕ) (lease : LeaseResult) (reason : Text) (s : Store)
    → IsValid s
    → IsValid (handle_retry config now lease reason s)
unfolding handle_retry step
handle_retry-IsValid config now lease reason s v =
    let next = get_retry_count lease.normalized_url s + 1 in
    elim (Bool-cases (exceeds next config.max_retries)) [
      | inl over ↦ rw over (
          step-IsValid s
            (fails lease.normalized_url (some lease.lease_token) (some (exhausted config reason))
              none)
            v)
      | inr left ↦ rw left (
          step-IsValid s
            (retries lease.normalized_url lease.lease_token next
              (some (now + compute_retry_delay next)) none (some reason))
            v)
    ]

handle_outcome-IsValid :
    (config : CrawlerConfig) (now : ℕ) (lease : LeaseResult) (outcome : Result WorkerResult)
    (s : Store)
    → IsValid s
    → IsValid (handle_outcome config now lease outcome s)
unfolding handle_outcome handle_worker_result step
handle_outcome-IsValid config now lease (err e) s v =
    handle_retry-IsValid config now lease e.message s v
handle_outcome-IsValid config now lease (ok result) s v = of_status result.status
  where
    of_status :
        (status : Status) → IsValid (handle_status config now lease result.failure_reason status s)
    of_status Status.completed = v
    of_status Status.retry =
        handle_retry-IsValid config now lease
          (reason_or result.failure_reason (lit "unknown error")) s v
    of_status Status.terminal_failed =
        step-IsValid s
          (terminates lease.normalized_url lease.lease_token
            (some (reason_or result.failure_reason (lit "permanent error"))) none)
          v

-- Every store that a crawl reaches is valid.
pub Reaches-IsValid : (config : CrawlerConfig) (s : Store) → Reaches config s → IsValid s
Reaches-IsValid config s start = record { keys = tt; rows = tt }
Reaches-IsValid config s (noted {s = t} reach _ e) =
    let v = Reaches-IsValid config t reach in record { keys = rw e v.keys; rows = rw e v.rows }
Reaches-IsValid config s (called {s = t} reach c d) =
    step-IsValid t c (Reaches-IsValid config t reach)
Reaches-IsValid config s (handled {s = t} reach now lease outcome) =
    handle_outcome-IsValid config now lease outcome t (Reaches-IsValid config t reach)
