-- ===== src/Fetcher/Failures.antt =====
-- What becomes of a URL whose fetch fails: src/crawler/fetcher.py under the retries of
-- src/crawler/rate_limiter.py, within the worker and the scheduler that call them.
use web_crawler.Prelude.{ℕ, Bool, ◌<◌, ◌≡◌, refl, ◌∙◌, true, false, none, some, ◌++◌, Text, lit}
use web_crawler.Types.{CrawlerConfig, FetchResponse, LeaseResult, Error, ErrorKind, Result, ok, err}
use web_crawler.Store.{Store}
use web_crawler.Store.Transitions.{mark_terminal_failed}
use web_crawler.Limiter.{Floats, execute_with_retry}
use web_crawler.Limiter.Backoff.{IsThrottled, execute_with_retry_lem}
use web_crawler.Pipeline.Context.{UrlLib}
use web_crawler.Pipeline.Filter.{Search}
use web_crawler.Processors.{Media}
use web_crawler.Worker.{Worker, do_process, is_transient}
use web_crawler.Scheduler.{
  process_lease, handle_outcome, handle_worker_result, handle_status, handle_retry, reason_or,
}
use web_crawler.Fetcher.{
  Request, Failure, timed_out, unconnected, bad_status, transport, other, Response, Outcome,
  responded, raised, Envelopes, mock_request, mock_fetch, mock_error, read_json, is_malformed,
  no_dict,
}

-- The exceptions that httpx declares for a request.
abbrev pub IsHttpx : Failure → Type 0
IsHttpx (other e) = ⊥
IsHttpx _ = Unit {0}

module _ (floats : Floats) (lib : UrlLib) (search : Search) (media : Media) (w : Worker)
    (clock : ℕ → ℕ) (config : CrawlerConfig) (now : ℕ) (lease : LeaseResult) (s : Store) where
  -- The scheduler's handling of a lease whose worker fetches by `fetch`, attempt for attempt.
  abbrev pub processed : (ℕ → Result FetchResponse) → Store
  processed fetch =
      process_lease config now
        (do_process lib search media w clock (execute_with_retry floats fetch).1) lease s

  module _ (fetch : ℕ → Result FetchResponse) (k : ℕ) (few : k < 10)
      (throttled : (i : ℕ) → i < k → IsThrottled (fetch i)) where
    outcome : (e : Error) → fetch k ≡ err e → (execute_with_retry floats fetch).1 ≡ err e
    outcome e h = (execute_with_retry_lem floats fetch k few throttled (rw h tt)).0 ∙ h

    processed_transient :
        (e : Error)
        → fetch k ≡ err e
        → is_transient e.kind ≡ true
        → processed fetch
          ≡ handle_retry config now lease (reason_or (some e.message) (lit "unknown error")) s
    unfolding process_lease do_process handle_outcome handle_worker_result handle_status
    processed_transient e h t = rw (outcome e h) (rw t refl)

    processed_permanent :
        (e : Error)
        → fetch k ≡ err e
        → is_transient e.kind ≡ false
        → processed fetch
          ≡ (mark_terminal_failed lease.normalized_url lease.lease_token
              (some (lit "processing error: " ++ e.message))
              none
              s).0
    unfolding process_lease do_process handle_outcome handle_worker_result handle_status lit
    processed_permanent e h t = rw (outcome e h) (rw t refl)

  module _ (envelopes : Envelopes) (client : Bool)
      (network : ℕ → Request → Outcome (envelopes.Value)) (k : ℕ) (few : k < 10)
      (throttled : (i : ℕ)
        → i < k
        → IsThrottled (mock_fetch envelopes client (network i) lease.url)) where
    mock_kind : (url : Text) (e : Failure) → IsHttpx e → is_transient (mock_error url e).kind ≡ true
    mock_kind url (timed_out t) h = refl
    mock_kind url (unconnected t) h = refl
    mock_kind url (bad_status t) h = refl
    mock_kind url (transport t) h = refl
    mock_kind url (other e) h = absurd h

    -- A URL whose fetch through the mock API fails with an exception of httpx is put on retry, or
    -- marked as failed where its retries are used up.
    pub mock_failure_lem :
        (e : Failure)
        → network k (mock_request envelopes client lease.url) ≡ raised e
        → IsHttpx e
        → processed (λ i. mock_fetch envelopes client (network i) lease.url)
          ≡ handle_retry config now lease
              (reason_or (some (mock_error lease.url e).message) (lit "unknown error"))
              s
    unfolding mock_fetch
    mock_failure_lem e fails h =
        processed_transient (λ i. mock_fetch envelopes client (network i) lease.url) k few throttled
          (mock_error lease.url e) (rw fails refl) (mock_kind lease.url e h)

    -- A response of the mock API that is not JSON, whose envelope has no status, or whose fields do
    -- not make a `FetchResponse`, puts the URL on retry, or marks it as failed where its retries are
    -- used up, with the reason that the response is malformed.
    pub mock_malformed :
        (r : Response (envelopes.Value)) (e : Error)
        → network k (mock_request envelopes client lease.url) ≡ responded r
        → read_json envelopes r.json ≡ err e
        → is_malformed e.kind ≡ true
        → processed (λ i. mock_fetch envelopes client (network i) lease.url)
          ≡ handle_retry config now lease (lit "malformed fetch response: " ++ e.message) s
    unfolding mock_fetch lit
    mock_malformed r e answers reads m =
        processed_transient (λ i. mock_fetch envelopes client (network i) lease.url) k few throttled
          (record {
            kind = ErrorKind.transient;
            message = lit "malformed fetch response: " ++ e.message;
          })
          (rw answers (rw reads (rw m refl))) refl

    -- A response of the mock API that is JSON but no object marks the URL as permanently failed,
    -- although it is as malformed as any other.
    pub mock_no_dict :
        (r : Response (envelopes.Value)) (v : envelopes.Value)
        → network k (mock_request envelopes client lease.url) ≡ responded r
        → r.json ≡ ok v
        → envelopes.as_dict v ≡ none
        → processed (λ i. mock_fetch envelopes client (network i) lease.url)
          ≡ (mark_terminal_failed lease.normalized_url lease.lease_token
              (some (lit "processing error: " ++ no_dict.message))
              none
              s).0
    unfolding mock_fetch
    mock_no_dict r v answers reads none_of =
        processed_permanent (λ i. mock_fetch envelopes client (network i) lease.url) k few throttled
          no_dict (rw answers (rw reads (rw (none_of, read_json) refl))) refl
