-- ===== src/Worker/Outcome.antt =====
-- What src/crawler/worker.py reports: the result of every page, and its classification by the
-- status code or the exception.
use web_crawler.Prelude.{
  ℕ, ◌+◌, ◌≡◌, ◌≢◌, refl, true, ◌||◌, ◌==◌, Option, none, some, List, [], ◌∷◌, Text, lit, length,
  if◌then◌else◌, Bool-cases, inl, inr, arith,
}
use web_crawler.Prelude.Int.{ltz, lez, pos}
use web_crawler.Types.{
  FetchResponse, LeaseResult, ProcessorResult, WorkerResult, Status, Error, Result, ok, err,
}
use web_crawler.Store.{Store, Action, continue}
use web_crawler.Store.Queries.{get_redirect_count}
use web_crawler.Limiter.{header}
use web_crawler.Processors.{Media}
use web_crawler.Pipeline.Context.{UrlLib}
use web_crawler.Pipeline.Normalizer.{normalize}
use web_crawler.Pipeline.Filter.{Search}
use web_crawler.Worker.{
  Worker, classify, is_transient, declares_too_much, terminal_failed, enqueue_normalized,
  enqueue_discovered_urls, process_content, record_content, handle_body, handle_200, follow,
  handle_redirect, by_status, do_process,
}

-- The status of a result.
abbrev pub status_of : Result WorkerResult → Option Status
status_of (ok result) = some result.status
status_of (err e) = none

-- The status that `_do_process` reports for an exception, and for a status code that it does not
-- look into the response of.
abbrev status_of_error : Error → Status
status_of_error e = if is_transient e.kind then Status.retry else Status.terminal_failed

abbrev pub status_of_code : ℕ → Status
status_of_code code =
    if (code == 429) || (code == 500) then Status.retry else Status.terminal_failed

-- A result is a report for the lease.
abbrev IsFor : LeaseResult → Result WorkerResult → Type 0
IsFor lease (ok result) = result.normalized_url ≡ lease.normalized_url
IsFor lease (err e) = Unit {0}

IsFor-classify :
    (lease : LeaseResult) (r : Result WorkerResult)
    → IsFor lease r
    → (classify lease r).normalized_url ≡ lease.normalized_url
IsFor-classify lease (ok result) h = h
IsFor-classify lease (err e) h = ground arith

IsFor-continue :
    {A : Type 0}
    → (lease : LeaseResult) (r : Result A) (t : Store) (f : A → Action WorkerResult)
    → ((a : A) (u : Store) → IsFor lease (f a u).1)
    → IsFor lease (continue r f t).1
IsFor-continue lease (ok a) t f h = h a t
IsFor-continue lease (err e) t f h = tt

module _ (lib : UrlLib) (search : Search) (media : Media) (w : Worker) (clock : ℕ → ℕ)
    (lease : LeaseResult) (s : Store) where
  -- A fetch that raises changes nothing in the store, and is reported for a retry exactly if the
  -- exception is a connection's, a timeout's, the system's, a transient one or that of an exhausted
  -- rate limit.
  pub do_process_raised :
      (e : Error)
      → ((do_process lib search media w clock (err e) lease s).0 ≡ s)
        × (status_of (do_process lib search media w clock (err e) lease s).1
            ≡ some (status_of_error e))
  unfolding do_process
  do_process_raised e = (refl, ground arith)

  -- A response with a status other than 200, 301 and 302 changes nothing in the store, and is
  -- reported for a retry if the status is 429 or 500, and as a permanent failure otherwise.
  pub do_process_status :
      (r : FetchResponse)
      → r.status_code ≢ 200
      → r.status_code ≢ 301
      → r.status_code ≢ 302
      → ((do_process lib search media w clock (ok r) lease s).0 ≡ s)
        × (status_of (do_process lib search media w clock (ok r) lease s).1
            ≡ some (status_of_code r.status_code))
  unfolding do_process by_status
  do_process_status r a b c = (ground arith, ground arith)

  -- A page whose body is longer than the configuration allows changes nothing in the store, and is
  -- a permanent failure, whatever length its headers declare.
  pub do_process_oversized :
      (r : FetchResponse)
      → r.status_code ≡ 200
      → (body : List ℕ) → r.body ≡ some body
      → ltz w.config.max_content_size (pos (length body)) ≡ true
      → do_process lib search media w clock (ok r) lease s
        ≡ (s, ok (terminal_failed lease (lit "content too large")))
  unfolding do_process by_status handle_200
  do_process_oversized r c body b l =
      let is_200 : (r.status_code == 200) ≡ true = ground arith in
      let too_large : (declares_too_much lib search media w
              (header (lit "content-length") r.headers)
            || ltz w.config.max_content_size (pos (length body)))
          ≡ true =
        ground arith in
      rw is_200 (rw b (rw too_large refl))

  IsFor-handle_200 :
      (r : FetchResponse) (t : Store)
      → IsFor lease (handle_200 lib search media w clock r lease t).1
  unfolding handle_200
  IsFor-handle_200 r t = go r.body
    where
      recorded :
          (body : List ℕ) (result : Option ProcessorResult) (u : Store)
          → IsFor lease (record_content lib search media w clock r body lease result u).1
      recorded body none u = refl
      recorded body (some result) u =
          let first =
            enqueue_discovered_urls lib search media w clock 0 result.discovered_urls
              (lease.depth + 1) u in
          IsFor-continue lease first.1 first.0 _ (λ _ v. refl)

      go :
          (body : Option (List ℕ))
          → IsFor lease (handle_body lib search media w clock r lease body t).1
      go none = refl
      go (some body) =
          let first = process_content lib search media w r lease t in
          elim (Bool-cases (
            declares_too_much lib search media w (header (lit "content-length") r.headers)
            || ltz w.config.max_content_size (pos (length body)))) [
              | inl large ↦ rw large refl
              | inr fits ↦ rw fits (IsFor-continue lease first.1 first.0 _ (recorded body))
            ]

  IsFor-handle_redirect :
      (r : FetchResponse) (t : Store)
      → IsFor lease (handle_redirect lib search media w clock r lease t).1
  unfolding handle_redirect
  IsFor-handle_redirect r t = go (header (lit "location") r.headers)
    where
      go :
          (location : Option Text)
          → IsFor lease (follow lib search media w clock lease location t).1
      go none = refl
      go (some []) = refl
      go (some (c ∷ location)) =
          let redirects = get_redirect_count lease.normalized_url t in
          let next =
            enqueue_normalized lib search media w (normalize lib w.normalizer (c ∷ location))
              (clock 0) (c ∷ location) lease.depth (some lease.url) (redirects + 1) t in
          elim (Bool-cases (lez w.config.max_redirects (pos redirects))) [
            | inl many ↦ rw many refl
            | inr few ↦ rw few (IsFor-continue lease next.1 next.0 _ (λ _ v. refl))
          ]

  IsFor-by_status :
      (r : FetchResponse) (t : Store) → IsFor lease (by_status lib search media w clock r lease t).1
  unfolding by_status
  IsFor-by_status r t =
      let page = IsFor-handle_200 r t in let redirect = IsFor-handle_redirect r t in ground arith

  -- Whatever the fetch returns or raises, and whatever the store, the normalizer, the filter and the
  -- processors do with the page, the worker reports a result for the URL of its lease and raises
  -- nothing.
  pub do_process_reports :
      (outcome : Result FetchResponse)
      → (result : WorkerResult) × ((do_process lib search media w clock outcome lease s).1
          ≡ ok result)
        × (result.normalized_url ≡ lease.normalized_url)
  unfolding do_process
  do_process_reports (err e) = (_, refl, IsFor-classify lease (err e) tt)
  do_process_reports (ok r) = (_, refl, IsFor-classify lease _ (IsFor-by_status r s))
