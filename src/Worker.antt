-- ===== src/Worker.antt =====
-- src/crawler/worker.py: `Worker._do_process` and what it calls, with `URLFilter.passes` of
-- src/crawler/url_filter.py and `ContentDispatcher.process`. What the rate limiter returns for the
-- fetch, and the readings of the clock, are arguments.
pub mod Outcome
pub mod Guarantees
pub mod Effects
pub mod Redirects
pub mod Heartbeat
pub mod Pages
pub mod Downloads
pub mod Processing
pub mod KeySet
pub mod Discovery
pub mod Closure
pub mod Scope
pub mod Tests
use web_crawler.Prelude.{
  ℕ, zero, suc, ◌+◌, Bool, true, false, Option, none, some, List, [], ◌∷◌, ◌++◌, Text, lit, decimal,
  length, ◌==◌, ◌||◌, if◌then◌else◌,
}
use web_crawler.Prelude.Int.{ℤ, pos, ltz, lez}
use web_crawler.Types.{
  CrawlerConfig, FetchResponse, LeaseResult, ProcessorResult, WorkerResult, Status, Error,
  ErrorKind, Result, ok, err,
}
use web_crawler.Store.{Store, Action, ◌>>=◌, ◌>>◌, pure, raise}
use web_crawler.Store.Frontier.{enqueue}
use web_crawler.Store.Transitions.{mark_completed}
use web_crawler.Store.Queries.{get_redirect_count}
use web_crawler.Store.Metadata.{or_empty}
use web_crawler.Limiter.{header}
use web_crawler.Config.{ParsedUrl}
use web_crawler.Dispatcher.{dispatch}
use web_crawler.Processors.{Media, Processor, process, lift}
use web_crawler.Pipeline.Context.{UrlLib}
use web_crawler.Pipeline.Build.{PipelineConfig}
use web_crawler.Pipeline.Normalizer.{normalize}
use web_crawler.Pipeline.Filter.{Search, FilterContext}
use web_crawler.Pipeline.Filter as Filter

-- `URLFilter`; its store is an argument of `passes`.
pub record UrlFilter : Type 0 where
  pub seed_domain : Text
  pub max_depth : Option ℤ
  pub include_patterns : List Text
  pub exclude_patterns : List Text
  pub pipeline : PipelineConfig

-- The worker with its collaborators; `normalizer` is the configuration of `URLNormalizer`.
pub record Worker : Type 0 where
  pub config : CrawlerConfig
  pub normalizer : PipelineConfig
  pub url_filter : UrlFilter
  pub processors : List (Text × Processor)
  pub output_dir : Text

-- `_terminal_failed` and `_transient_error`.
abbrev pub failure : Status → LeaseResult → Text → WorkerResult
failure status lease reason = record {
  normalized_url = lease.normalized_url;
  status = status;
  content_hash = none;
  content_type = none;
  discovered_urls = [];
  failure_reason = some reason;
}

abbrev pub terminal_failed : LeaseResult → Text → WorkerResult
terminal_failed = failure Status.terminal_failed

abbrev pub transient_error : LeaseResult → Text → WorkerResult
transient_error = failure Status.retry

-- The exceptions of the first `except`. `ConnectionError` and `TimeoutError` are `OSError`s.
abbrev pub is_transient : ErrorKind → Bool
is_transient ErrorKind.connection = true
is_transient ErrorKind.timeout = true
is_transient ErrorKind.os = true
is_transient ErrorKind.rate_limit_exhausted = true
is_transient ErrorKind.transient = true
is_transient ErrorKind.permanent = false
is_transient ErrorKind.queue_overflow = false
is_transient ErrorKind.value = false
is_transient ErrorKind.key = false
is_transient ErrorKind.runtime = false
is_transient ErrorKind.integrity = false
is_transient ErrorKind.other = false

abbrev pub classify : LeaseResult → Result WorkerResult → WorkerResult
classify lease (ok result) = result
classify lease (err e) =
    if is_transient e.kind
    then transient_error lease e.message
    else terminal_failed lease (lit "processing error: " ++ e.message)

-- `try`, `except` and `except Exception` around the processing.
abbrev pub caught : LeaseResult → Action WorkerResult → Action WorkerResult
caught lease m s = ((m s).0, ok (classify lease (m s).1))

module _ (lib : UrlLib) (search : Search) (media : Media) (w : Worker) where
  open media use {is_space, sha256, parse_int}

  unfoldable pub passes : Text → ℕ → Store → Result Bool
  passes url depth s = elim (lib.urlparse url) [
    | ok parsed ↦ ok (
        Filter.execute search w.url_filter.pipeline (record {
          url = url;
          parsed = parsed;
          depth = depth;
          seed_domain = w.url_filter.seed_domain;
          max_depth = w.url_filter.max_depth;
          include_patterns = w.url_filter.include_patterns;
          exclude_patterns = w.url_filter.exclude_patterns;
          store = s;
        }))
    | err e ↦ err e
  ]

  abbrev pub when_passed : Result Bool → Action (Unit {0}) → Action (Unit {0})
  when_passed (ok true) put = put
  when_passed (ok false) put = pure tt
  when_passed (err e) put = raise e

  -- `if normalized and passes(normalized): enqueue(normalized, ...)`
  unfoldable pub enqueue_normalized :
      Option Text → ℕ → Text → ℕ → Option Text → ℕ → Action (Unit {0})
  unfolding passes
  enqueue_normalized none now url depth parent redirects = pure tt
  enqueue_normalized (some []) now url depth parent redirects = pure tt
  enqueue_normalized (some (c ∷ key)) now url depth parent redirects = λ s.
      when_passed (passes (c ∷ key) depth s) (enqueue now (c ∷ key) url depth parent redirects) s

  unfoldable pub enqueue_discovered_urls : (ℕ → ℕ) → ℕ → List Text → ℕ → Action (Unit {0})
  unfolding enqueue_normalized
  enqueue_discovered_urls clock i [] depth = pure tt
  enqueue_discovered_urls clock i (url ∷ urls) depth =
      enqueue_normalized (normalize lib w.normalizer url) (clock i) url depth none 0
      >> enqueue_discovered_urls clock (suc i) urls depth

  -- `ContentDispatcher.process`
  unfoldable pub process_content : FetchResponse → LeaseResult → Action (Option ProcessorResult)
  unfolding dispatch process
  process_content response lease =
      elim (dispatch is_space w.processors
        (or_empty (header (lit "content-type") response.headers))) [
          | none ↦ pure none
          | some p ↦ process media w.output_dir p response lease >>= λ result. pure (some result)
        ]

  abbrev pub declares_too_much : Option Text → Bool
  declares_too_much none = false
  declares_too_much (some t) = elim (parse_int t) [
    | ok n ↦ ltz w.config.max_content_size n
    | err e ↦ false
  ]

  -- The end of `_handle_200`, after the dispatch.
  abbrev pub record_content :
      (ℕ → ℕ) → FetchResponse → List ℕ → LeaseResult → Option ProcessorResult → Action WorkerResult
  record_content clock response body lease none = pure (
      terminal_failed lease (
        lit "unsupported content type: "
        ++ or_empty (header (lit "content-type") response.headers)))
  record_content clock response body lease (some result) =
      let content_type = header (lit "content-type") response.headers in
      enqueue_discovered_urls clock 0 result.discovered_urls (lease.depth + 1) >> λ s. (
        (mark_completed (clock (length result.discovered_urls)) lease.normalized_url
            lease.lease_token (some (sha256 body)) content_type
            (header (lit "etag") response.headers) s).0,
        ok (record {
          normalized_url = lease.normalized_url;
          status = Status.completed;
          content_hash = some (sha256 body);
          content_type = content_type;
          discovered_urls = result.discovered_urls;
          failure_reason = none;
        }),
      )

  abbrev pub handle_body :
      (ℕ → ℕ) → FetchResponse → LeaseResult → Option (List ℕ) → Action WorkerResult
  handle_body clock response lease none = pure (terminal_failed lease (lit "empty body"))
  handle_body clock response lease (some body) =
      if declares_too_much (header (lit "content-length") response.headers)
        || ltz w.config.max_content_size (pos (length body))
      then pure (terminal_failed lease (lit "content too large"))
      else process_content response lease >>= record_content clock response body lease

  unfoldable pub handle_200 : (ℕ → ℕ) → FetchResponse → LeaseResult → Action WorkerResult
  unfolding process_content enqueue_discovered_urls mark_completed
  handle_200 clock response lease = handle_body clock response lease response.body

  abbrev pub complete_redirect : ℕ → LeaseResult → Action WorkerResult
  complete_redirect now lease s = (
    (mark_completed now lease.normalized_url lease.lease_token none none none s).0,
    ok (record {
      normalized_url = lease.normalized_url;
      status = Status.completed;
      content_hash = none;
      content_type = none;
      discovered_urls = [];
      failure_reason = none;
    }),
  )

  abbrev pub follow : (ℕ → ℕ) → LeaseResult → Option Text → Action WorkerResult
  follow clock lease none = pure (terminal_failed lease (lit "missing redirect location"))
  follow clock lease (some []) = pure (terminal_failed lease (lit "missing redirect location"))
  follow clock lease (some (c ∷ location)) = λ s.
      let redirects = get_redirect_count lease.normalized_url s in
      if lez w.config.max_redirects (pos redirects)
      then pure (terminal_failed lease (lit "redirect loop detected")) s
      else (enqueue_normalized (normalize lib w.normalizer (c ∷ location)) (clock 0) (c ∷ location)
              lease.depth (some lease.url) (redirects + 1)
            >> complete_redirect (clock 1) lease)
          s

  unfoldable pub handle_redirect : (ℕ → ℕ) → FetchResponse → LeaseResult → Action WorkerResult
  unfolding enqueue_normalized mark_completed
  handle_redirect clock response lease =
      follow clock lease (header (lit "location") response.headers)

  -- The `match` on the status code.
  unfoldable pub by_status : (ℕ → ℕ) → FetchResponse → LeaseResult → Action WorkerResult
  unfolding handle_200 handle_redirect
  by_status clock response lease =
      if response.status_code == 200
      then handle_200 clock response lease
      else if response.status_code == 301 || (response.status_code == 302)
      then handle_redirect clock response lease
      else if response.status_code == 404
      then pure (terminal_failed lease (lit "not found"))
      else if response.status_code == 403
      then pure (terminal_failed lease (lit "blocked"))
      else if response.status_code == 429
      then pure (transient_error lease (lit "rate limited"))
      else if response.status_code == 500
      then pure (transient_error lease (lit "server error"))
      else pure
          (terminal_failed lease (lit "unexpected status code: " ++ decimal response.status_code))

  unfoldable pub do_process : (ℕ → ℕ) → Result FetchResponse → LeaseResult → Action WorkerResult
  unfolding by_status
  do_process clock outcome lease =
      caught lease (lift outcome >>= λ response. by_status clock response lease)
