-- ===== src/Worker/Closure.antt =====
-- That the links which a worker of src/crawler/worker.py reports are in the store.
use web_crawler.Prelude.{
  ℕ, arith, decimal, ◌++◌, ◌+◌, ◌≡◌, refl, ◌∙◌, ap, Bool, true, false, Option, none, some, List, [],
  ◌∷◌, Text, lit, length, ◌||◌, inl, inr, Bool-cases, if◌then◌else◌,
}
use web_crawler.Prelude.Int.{pos, ltz, lez}
use web_crawler.Types.{
  FetchResponse, LeaseResult, ProcessorResult, WorkerResult, Status, Result, ok, err,
}
use web_crawler.Store.{Store, Action, continue}
use web_crawler.Store.Queries.{exists, get_redirect_count}
use web_crawler.Store.Lifecycle.{completes, step}
use web_crawler.Store.Known.{step-known}
use web_crawler.Limiter.{header}
use web_crawler.Processors.{Media}
use web_crawler.Pipeline.Context.{UrlLib}
use web_crawler.Pipeline.Normalizer.{normalize}
use web_crawler.Pipeline.Filter.{Search}
use web_crawler.Worker.{
  Worker, failure, is_transient, classify, declares_too_much, enqueue_normalized,
  enqueue_discovered_urls, process_content, record_content, handle_body, handle_200, follow,
  handle_redirect, by_status, do_process,
}
use web_crawler.Worker.KeySet.{has}
use web_crawler.Worker.Discovery.{wanted_keys, exists-links}

-- What holds of both branches of a test holds of the test.
of_if :
    {A : Type 0}
    → (P : Store × Result A → Type 0) (test : Bool) (m n : Action A) (s : Store) → P (m s)
    → P (n s)
    → P ((if test then m else n) s)
of_if P true m n s p q = p
of_if P false m n s p q = q

module _ (lib : UrlLib) (search : Search) (media : Media) (w : Worker) (clock : ℕ → ℕ)
    (lease : LeaseResult) (key : Text) where
  -- A key that the links of a result want is in the store.
  abbrev pub Covers : Store × Result WorkerResult → Type 0
  Covers (t, ok result) =
      has key (wanted_keys lib search media w (lease.depth + 1) result.discovered_urls) ≡ true
      → exists key t ≡ true
  Covers (t, err e) = Unit

  Covers-continue :
      {A : Type 0}
      → (r : Result A) (t : Store) (f : A → Action WorkerResult)
      → ((a : A) → r ≡ ok a → Covers (f a t))
      → Covers (continue r f t)
  Covers-continue (ok a) t f h = h a refl
  Covers-continue (err e) t f h = tt

  -- A result without links.
  no_links : (t : Store) → has key [] ≡ true → exists key t ≡ true
  no_links t h = absurd (cc)

  Covers-record :
      (response : FetchResponse) (body : List ℕ) (result : Option ProcessorResult) (s : Store)
      → Covers (record_content lib search media w clock response body lease result s)
  unfolding step
  Covers-record response body none s = no_links s
  Covers-record response body (some result) s =
      let first =
        enqueue_discovered_urls lib search media w clock 0 result.discovered_urls (lease.depth + 1)
          s in
      Covers-continue first.1 first.0 _ (λ _ done wanted.
        step-known key first.0
          (completes (clock (length result.discovered_urls)) lease.normalized_url lease.lease_token
            _ _ _)
          (exists-links lib search media w key clock result.discovered_urls 0 (lease.depth + 1) s
              done
            ∙ ap (λ b. if b then true else exists key s) wanted))

  Covers-handle_200 :
      (response : FetchResponse) (s : Store)
      → Covers (handle_200 lib search media w clock response lease s)
  unfolding handle_200
  Covers-handle_200 response s = go response.body
    where
      go :
          (body : Option (List ℕ))
          → Covers (handle_body lib search media w clock response lease body s)
      go none = no_links s
      go (some body) =
          let first = process_content lib search media w response lease s in
          of_if Covers
            (declares_too_much lib search media w (header (lit "content-length") response.headers)
              || ltz w.config.max_content_size (pos (length body)))
            _ _ s (no_links s)
            (Covers-continue first.1 first.0 _
              (λ result e. Covers-record response body result first.0))

  Covers-handle_redirect :
      (response : FetchResponse) (s : Store)
      → Covers (handle_redirect lib search media w clock response lease s)
  unfolding handle_redirect
  Covers-handle_redirect response s = go (header (lit "location") response.headers)
    where
      go : (location : Option Text) → Covers (follow lib search media w clock lease location s)
      go none = no_links s
      go (some []) = no_links s
      go (some (c ∷ location)) =
          let redirects = get_redirect_count lease.normalized_url s in
          let next =
            enqueue_normalized lib search media w (normalize lib w.normalizer (c ∷ location))
              (clock 0) (c ∷ location) lease.depth (some lease.url) (redirects + 1) s in
          elim (Bool-cases (lez w.config.max_redirects (pos redirects))) [
            | inl many ↦ rw many (no_links s)
            | inr few ↦ rw few (Covers-continue next.1 next.0 _ (λ _ e. no_links _))
          ]

  -- The `match` either hands on to one of the two handlers or fails.
  by_status-cases :
      (P : Store × Result WorkerResult → Type 0) (response : FetchResponse) (s : Store)
      → P (handle_200 lib search media w clock response lease s)
      → P (handle_redirect lib search media w clock response lease s)
      → ((status : Status) (reason : Text) → P (s, ok (failure status lease reason)))
      → P (by_status lib search media w clock response lease s)
  unfolding by_status
  by_status-cases P response s page redirect fails =
      let missing = fails Status.terminal_failed (lit "not found") in
      let blocked = fails Status.terminal_failed (lit "blocked") in
      let limited = fails Status.retry (lit "rate limited") in
      let broken = fails Status.retry (lit "server error") in
      let unexpected =
        fails Status.terminal_failed
          (lit "unexpected status code: " ++ decimal response.status_code) in
      ground arith

  Covers-by_status :
      (response : FetchResponse) (s : Store)
      → Covers (by_status lib search media w clock response lease s)
  Covers-by_status response s =
      by_status-cases Covers response s (Covers-handle_200 response s)
        (Covers-handle_redirect response s) (λ status reason. no_links s)

  Covers-caught :
      (p : Store × Result WorkerResult) → Covers p → Covers (p.0, ok (classify lease p.1))
  Covers-caught (t, ok result) h = h
  Covers-caught (t, err e) h = elim (Bool-cases (is_transient e.kind)) [
    | inl transient ↦ rw transient (no_links t)
    | inr permanent ↦ rw permanent (no_links t)
  ]

  -- The links of a result that the processing reports are in the store afterwards, as far as they are
  -- wanted.
  pub Covers-do_process :
      (outcome : Result FetchResponse) (s : Store)
      → Covers (do_process lib search media w clock outcome lease s)
  unfolding do_process
  Covers-do_process (err e) s = Covers-caught (s, err e) tt
  Covers-do_process (ok response) s =
      Covers-caught (by_status lib search media w clock response lease s)
        (Covers-by_status response s)
