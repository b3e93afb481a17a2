-- ===== src/Crawler/Scope.antt =====
-- Where the crawl of a session of src/crawler/crawler.py goes: the loop of src/crawler/scheduler.py
-- with the worker that the session wires, whose filter is the default one.
use web_crawler.Prelude.{ℕ, zero, suc, ◌+◌, ◌-◌, ◌≡◌, refl, subst, List, Text, Bool-cases, inl, inr}
use web_crawler.Types.{CrawlerConfig, FetchResponse, LeaseResult, WorkerResult, Result}
use web_crawler.Store.{UrlRecord, Store}
use web_crawler.Store.Frontier.{renew_lease}
use web_crawler.Store.Lifecycle.{Call, enqueues, renews, completes, step}
use web_crawler.Store.Quiet.{step-AllAt}
use web_crawler.Processors.{Media}
use web_crawler.Pipeline.Context.{UrlLib}
use web_crawler.Pipeline.Filter.{Search}
use web_crawler.Worker.{do_process}
use web_crawler.Worker.Effects.{Admits, Keeps-do_process}
use web_crawler.Worker.Heartbeat.{beats}
use web_crawler.Worker.Processing.{HeartbeatTask, awaited, process_url}
use web_crawler.Worker.Scope.{IsInScope, IsScoped, IsScoped-enqueue}
use web_crawler.Scheduler.{Loop, turn, handle_outcome, process_lease}
use web_crawler.Scheduler.Keeping.{turn-keeps, handle_outcome-keeps}
use web_crawler.System.{IsOwn, discovers, succeeds}
use web_crawler.Crawler.Bootstrap.{wire}

module _ (lib : UrlLib) (find : Search) (media : Media) (config : CrawlerConfig)
    (domain out : Text) where
  -- A call on the store that a worker makes while it processes a URL; it enqueues what the filter has
  -- let through.
  abbrev pub IsFiltered : (lease : LeaseResult) (c : Call) → IsOwn lease c → Type 0
  IsFiltered lease _ (discovers now key url depth parent redirects) =
      Admits lib find media (wire config domain out) key depth
  IsFiltered lease _ (IsOwn.beats now extension) = Unit
  IsFiltered lease _ (succeeds now hash mime etag) = Unit

  -- The stores that the loop and its workers make of a store: turns of the loop, calls of workers,
  -- writes to the other tables and outcomes, in any order and number, with leases of any kind.
  pub data Crawl (start : Store) : Store → Type 0 where
    begun : Crawl start start
    taken :
        (s : Store) (draw : ℕ → Text) (clock : ℕ → ℕ) (active : ℕ) (loop : Loop)
        → Crawl start s
        → Crawl start (turn config draw clock active loop s).0
    worked :
        (s : Store) (lease : LeaseResult) (c : Call) (own : IsOwn lease c)
        → IsFiltered lease c own
        → Crawl start s
        → Crawl start (step s c)
    recorded : (s s' : Store) → s.records ≡ s'.records → Crawl start s → Crawl start s'
    settled :
        (s : Store) (now : ℕ) (lease : LeaseResult) (outcome : Result WorkerResult)
        → Crawl start s
        → Crawl start (handle_outcome config now lease outcome s)

  module _ (start : Store) where
    beats-Crawl :
        (beat_at : ℕ → ℕ) (extension : ℕ) (lease : LeaseResult) (n i : ℕ) (s : Store)
        → Crawl start s
        → Crawl start (beats beat_at (λ i t. t) extension lease n i s)
    unfolding beats step
    beats-Crawl beat_at extension lease zero i s r = r
    beats-Crawl beat_at extension lease (suc n) i s r =
        let renewed =
          worked s lease (renews (beat_at i) lease.normalized_url lease.lease_token extension)
            (IsOwn.beats (beat_at i) extension) tt r in
        elim (Bool-cases
          (renew_lease (beat_at i) lease.normalized_url lease.lease_token extension s).1) [
            | inl more ↦ rw more (beats-Crawl beat_at extension lease n (i + 1) _ renewed)
            | inr lost ↦ rw lost renewed
          ]

    -- A store of the crawl has these rows.
    abbrev HasRows : List UrlRecord → Type 0
    HasRows rows = (t : Store) × Crawl start t × (t.records ≡ rows)

    HasRows-Crawl : (s : Store) → HasRows s.records → Crawl start s
    HasRows-Crawl s (t, r, e) = recorded t s e r

    -- What the code does with a lease, whatever the fetch returns and however the heartbeat ends, is a
    -- part of the crawl: the worker enqueues nothing that the session's filter has not let through.
    process_lease-Crawl :
        (clock beat_at : ℕ → ℕ) (skipped : ℕ) (task : HeartbeatTask)
        (outcome : Result FetchResponse) (lease : LeaseResult) (now : ℕ) (s : Store)
        → Crawl start s
        → Crawl start (
            process_lease config now
              (process_url lib find media
                (wire config domain out)
                clock
                beat_at
                skipped
                task
                outcome)
              lease
              s)
    unfolding process_lease process_url step
    process_lease-Crawl clock beat_at skipped task outcome lease now s r =
        let w = wire config domain out in
        let beaten = beats beat_at (λ i t. t) config.lease_timeout_ms lease (3 - skipped) 0 s in
        let (left, result) = do_process lib find media w clock outcome lease beaten in
        settled left now lease (awaited task result) (
          HasRows-Crawl left (
            Keeps-do_process HasRows lib find media w
              (λ at_ key url depth parent redirects admitted t h. (
                _,
                worked t lease (enqueues at_ key url depth parent redirects)
                    (discovers at_ key url depth parent redirects) admitted (HasRows-Crawl t h),
                refl,
              ))
              lease
              (λ at_ hash mime etag t h. (
                _,
                worked t lease (completes at_ lease.normalized_url lease.lease_token hash mime etag)
                    (succeeds at_ hash mime etag) tt (HasRows-Crawl t h),
                refl,
              ))
              clock outcome beaten
              (
                beaten,
                beats-Crawl beat_at config.lease_timeout_ms lease (3 - skipped) 0 s r,
                refl,
              )))

  -- Every URL of the store is one that the session's filter lets through.
  abbrev pub StaysInside : Store → Type 0
  StaysInside s = IsScoped lib find (wire config domain out).url_filter s.records

  IsOwn-StaysInside :
      (s : Store) (lease : LeaseResult) (c : Call) (own : IsOwn lease c)
      → IsFiltered lease c own
      → StaysInside s
      → StaysInside (step s c)
  unfolding step
  IsOwn-StaysInside s lease _ (discovers now key url depth parent redirects) admitted h =
      IsScoped-enqueue lib find media (wire config domain out) refl now key url depth parent
        redirects admitted s h
  IsOwn-StaysInside s lease _ (IsOwn.beats now extension) filtered h =
      step-AllAt (IsInScope lib find (wire config domain out).url_filter) s
        (renews now lease.normalized_url lease.lease_token extension) tt h
  IsOwn-StaysInside s lease _ (succeeds now hash mime etag) filtered h =
      step-AllAt (IsInScope lib find (wire config domain out).url_filter) s
        (completes now lease.normalized_url lease.lease_token hash mime etag) tt h

  Crawl-StaysInside : (s t : Store) → Crawl s t → StaysInside s → StaysInside t
  Crawl-StaysInside s _ begun h = h
  Crawl-StaysInside s _ (taken t draw clock active loop r) h =
      turn-keeps StaysInside (step-AllAt (IsInScope lib find (wire config domain out).url_filter))
        config draw clock active loop t (Crawl-StaysInside s t r h)
  Crawl-StaysInside s _ (worked t lease c own filtered r) h =
      IsOwn-StaysInside t lease c own filtered (Crawl-StaysInside s t r h)
  Crawl-StaysInside s t' (recorded t _ same r) h =
      subst (IsScoped lib find (wire config domain out).url_filter) same (Crawl-StaysInside s t r h)
  Crawl-StaysInside s _ (settled t now lease outcome r) h =
      handle_outcome-keeps StaysInside
        (step-AllAt (IsInScope lib find (wire config domain out).url_filter)) config now lease
        outcome t (Crawl-StaysInside s t r h)

  -- The crawl stays inside: when every URL of a store is http or https, on the seed domain, within the
  -- depth limit, free of the exclude patterns and met by an include pattern where there are any, so is
  -- every URL of every store that the crawl makes of it, in whatever order the loop and the calls of
  -- the workers come, and so is every URL after the code has handled a further lease, whatever the fetch
  -- returns and however the heartbeat ends.
  pub process_lease-StaysInside :
      (clock beat_at : ℕ → ℕ) (skipped : ℕ) (task : HeartbeatTask) (outcome : Result FetchResponse)
      (lease : LeaseResult) (now : ℕ) (start s : Store)
      → StaysInside start
      → Crawl start s
      → StaysInside s
        × StaysInside (
            process_lease config now
              (process_url lib find media
                (wire config domain out)
                clock
                beat_at
                skipped
                task
                outcome)
              lease
              s)
  process_lease-StaysInside clock beat_at skipped task outcome lease now start s inside crawl = (
    Crawl-StaysInside start s crawl inside,
    Crawl-StaysInside start _
        (process_lease-Crawl start clock beat_at skipped task outcome lease now s crawl) inside,
  )
