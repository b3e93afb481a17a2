-- ===== src/System/Refinement.antt =====
-- The handling of one lease by the code, as steps of the crawl: `_process_lease` of
-- src/crawler/scheduler.py around `process_url` of src/crawler/worker.py.
use web_crawler.Prelude.{
  ℕ, zero, suc, ◌+◌, ◌-◌, ◌≡◌, refl, sym, Bool, true, false, List, [], ◌∷◌, ◌++◌, if◌then◌else◌,
}
use web_crawler.Types.{CrawlerConfig, FetchResponse, LeaseResult, Result}
use web_crawler.Store.{UrlRecord, Store}
use web_crawler.Store.Lifecycle.{Call, enqueues, renews, completes, step}
use web_crawler.Processors.{Media}
use web_crawler.Pipeline.Context.{UrlLib}
use web_crawler.Pipeline.Filter.{Search}
use web_crawler.Worker.{Worker, do_process}
use web_crawler.Worker.Heartbeat.{beats}
use web_crawler.Worker.Processing.{HeartbeatTask, awaited, process_url}
use web_crawler.Worker.Effects.{Keeps-do_process}
use web_crawler.Scheduler.{process_lease, handle_outcome}
use web_crawler.Pool.{finish}
use web_crawler.System.{System, Step, IsOwn, worked, recorded, handled, left, discovers, succeeds}
use web_crawler.System.Runs.{Run, done, next}

Run-append :
    (config : CrawlerConfig) (x y z : System) → Run config x y → Step config y z → Run config x z
Run-append config x _ z (done _) s = next x z z s (done z)
Run-append config x y z (next _ m _ t r) s = next x m z t (Run-append config m y z r s)

module _ (config : CrawlerConfig) (x : System) (earlier later : List LeaseResult)
    (lease : LeaseResult) (flies : x.flight ≡ earlier ++ lease ∷ later) where
  -- The steps of the worker up to a store with the given rows.
  abbrev WorksTo : List UrlRecord → Type 0
  WorksTo rows = (t : Store) × Run config x (record x { store = t }) × (t.records ≡ rows)

  -- The steps lead to every store with these rows.
  Run-store : (s : Store) → WorksTo s.records → Run config x (record x { store = s })
  Run-store s (t, run, same) =
      Run-append config x _ _ run
        (recorded (record x { store = t }) earlier later lease s flies (sym same))

  WorksTo-step :
      (s : Store) (c : Call) → IsOwn lease c → WorksTo s.records → WorksTo (step s c).records
  WorksTo-step s c own w = (
    step s c,
    Run-append config x _ _ (Run-store s w)
        (worked (record x { store = s }) earlier later lease c flies own),
    refl,
  )

  Run-if :
      (test : Bool) {s t : Store}
      → Run config x (record x { store = s })
      → Run config x (record x { store = t })
      → Run config x (record x { store = if test then s else t })
  Run-if true a b = a
  Run-if false a b = b

  -- The renewals of the heartbeat are steps.
  beats-Run :
      (beat_at : ℕ → ℕ) (extension n i : ℕ) (s : Store)
      → Run config x (record x { store = s })
      → Run config x (record x { store = beats beat_at (λ i t. t) extension lease n i s })
  unfolding beats step
  beats-Run beat_at extension zero i s run = run
  beats-Run beat_at extension (suc n) i s run =
      let renewed =
        Run-append config x (record x { store = s }) _ run
          (worked (record x { store = s }) earlier later lease
            (renews (beat_at i) lease.normalized_url lease.lease_token extension) flies
            (IsOwn.beats (beat_at i) extension)) in
      Run-if _ (beats-Run beat_at extension n (i + 1) _ renewed) renewed

  module _ (lib : UrlLib) (search : Search) (media : Media) (w : Worker) (clock : ℕ → ℕ)
      (outcome : Result FetchResponse) where
    do_process-Run :
        (s : Store)
        → Run config x (record x { store = s })
        → Run config x
            (record x { store = (do_process lib search media w clock outcome lease s).0 })
    unfolding step
    do_process-Run s run = Run-store _ (
        Keeps-do_process WorksTo lib search media w
          (λ at key url depth parent redirects admitted t h.
            WorksTo-step t (enqueues at key url depth parent redirects)
              (discovers at key url depth parent redirects) h)
          lease
          (λ at hash mime etag t h.
            WorksTo-step t (completes at lease.normalized_url lease.lease_token hash mime etag)
              (succeeds at hash mime etag) h)
          clock outcome s (s, run, refl))

    -- What the code does with a lease in flight, whatever the fetch returns, however many renewals the
    -- heartbeat makes during the fetch and however it ends, is a sequence of steps of the crawl: the
    -- worker renews its lease and processes the page, the scheduler handles its outcome, and the
    -- worker leaves the pool.
    pub process_lease-Run :
        (beat_at : ℕ → ℕ) (skipped : ℕ) (task : HeartbeatTask) (now : ℕ)
        → Run config x (record x {
          store =
              process_lease config now
                (process_url lib search media w clock beat_at skipped task outcome)
                lease
                x.store;
          flight = earlier ++ later;
          pool = finish x.pool;
        })
    unfolding process_lease process_url
    process_lease-Run beat_at skipped task now =
        let beaten =
          beats beat_at (λ i t. t) w.config.lease_timeout_ms lease (3 - skipped) 0 x.store in
        let (s, result) = do_process lib search media w clock outcome lease beaten in
        let handled_store = handle_outcome config now lease (awaited task result) s in
        let beats_run =
          beats-Run beat_at w.config.lease_timeout_ms (3 - skipped) 0 x.store (done x) in
        Run-append config x
          (record x { store = handled_store; flight = earlier ++ later; ended = lease ∷ x.ended }) _
          (Run-append config x (record x { store = s })
            (record x { store = handled_store; flight = earlier ++ later; ended = lease ∷ x.ended })
            (do_process-Run beaten beats_run)
            (handled (record x { store = s }) earlier later lease now (awaited task result) flies))
          (left _ [] x.ended lease refl)
