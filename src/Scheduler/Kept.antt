-- ===== src/Scheduler/Kept.antt =====
-- A crawl of src/crawler/scheduler.py as a reachability relation: the calls that workers and the
-- loop make on the store, and the handling of the workers' outcomes, in any order; and what every
-- row of a store that it reaches satisfies.
use web_crawler.Prelude.{
  ℕ, suc, ◌+◌, ◌≡◌, inl, inr, false, Option, some, List, [], ◌∷◌, Text, lit, arith, All, All-append,
  Bool-cases,
}
use web_crawler.Types.{
  CrawlState, CrawlerConfig, LeaseResult, WorkerResult, Status, Result, ok, err,
}
use web_crawler.Store.{UrlRecord, Store, empty_store}
use web_crawler.Store.Frontier.{
  enqueue, acquire_lease_batch, renew_lease, expire_leases, lease_each, Candidate, candidates,
  take_lease, is_leasable_at, is_held, is_renewable, is_expired, new_record, extend, reset,
}
use web_crawler.Store.Transitions.{mark_completed, mark_terminal_failed, complete, fail, schedule}
use web_crawler.Store.Queries.{get_retry_count}
use web_crawler.Store.Rows.{All-update}
use web_crawler.Store.Lifecycle.{
  Call, enqueues, acquires, renews, expires, completes, retries, terminates, fails, step,
}
use web_crawler.Scheduler.{
  handle_retry, handle_worker_result, handle_outcome, handle_status, exceeds, reason_or,
}

-- The calls that the workers and the loop make themselves; the others are made by the handling of
-- an outcome.
abbrev pub IsDirect : Call → Type 0
IsDirect (retries key token n at at_ms reason) = ⊥
IsDirect (terminates key token failure reason) = ⊥
IsDirect (fails key token failure reason) = ⊥
IsDirect _ = Unit {0}

-- The stores that a crawl can reach; `noted` is a change of the tables other than `url_records`.
pub data Reaches (config : CrawlerConfig) : Store → Type 0 where
  start : Reaches config empty_store
  noted : {s : Store} → Reaches config s → (t : Store) → t.records ≡ s.records → Reaches config t
  called : {s : Store} → Reaches config s → (c : Call) → IsDirect c → Reaches config (step s c)
  handled :
      {s : Store}
      → Reaches config s
      → (now : ℕ) (lease : LeaseResult) (outcome : Result WorkerResult)
      → Reaches config (handle_outcome config now lease outcome s)

-- A statement of a row that every change of a row leaves true, but for `schedule`, whose attempts and
-- time it may restrict.
pub record IsKept (P : UrlRecord → Type 0) : Type 0 where
  pub fresh :
      (now : ℕ) (key url : Text) (depth : ℕ) (parent : Option Text) (redirects : ℕ)
      → P (new_record now key url depth parent redirects)
  pub taken : (token : Text) (until : ℕ) (r : UrlRecord) → P r → P (take_lease token until r)
  pub extended : (until : ℕ) (r : UrlRecord) → P r → P (extend until r)
  pub reset_ : (r : UrlRecord) → P r → P (reset r)
  pub completed_ :
      (now : ℕ) (hash mime etag : Option Text) (r : UrlRecord)
      → P r
      → P (complete now hash mime etag r)
  pub failed_ : (reason : Option Text) (r : UrlRecord) → P r → P (fail CrawlState.failed reason r)
  pub terminated :
      (reason : Option Text) (r : UrlRecord) → P r → P (fail CrawlState.terminal_failed reason r)

module _ (P : UrlRecord → Type 0) (k : IsKept P) where
  All-lease_each :
      (draw : ℕ → Text) (i now until : ℕ) (cs : List Candidate) (rows : List UrlRecord)
      → All P rows
      → All P (lease_each draw i now until cs rows).0
  unfolding lease_each
  All-lease_each draw i now until [] rows h = h
  All-lease_each draw i now until (c ∷ cs) rows h = All-lease_each draw (suc i) now until cs _ (
      All-update P (is_leasable_at now c.normalized_url) (take_lease (draw i) until)
        (λ r b e. k.taken (draw i) until r b) rows h)

  All-enqueue :
      (s : Store) (now : ℕ) (key url : Text) (depth : ℕ) (parent : Option Text) (redirects : ℕ)
      → All P s.records
      → All P (enqueue now key url depth parent redirects s).0.records
  unfolding enqueue
  All-enqueue s now key url depth parent redirects h = ground (
    arith,
    All-append P s.records (new_record now key url depth parent redirects ∷ []) h
        (k.fresh now key url depth parent redirects, tt),
  )

  pub All-step : (s : Store) (c : Call) → IsDirect c → All P s.records → All P (step s c).records
  unfolding step acquire_lease_batch renew_lease expire_leases mark_completed
  All-step s (enqueues now key url depth parent redirects) d h =
      All-enqueue s now key url depth parent redirects h
  All-step s (acquires draw now size ttl) d h =
      All-lease_each draw 0 now (now + ttl) (candidates now size s.records) s.records h
  All-step s (renews now key token extension) d h =
      All-update P (is_renewable key token) _ (λ r b e. k.extended _ r b) s.records h
  All-step s (expires now) d h = All-update P (is_expired now) _ (λ r b e. k.reset_ r b) s.records h
  All-step s (completes now key token hash mime etag) d h =
      All-update P (is_held key token) _ (λ r b e. k.completed_ now hash mime etag r b) s.records h
  All-step s (retries key token n at at_ms reason) d h = absurd d
  All-step s (terminates key token failure reason) d h = absurd d
  All-step s (fails key token failure reason) d h = absurd d

  module _ (config : CrawlerConfig)
      (scheduled : (n at : ℕ) (reason : Text) (r : UrlRecord)
        → exceeds n config.max_retries ≡ false
        → P r
        → P (schedule n (some at) (some reason) r)) where
    All-handle_retry :
        (now : ℕ) (lease : LeaseResult) (reason : Text) (s : Store)
        → All P s.records
        → All P (handle_retry config now lease reason s).records
    unfolding handle_retry
    All-handle_retry now lease reason s h =
        let next = get_retry_count lease.normalized_url s + 1 in
        elim (Bool-cases (exceeds next config.max_retries)) [
          | inl over ↦ rw over (
              All-update P (is_held lease.normalized_url lease.lease_token) _
                (λ r b e. k.failed_ _ r b) s.records h)
          | inr left ↦ rw left (
              All-update P (is_held lease.normalized_url lease.lease_token) _
                (λ r b e. scheduled next _ reason r left b) s.records h)
        ]

    pub All-handle_outcome :
        (now : ℕ) (lease : LeaseResult) (outcome : Result WorkerResult) (s : Store)
        → All P s.records
        → All P (handle_outcome config now lease outcome s).records
    unfolding handle_outcome handle_worker_result mark_terminal_failed
    All-handle_outcome now lease (err e) s h = All-handle_retry now lease e.message s h
    All-handle_outcome now lease (ok result) s h = of_status result.status
      where
        of_status :
            (status : Status)
            → All P (handle_status config now lease result.failure_reason status s).records
        of_status Status.completed = h
        of_status Status.retry =
            All-handle_retry now lease (reason_or result.failure_reason (lit "unknown error")) s h
        of_status Status.terminal_failed =
            All-update P (is_held lease.normalized_url lease.lease_token) _
              (λ r b e. k.terminated _ r b) s.records h

    pub Reaches-All : (s : Store) → Reaches config s → All P s.records
    Reaches-All s start = tt
    Reaches-All s (noted {s = t} reach _ e) = rw e (Reaches-All t reach)
    Reaches-All s (called {s = t} reach c d) = All-step t c d (Reaches-All t reach)
    Reaches-All s (handled {s = t} reach now lease outcome) =
        All-handle_outcome now lease outcome t (Reaches-All t reach)
