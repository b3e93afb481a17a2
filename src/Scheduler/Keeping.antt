-- ===== src/Scheduler/Keeping.antt =====
-- What the calls on the store keep, the scheduler of src/crawler/scheduler.py keeps.
use web_crawler.Prelude.{ℕ, ◌+◌, ◌-◌, Option, none, some, Text, lit, leb, inl, inr, Bool-cases}
use web_crawler.Types.{CrawlerConfig, LeaseResult, WorkerResult, Status, Result, ok, err}
use web_crawler.Store.{Store}
use web_crawler.Store.Queries.{get_retry_count}
use web_crawler.Store.Lifecycle.{Call, acquires, expires, retries, terminates, fails, step}
use web_crawler.Store.Quiet.{IsQuiet}
use web_crawler.Scheduler.{
  Loop, turn, lease_turn, maybe_expire_leases, available_slots, lease_count, handle_retry,
  handle_status, handle_worker_result, handle_outcome, exceeds, exhausted, compute_retry_delay,
  reason_or,
}

module _ (Q : Store → Type 0) (keeps : (s : Store) (c : Call) → IsQuiet c → Q s → Q (step s c))
    (config : CrawlerConfig) where
  lease_turn-keeps :
      (draw : ℕ → Text) (now : ℕ) (loop : Loop) (s : Store) (o : Option ℕ)
      → Q s
      → Q (lease_turn config draw now loop s o).0
  unfolding lease_turn step
  lease_turn-keeps draw now loop s none h = h
  lease_turn-keeps draw now loop s (some k) h =
      keeps s (acquires draw now (lease_count k config.batch_size) config.lease_timeout_ms) tt h

  pub turn-keeps :
      (draw : ℕ → Text) (clock : ℕ → ℕ) (active : ℕ) (loop : Loop) (s : Store)
      → Q s
      → Q (turn config draw clock active loop s).0
  unfolding turn maybe_expire_leases step
  turn-keeps draw clock active loop s h =
      let slots = available_slots config.max_concurrency active in
      elim (Bool-cases (leb 500 (clock 0 - loop.last_expire_time))) [
        | inl due ↦
            rw due (lease_turn-keeps draw (clock 2) _ _ slots (keeps s (expires (clock 1)) tt h))
        | inr later ↦ rw later (lease_turn-keeps draw (clock 2) _ _ slots h)
      ]

  handle_retry-keeps :
      (now : ℕ) (lease : LeaseResult) (reason : Text) (s : Store)
      → Q s
      → Q (handle_retry config now lease reason s)
  unfolding handle_retry step
  handle_retry-keeps now lease reason s h =
      let n = get_retry_count lease.normalized_url s + 1 in
      elim (Bool-cases (exceeds n config.max_retries)) [
        | inl over ↦ rw over (
            keeps s
              (fails lease.normalized_url (some lease.lease_token) (some (exhausted config reason))
                none)
              tt h)
        | inr left ↦ rw left (
            keeps s
              (retries lease.normalized_url lease.lease_token n (some (now + compute_retry_delay n))
                none (some reason))
              tt h)
      ]

  handle_status-keeps :
      (now : ℕ) (lease : LeaseResult) (reason : Option Text) (status : Status) (s : Store)
      → Q s
      → Q (handle_status config now lease reason status s)
  unfolding handle_status step
  handle_status-keeps now lease reason Status.completed s h = h
  handle_status-keeps now lease reason Status.retry s h =
      handle_retry-keeps now lease (reason_or reason (lit "unknown error")) s h
  handle_status-keeps now lease reason Status.terminal_failed s h =
      keeps s
        (terminates lease.normalized_url lease.lease_token
          (some (reason_or reason (lit "permanent error"))) none)
        tt h

  pub handle_outcome-keeps :
      (now : ℕ) (lease : LeaseResult) (outcome : Result WorkerResult) (s : Store)
      → Q s
      → Q (handle_outcome config now lease outcome s)
  unfolding handle_outcome handle_worker_result
  handle_outcome-keeps now lease (err e) s h = handle_retry-keeps now lease e.message s h
  handle_outcome-keeps now lease (ok result) s h =
      handle_status-keeps now lease result.failure_reason result.status s h
