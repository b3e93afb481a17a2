-- ===== src/Scheduler/Retries.antt =====
-- The retries of src/crawler/scheduler.py: the backoff, what `_handle_retry` does to a row, and the
-- bound on the retries over a whole crawl.
use native.Mathlib.Nat.{pow-suc}
use web_crawler.Prelude.{
  ℕ, zero, suc, ◌+◌, ◌^◌, ◌≤◌, ◌≡◌, refl, ap, Bool, true, false, Option, none, some, Text, arith,
  Bool-cases, inl, inr, if◌then◌else◌,
}
use web_crawler.Types.{CrawlState, CrawlerConfig, LeaseResult}
use web_crawler.Store.{UrlRecord, Store, find_record, update}
use web_crawler.Store.Frontier.{is_held}
use web_crawler.Store.Transitions.{schedule, fail}
use web_crawler.Store.Queries.{get_retry_count}
use web_crawler.Store.Rows.{HasDistinctKeys, KeepsKey, find_record-update}
use web_crawler.Store.Ownership.{stale_writes}
use web_crawler.Scheduler.{compute_retry_delay, handle_retry, exceeds, exhausted}

pow_pos : (n : ℕ) → 1 ≤ 2 ^ n
pow_pos zero = omega arith
pow_pos (suc n) = omega (arith, pow_pos n, pow-suc 2 n)

-- The delay grows with the attempts, from one second at the first to at most five minutes.
pub retry_delay_bounds :
    (n : ℕ)
    → (1000 ≤ compute_retry_delay (suc n))
      × (compute_retry_delay (suc n) ≤ 300000)
      × (compute_retry_delay n ≤ compute_retry_delay (suc n))
unfolding compute_retry_delay
retry_delay_bounds zero = ground arith
retry_delay_bounds (suc n) = ground (arith, pow_pos n, pow-suc 2 n)

module _ (config : CrawlerConfig) (now : ℕ) (lease : LeaseResult) (reason : Text) (s : Store)
    (r : UrlRecord) (d : HasDistinctKeys s.records)
    (e : find_record lease.normalized_url s.records ≡ some r) where
  -- The row is written as the holder of its lease.
  pub handle_retry_written :
      is_held lease.normalized_url lease.lease_token r ≡ true
      → find_record lease.normalized_url (handle_retry config now lease reason s).records
        ≡ some (
            if exceeds (r.retry_count + 1) config.max_retries
            then fail CrawlState.failed (some (exhausted config reason)) r
            else schedule
                (r.retry_count + 1)
                (some (now + compute_retry_delay (r.retry_count + 1)))
                (some reason)
                r)
  unfolding handle_retry get_retry_count
  handle_retry_written h = elim (Bool-cases (exceeds (r.retry_count + 1) config.max_retries)) [
    | inl over ↦ simp (e, over) (written (fail CrawlState.failed _) (λ x. refl))
    | inr left ↦ simp (e, left) (written (schedule _ _ _) (λ x. refl))
  ]
    where
      written :
          (f : UrlRecord → UrlRecord)
          → KeepsKey f
          → find_record lease.normalized_url
              (update (is_held lease.normalized_url lease.lease_token) f s.records)
            ≡ some (f r)
      written f keeps = rw h at (
          find_record-update lease.normalized_url (is_held lease.normalized_url lease.lease_token) f
            keeps s.records r e)

  -- The failed attempt of anyone else changes nothing.
  pub handle_retry_stale :
      is_held lease.normalized_url lease.lease_token r ≡ false
      → handle_retry config now lease reason s ≡ s
  unfolding handle_retry
  handle_retry_stale h =
      let next = get_retry_count lease.normalized_url s + 1 in
      let refused = λ (reason : Option Text) (n : ℕ) (at : Option ℕ).
        stale_writes s lease.normalized_url lease.lease_token r d e h now n 0 none none none reason
          at in
      elim (Bool-cases (exceeds (get_retry_count lease.normalized_url s + 1) config.max_retries)) [
        | inl over ↦
            rw over
              (ap (λ (p : Store × Bool). p.0) (refused (some (exhausted config reason)) 0 none).4)
        | inr left ↦ rw left (
            ap (λ (p : Store × Bool). p.0)
              (refused (some reason) next (some (now + compute_retry_delay next))).2)
      ]
