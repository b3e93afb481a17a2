-- ===== src/Scheduler.antt =====
-- src/crawler/scheduler.py: `Scheduler`. Times are in milliseconds, and each reading of the clock is
-- an argument. The worker and the normalizer are arguments of the calls that use them; logging is
-- left out.
pub mod Retries
pub mod Kept
pub mod Keeping
pub mod Bound
pub mod Rounds
pub mod Progress
pub mod Stats
pub mod Tests
use web_crawler.Prelude.{
  ℕ, zero, suc, ◌+◌, ◌-◌, ◌*◌, ◌^◌, Bool, true, false, ◌&&◌, Option, none, some, List, [], ◌∷◌,
  ◌++◌, Text, lit, ltb, leb, ◌==◌, if◌then◌else◌,
}
use web_crawler.Prelude.Int.{ℤ, pos, negsuc, ltz, lez, decimal_z}
use web_crawler.Types.{
  CrawlState, CrawlerConfig, LeaseResult, WorkerResult, Status, Error, ErrorKind, Result, ok, err,
}
use web_crawler.Store.{Store, Action, ◌>>=◌}
use web_crawler.Store.Frontier.{acquire_lease_batch, expire_leases, enqueue}
use web_crawler.Store.Transitions.{mark_retry, mark_failed, mark_terminal_failed}
use web_crawler.Store.Queries.{get_retry_count, get_state_counts, counts_get}
use web_crawler.Store.Settings.{Json, store_config}

-- `min(1.0 * 2 ** (attempt - 1), 300.0)` seconds; the attempt 0, which is not made, would take half
-- a second. The attempts stay far below those at which the power leaves the range of a float.
unfoldable pub compute_retry_delay : ℕ → ℕ
compute_retry_delay zero = 500
compute_retry_delay (suc n) = if leb (2 ^ n) 300 then 1000 * 2 ^ n else 300000

-- `n > z`
abbrev pub exceeds : ℕ → ℤ → Bool
exceeds n z = ltz z (pos n)

abbrev pub exhausted : CrawlerConfig → Text → Text
exhausted config reason =
    lit "max retries (" ++ (decimal_z config.max_retries ++ (lit ") exceeded: " ++ reason))

unfoldable pub handle_retry : CrawlerConfig → ℕ → LeaseResult → Text → Store → Store
unfolding mark_failed mark_retry compute_retry_delay
handle_retry config now lease reason s =
    let next_attempt = get_retry_count lease.normalized_url s + 1 in
    if exceeds next_attempt config.max_retries
    then (mark_failed lease.normalized_url (some lease.lease_token) (some (exhausted config reason))
        none s).0
    else (mark_retry lease.normalized_url lease.lease_token next_attempt
        (some (now + compute_retry_delay next_attempt)) none (some reason) s).0

-- `result.failure_reason or "..."`, where an empty reason counts as none.
abbrev pub reason_or : Option Text → Text → Text
reason_or none t = t
reason_or (some []) t = t
reason_or (some (c ∷ r)) t = c ∷ r

unfoldable pub handle_status :
    CrawlerConfig → ℕ → LeaseResult → Option Text → Status → Store → Store
handle_status config now lease reason Status.completed s = s
handle_status config now lease reason Status.retry s =
    handle_retry config now lease (reason_or reason (lit "unknown error")) s
handle_status config now lease reason Status.terminal_failed s =
    (mark_terminal_failed lease.normalized_url lease.lease_token
      (some (reason_or reason (lit "permanent error"))) none s).0

unfoldable pub handle_worker_result : CrawlerConfig → ℕ → LeaseResult → WorkerResult → Store → Store
unfolding handle_status
handle_worker_result config now lease result s =
    handle_status config now lease result.failure_reason result.status s

-- The worker's result is handled; an exception of the worker counts as a transient failure.
unfoldable pub handle_outcome :
    CrawlerConfig → ℕ → LeaseResult → Result WorkerResult → Store → Store
handle_outcome config now lease (ok result) s = handle_worker_result config now lease result s
handle_outcome config now lease (err e) s = handle_retry config now lease e.message s

unfoldable pub process_lease :
    CrawlerConfig → ℕ → (LeaseResult → Action WorkerResult) → LeaseResult → Store → Store
unfolding handle_outcome
process_lease config now process_url lease s =
    let (s', outcome) = process_url lease s in handle_outcome config now lease outcome s'

unfoldable pub is_crawl_complete : Store → Bool
is_crawl_complete s =
    let counts = get_state_counts s in
    counts_get counts CrawlState.pending == 0
    && (counts_get counts CrawlState.retry == 0 && counts_get counts CrawlState.in_progress == 0)

-- `init`: the configuration is stored with the domain of the normalized seed, which is then put
-- into the frontier at depth 0. A seed that cannot be normalized raises.
unfoldable pub init :
    Json → (Text → Option Text) → (Text → Text) → ℕ → CrawlerConfig → Action (Unit {0})
init json normalize netloc now config s = elim (normalize config.seed_url) [
  | none ↦ (
    s,
    err (record { kind = ErrorKind.value; message = lit "Invalid seed URL: " ++ config.seed_url }),
  )
  | some seed ↦ enqueue now seed config.seed_url 0 none 0 (store_config json config (netloc seed) s)
]

-- What `run` keeps between the turns of its loop.
pub record Loop : Type 0 where
  pub last_expire_time : ℕ
  pub last_progress_time : ℕ

-- `now` is what the turn has read, and `expiry_time` what `expire_leases` reads.
unfoldable pub maybe_expire_leases : ℕ → ℕ → ℕ → Store → Store × ℕ
maybe_expire_leases now expiry_time last s =
    if leb 500 (now - last) then ((expire_leases expiry_time s).0, now) else (s, last)

abbrev pub maybe_log_progress : CrawlerConfig → ℕ → ℕ → ℕ
maybe_log_progress config now last =
    if leb config.progress_interval_ms (now - last) then now else last

-- `max_concurrency - active_count`, where that is positive.
abbrev pub available_slots : ℤ → ℕ → Option ℕ
available_slots (pos m) active = if ltb active m then some (m - active) else none
available_slots (negsuc m) active = none

-- `min(available_slots, batch_size)`
abbrev pub lease_count : ℕ → ℤ → ℤ
lease_count available batch = if lez (pos available) batch then pos available else batch

-- How a turn ends: no slot is free, the crawl is over, there is nothing to lease yet, or leases are
-- handed to the pool.
pub data Turn : Type 0 where
  waits finishes idles : Turn
  dispatches : List LeaseResult → Turn

unfoldable pub turn_of : Store → List LeaseResult → Turn
turn_of s [] = if is_crawl_complete s then finishes else idles
turn_of s (l ∷ ls) = dispatches (l ∷ ls)

-- The part of a turn that needs free slots.
unfoldable pub lease_turn :
    CrawlerConfig → (ℕ → Text) → ℕ → Loop → Store → Option ℕ → Store × Loop × Turn
lease_turn config draw now loop s none = (s, loop, waits)
lease_turn config draw now loop s (some available) =
    let (s', batch) =
      acquire_lease_batch draw now (lease_count available config.batch_size) config.lease_timeout_ms
        s in
    (s', loop, turn_of s' batch)

-- One turn of the loop of `run`, up to the calls of `dispatch`, while `active` workers run. The clock is
-- read by the turn, by `expire_leases` and by `acquire_lease_batch`.
unfoldable pub turn : CrawlerConfig → (ℕ → Text) → (ℕ → ℕ) → ℕ → Loop → Store → Store × Loop × Turn
unfolding turn_of lease_turn maybe_expire_leases
turn config draw clock active loop s =
    let (s', expired) = maybe_expire_leases (clock 0) (clock 1) loop.last_expire_time s in
    lease_turn config draw (clock 2)
      (record {
        last_expire_time = expired;
        last_progress_time = maybe_log_progress config (clock 0) loop.last_progress_time;
      })
      s' (available_slots config.max_concurrency active)
