-- ===== src/System/Gateway/Tests.antt =====
-- A crawl whose worker fetches.
use web_crawler.Prelude.{ℕ, ◌+◌, ◌≡◌, ◌≤◌, ◌<◌, refl, [], length, arith}
use web_crawler.Types.{LeaseResult, ok}
use web_crawler.Limiter.{admit}
use web_crawler.Store.Tests.{config, key}
use web_crawler.System.{System, dispatch_next, dispatched}
use web_crawler.System.Tests.{first, first-Reaches}
use web_crawler.System.Gateway.{
  Gateway, Arrives, begins, moves, crawled, asked, passed, ask, Arrives-unblocked,
}
use web_crawler.Limiter.{new_limiter, pass_event}
use web_crawler.System
use web_crawler.Scheduler
use web_crawler.Store.Frontier
use web_crawler.Store.Lifecycle
use web_crawler.Prelude

abbrev first_lease : LeaseResult
first_lease = record {
  normalized_url = key;
  url = key;
  depth = 0;
  lease_token = key;
  lease_expires_at = 1000 + config.lease_timeout_ms;
}

abbrev idle : Gateway
idle = record { system = first; limiter = new_limiter 10; fetching = 0 }

abbrev working : Gateway
working = record idle { system = dispatch_next first_lease [] first }

-- The worker's request has passed the event.
abbrev fetches : Gateway
fetches = let g = ask working in record g { limiter = pass_event g.limiter }

fetches-Arrives : Arrives config 10 fetches
unfolding System.take_turn System.dispatch_next Scheduler.turn Frontier.acquire_lease_batch
    Frontier.expire_leases Lifecycle.step Frontier.enqueue Prelude.text_eq ask admit
fetches-Arrives =
    moves _ _
      (moves _ _
        (moves idle _ (begins first first-Reaches refl) (
          crawled idle (dispatch_next first_lease [] first)
            (dispatched first first_lease [] refl refl (omega arith)) (omega arith)))
        (asked working (omega arith)))
      (passed (ask working) refl (omega arith))

Arrives-unblocked_example :
    (fetches.limiter.pending_count ≤ length fetches.system.flight)
    × ((admit fetches.limiter).1 ≡ ok tt)
    × (fetches.limiter.ready ≤ fetches.limiter.free)
Arrives-unblocked_example =
    Arrives-unblocked config 10 50 (omega arith) (omega arith) refl refl fetches fetches-Arrives
