-- ===== src/System/Tests.antt =====
-- A crawl with ten workers of which one runs.
use web_crawler.Prelude.{
  ℕ, ◌+◌, ◌≡◌, ◌≤◌, ◌<◌, refl, true, false, none, List, [], ◌∷◌, length, arith,
}
use web_crawler.Store.{empty_store}
use web_crawler.Store.Tests.{config, key}
use web_crawler.Store.Lifecycle.{enqueues}
use web_crawler.Scheduler.Kept as Kept
use web_crawler.Scheduler.Tests.{lease, crash}
use web_crawler.Scheduler.{process_lease}
use web_crawler.Worker.Processing.{raised, process_url}
use web_crawler.Worker.Tests.{lib, search, media, worker}
use web_crawler.Pool.{finish}
use web_crawler.Types.{err}
use web_crawler.System.Refinement.{process_lease-Run}
use web_crawler.System.{System, new_system, take_turn, dispatch_next, turned, Reaches, start, after}
use web_crawler.Store.{Store}
use web_crawler.Store.Lifecycle.{step}
use web_crawler.System.Coherence.{IsCoherent, Reaches-IsCoherent}
use web_crawler.System.Runs.{Run}

-- The seed is in the frontier.
abbrev pub seeded : Store
seeded = step empty_store (enqueues 5 key key 0 none 0)

abbrev pub first : System
first = take_turn config (λ i. key) (λ i. 1000) (new_system 10 1000 seeded)

first_queue : length first.queue ≡ 1
unfolding take_turn web_crawler.Scheduler.turn web_crawler.Store.Frontier.acquire_lease_batch
    web_crawler.Store.Frontier.expire_leases step web_crawler.Store.Frontier.enqueue
    web_crawler.Prelude.text_eq
first_queue = refl

pub first-Reaches : Reaches config 10 first
first-Reaches =
    after _ _ (start seeded 1000 (Kept.called Kept.start (enqueues 5 key key 0 none 0) tt))
      (turned _ (λ i. key) (λ i. 1000) refl refl refl)

Reaches-IsCoherent_example : IsCoherent config 10 first
Reaches-IsCoherent_example =
    Reaches-IsCoherent config 10 50 (omega arith) refl refl first first-Reaches

-- A worker runs when the request comes.
abbrev busy : System
busy = dispatch_next lease [] first

process_lease-Run_example : Run config busy (record busy {
  store =
      process_lease config 40
        (process_url lib search media worker (λ i. i) (λ i. 10 + i) 1 (raised crash) (err crash))
        lease
        busy.store;
  flight = [];
  pool = finish busy.pool;
})
unfolding dispatch_next take_turn web_crawler.Scheduler.turn
    web_crawler.Store.Frontier.acquire_lease_batch web_crawler.Store.Frontier.expire_leases step
    web_crawler.Store.Frontier.enqueue web_crawler.Prelude.text_eq
process_lease-Run_example =
    process_lease-Run config busy [] [] lease refl lib search media worker (λ i. i) (err crash)
      (λ i. 10 + i) 1 (raised crash) 40
