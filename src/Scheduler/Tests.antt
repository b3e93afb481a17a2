-- ===== src/Scheduler/Tests.antt =====
-- Runs of the scheduler's operations at small inputs.
use web_crawler.Prelude.{
  ℕ, ◌≡◌, ◌≤◌, ◌<◌, refl, ◌↔◌, Bool, true, false, Option, none, List, [], ◌∷◌, Text, All, arith,
  ◌+◌, if◌then◌else◌,
}
use web_crawler.Prelude.Int.{pos}
use web_crawler.Types.{LeaseResult, Error, ErrorKind, err}
use web_crawler.Store.{Store, empty_store}
use web_crawler.Store.Lifecycle.{enqueues, acquires, step}
use web_crawler.Store.Invariant.{is_final}
use web_crawler.Store.Tests.{key, token, held, done, store_of, config}
use web_crawler.Scheduler.{handle_outcome, is_crawl_complete, Loop, turn}
use web_crawler.Scheduler.Kept.{start, called, handled}
use web_crawler.Scheduler.Bound.{Reaches-retries}
use web_crawler.Scheduler.Progress.{IsActive, turn_eventually}
use web_crawler.Scheduler.Rounds.{TurnFits, turn-TurnFits, turn_finishes}

abbrev pub lease : LeaseResult
lease = record {
  normalized_url = key;
  url = key;
  depth = 0;
  lease_token = token;
  lease_expires_at = 70;
}

abbrev pub crash : Error
crash = record { kind = ErrorKind.other; message = b'x' ∷ [] }

-- A crawl whose only page fails once.
abbrev failed_once : Store
failed_once =
    handle_outcome config 20 lease (err crash)
      (step (step empty_store (enqueues 5 key key 0 none 0)) (acquires (λ i. token) 10 (pos 3) 60))

Reaches-retries_example : All (λ r. r.retry_count ≤ 3) failed_once.records
Reaches-retries_example = Reaches-retries config 3 failed_once refl (
    handled
      (called (called start (enqueues 5 key key 0 none 0) tt) (acquires (λ i. token) 10 (pos 3) 60)
        tt)
      20 lease (err crash))

abbrev loop : Loop
loop = record { last_expire_time = 0; last_progress_time = 0 }

turn-TurnFits_example :
    TurnFits 10 50 8 (turn config (λ i. token) (λ i. 40000) 8 loop (store_of held)).2
turn-TurnFits_example =
    turn-TurnFits config (λ i. token) (λ i. 40000) 8 loop (store_of held) 10 50 refl refl
      (record {
        keys = (refl, tt);
        rows =
            (record { token = refl; expiry = refl; renewals = omega arith; hashed = λ e. cc }, tt);
      })

turn_finishes_example :
    All
      (λ r. is_final r.crawl_state ≡ true)
      (turn config (λ i. token) (λ i. 40000) 0 loop (store_of done)).0.records
unfolding turn web_crawler.Store.Frontier.acquire_lease_batch
    web_crawler.Store.Frontier.expire_leases is_crawl_complete web_crawler.Store.Queries.counts_get
    web_crawler.Store.Queries.get_state_counts
turn_finishes_example = turn_finishes config (λ i. token) (λ i. 40000) 0 loop (store_of done) refl

turn_eventually_example :
    (time : ℕ) × ((draw : ℕ → Text) (clock : ℕ → ℕ) (active : ℕ) (loop : Loop)
      → time ≤ clock 2
      → active < 10
      → IsActive (turn config draw clock active loop failed_once).2)
turn_eventually_example = turn_eventually config 10 50 failed_once refl refl (omega arith) (
    handled
      (called (called start (enqueues 5 key key 0 none 0) tt) (acquires (λ i. token) 10 (pos 3) 60)
        tt)
      20 lease (err crash))
