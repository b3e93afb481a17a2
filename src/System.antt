-- ===== src/System.antt =====
-- The crawl as a whole: the loop of `Scheduler.run` in src/crawler/scheduler.py, the pool of
-- src/crawler/worker_pool.py that it dispatches to, the workers that run, and `shutdown`. A step is
-- a turn of the loop up to its dispatches, a dispatch, one call of a worker on the store, the handling of
-- an outcome, or the end of a worker, and the steps come in any order. A turn and a handling await
-- several calls on the store, which here come together.
pub mod Coherence
pub mod Runs
pub mod Refinement
pub mod Gateway
pub mod Closure
pub mod Tests
use web_crawler.Prelude.{ℕ, ◌<◌, ◌≡◌, Bool, true, false, Option, List, [], ◌∷◌, ◌++◌, Text}
use web_crawler.Types.{CrawlerConfig, LeaseResult, WorkerResult, Result}
use web_crawler.Store.{Store}
use web_crawler.Store.Lifecycle.{Call, enqueues, renews, completes, step}
use web_crawler.Scheduler.{Loop, Turn, waits, finishes, idles, dispatches, turn, handle_outcome}
use web_crawler.Scheduler.Kept as Kept
use web_crawler.Pool.{WorkerPool, new_pool, dispatch, finish, await_slot}

-- `queue` is what the loop still has to dispatch of its batch, `flight` the leases whose workers run,
-- `ended` those whose outcomes are handled and whose workers still hold their slots, and `stopped` is
-- set once the loop has ended.
pub record System : Type 0 where
  pub store : Store
  pub loop : Loop
  pub pool : WorkerPool
  pub queue : List LeaseResult
  pub flight : List LeaseResult
  pub ended : List LeaseResult
  pub shutdown_requested : Bool
  pub stopped : Bool

-- The scheduler after `init`, over a store.
abbrev pub new_system : ℕ → ℕ → Store → System
new_system max_concurrency now s = record {
  store = s;
  loop = record { last_expire_time = 0; last_progress_time = now };
  pool = new_pool max_concurrency;
  queue = [];
  flight = [];
  ended = [];
  shutdown_requested = false;
  stopped = false;
}

abbrev pub apply_turn : Turn → System → System
apply_turn waits x = record x { pool = await_slot x.pool }
apply_turn finishes x = record x { stopped = true }
apply_turn idles x = x
apply_turn (dispatches ls) x = record x { queue = ls }

-- A turn of the loop, up to its dispatches.
unfoldable pub take_turn : CrawlerConfig → (ℕ → Text) → (ℕ → ℕ) → System → System
take_turn config draw clock x =
    let (s, loop, t) = turn config draw clock x.pool.active_count x.loop x.store in
    apply_turn t (record x { store = s; loop = loop })

-- `await self._worker_pool.dispatch(lease)`
unfoldable pub dispatch_next : LeaseResult → List LeaseResult → System → System
dispatch_next l ls x = record x { pool = dispatch x.pool; queue = ls; flight = l ∷ x.flight }

-- The loop leaves off, after `shutdown` has been called: at the test of the loop, after a whole turn, or
-- among the dispatches of a batch.
unfoldable pub leave_off : System → System
leave_off x = record x { queue = []; stopped = true }

-- The flag that `shutdown` sets.
unfoldable pub shutdown : System → System
shutdown x = record x { shutdown_requested = true }

-- The calls on the store that the worker of a lease makes while it processes the lease's URL.
pub data IsOwn (lease : LeaseResult) : Call → Type 0 where
  discovers :
      (now : ℕ) (key url : Text) (depth : ℕ) (parent : Option Text) (redirects : ℕ)
      → IsOwn lease (enqueues now key url depth parent redirects)
  beats :
      (now extension : ℕ)
      → IsOwn lease (renews now lease.normalized_url lease.lease_token extension)
  succeeds :
      (now : ℕ) (hash mime etag : Option Text)
      → IsOwn lease (completes now lease.normalized_url lease.lease_token hash mime etag)

pub data Step (config : CrawlerConfig) : System → System → Type 0 where
  turned :
      (x : System) (draw : ℕ → Text) (clock : ℕ → ℕ)
      → x.shutdown_requested ≡ false
      → x.stopped ≡ false
      → x.queue ≡ []
      → Step config x (take_turn config draw clock x)
  dispatched :
      (x : System) (l : LeaseResult) (ls : List LeaseResult)
      → x.shutdown_requested ≡ false
      → x.queue ≡ l ∷ ls
      → 0 < x.pool.free
      → Step config x (dispatch_next l ls x)
  broken : (x : System) → x.shutdown_requested ≡ true → Step config x (leave_off x)
  worked :
      (x : System) (before after : List LeaseResult) (l : LeaseResult) (c : Call)
      → x.flight ≡ before ++ l ∷ after
      → IsOwn l c
      → Step config x (record x { store = step x.store c })
  -- A worker writes to the other tables.
  recorded :
      (x : System) (before after : List LeaseResult) (l : LeaseResult) (s : Store)
      → x.flight ≡ before ++ l ∷ after
      → s.records ≡ x.store.records
      → Step config x (record x { store = s })
  -- `_process_lease` handles the outcome, and is over with that.
  handled :
      (x : System) (before after : List LeaseResult) (l : LeaseResult) (now : ℕ)
      (outcome : Result WorkerResult)
      → x.flight ≡ before ++ l ∷ after
      → Step config x (record x {
        store = handle_outcome config now l outcome x.store;
        flight = before ++ after;
        ended = l ∷ x.ended;
      })
  -- The `finally` of `_run_worker`.
  left :
      (x : System) (before after : List LeaseResult) (l : LeaseResult)
      → x.ended ≡ before ++ l ∷ after
      → Step config x (record x { ended = before ++ after; pool = finish x.pool })
  asked : (x : System) → Step config x (shutdown x)

-- The states that a crawl with `n` workers goes through, over a store that `init` has set up.
pub data Reaches (config : CrawlerConfig) (n : ℕ) : System → Type 0 where
  start : (s : Store) (now : ℕ) → Kept.Reaches config s → Reaches config n (new_system n now s)
  after : (x y : System) → Reaches config n x → Step config x y → Reaches config n y
