-- ===== src/System/Gateway.antt =====
-- The crawl together with the limiter of src/crawler/rate_limiter.py that all its workers fetch
-- through, as src/crawler/crawler.py builds it: for as many attempts at once as there are workers.
-- A worker awaits the one call of `execute` in `_do_process` of src/crawler/worker.py, so it is in at
-- most one request, and it does not end while it is in one.
mod Tests
use web_crawler.Prelude.{ℕ, suc, ◌+◌, ◌-◌, ◌≤◌, ◌<◌, ◌≡◌, refl, false, length, leb, arith}
use web_crawler.Prelude.Int.{pos}
use web_crawler.Types.{CrawlerConfig, Result, ok, err}
use web_crawler.Limiter.{
  RateLimiter, new_limiter, admit, leave, pass_event, acquire, release, begin_backoff, end_backoff,
  max_queue_size,
}
use web_crawler.Limiter.Shared as Shared
use web_crawler.Limiter.Shared.{IsBounded, Reaches-IsBounded}
use web_crawler.System.{System, new_system, Step, Reaches, start, after}
use web_crawler.System.Coherence.{IsCoherent, Reaches-IsCoherent, Reaches-capacity}

-- `fetching` is the number of workers in flight that are within `execute`.
pub record Gateway : Type 0 where
  pub system : System
  pub limiter : RateLimiter
  pub fetching : ℕ

-- A worker whose call raises is not within it.
abbrev pub entered : Result (Unit {0}) → ℕ → ℕ
entered (ok _) n = n + 1
entered (err e) n = n

unfoldable pub ask : Gateway → Gateway
ask g =
    let (r, result) = admit g.limiter in
    record g { limiter = r; fetching = entered result g.fetching }

unfoldable pub answer : Gateway → Gateway
answer g = record g { limiter = leave (release g.limiter); fetching = g.fetching - 1 }

pub data Moves (config : CrawlerConfig) : Gateway → Gateway → Type 0 where
  -- The rest of the crawl: what ends a worker ends one that is not within `execute`.
  crawled :
      (g : Gateway) (y : System)
      → Step config g.system y
      → g.fetching ≤ length y.flight
      → Moves config g (record g { system = y })
  -- A worker that is not within `execute` calls it.
  asked : (g : Gateway) → g.fetching < length g.system.flight → Moves config g (ask g)
  passed :
      (g : Gateway)
      → g.limiter.backing_off ≡ false
      → 0 < g.limiter.waiting
      → Moves config g (record g { limiter = pass_event g.limiter })
  acquired :
      (g : Gateway)
      → 0 < g.limiter.free
      → 0 < g.limiter.ready
      → Moves config g (record g { limiter = acquire g.limiter })
  answered : (g : Gateway) → 0 < g.limiter.running → Moves config g (answer g)
  throttled :
      (g : Gateway)
      → 0 < g.limiter.running
      → Moves config g (record g { limiter = begin_backoff (release g.limiter) })
  resumed :
      (g : Gateway)
      → 0 < g.limiter.sleeping
      → Moves config g (record g { limiter = end_backoff g.limiter })

-- What a crawl with `n` workers goes through.
pub data Arrives (config : CrawlerConfig) (n : ℕ) : Gateway → Type 0 where
  begins :
      (x : System)
      → Reaches config n x
      → length x.flight ≡ 0
      → Arrives config n (record { system = x; limiter = new_limiter n; fetching = 0 })
  moves : (g h : Gateway) → Arrives config n g → Moves config g h → Arrives config n h

-- The crawl and the limiter each go through their own states, and the requests that the limiter counts
-- are those of workers in flight.
pub record IsLinked (config : CrawlerConfig) (n : ℕ) (g : Gateway) : Type 0 where
  pub crawl : Reaches config n g.system
  pub shared : Shared.Reaches (new_limiter n) g.limiter
  pub counted : g.limiter.pending_count ≡ g.fetching
  pub flying : g.fetching ≤ length g.system.flight

Moves-IsLinked :
    (config : CrawlerConfig) (n : ℕ) (g h : Gateway)
    → Moves config g h
    → IsLinked config n g
    → IsLinked config n h
unfolding ask answer admit leave pass_event acquire release begin_backoff end_backoff
Moves-IsLinked config n g _ (crawled _ y s fits) l = record {
  crawl = after _ y l.crawl s;
  shared = l.shared;
  counted = l.counted;
  flying = fits;
}
Moves-IsLinked config n g _ (asked _ idle) l = record {
  crawl = l.crawl;
  shared = Shared.after _ _ _ l.shared (Shared.admitted g.limiter);
  counted = ground (arith, l.counted);
  flying = ground arith;
}
Moves-IsLinked config n g _ (passed _ set waits) l = record {
  crawl = l.crawl;
  shared = Shared.after _ _ _ l.shared (Shared.passed g.limiter set waits);
  counted = l.counted;
  flying = l.flying;
}
Moves-IsLinked config n g _ (acquired _ free ready) l = record {
  crawl = l.crawl;
  shared = Shared.after _ _ _ l.shared (Shared.acquired g.limiter free ready);
  counted = l.counted;
  flying = l.flying;
}
Moves-IsLinked config n g _ (answered _ runs) l = record {
  crawl = l.crawl;
  shared = Shared.after _ _ _ l.shared (Shared.finished g.limiter runs);
  counted = omega (arith, l.counted);
  flying = omega (arith, l.flying);
}
Moves-IsLinked config n g _ (throttled _ runs) l = record {
  crawl = l.crawl;
  shared = Shared.after _ _ _ l.shared (Shared.throttled g.limiter runs);
  counted = l.counted;
  flying = l.flying;
}
Moves-IsLinked config n g _ (resumed _ sleeps) l = record {
  crawl = l.crawl;
  shared = Shared.after _ _ _ l.shared (Shared.resumed g.limiter sleeps);
  counted = l.counted;
  flying = l.flying;
}

pub Arrives-IsLinked :
    (config : CrawlerConfig) (n : ℕ) (g : Gateway) → Arrives config n g → IsLinked config n g
Arrives-IsLinked config n _ (begins x r e) = record {
  crawl = r;
  shared = Shared.start _;
  counted = refl;
  flying = omega arith;
}
Arrives-IsLinked config n _ (moves g h a m) =
    Moves-IsLinked config n g h m (Arrives-IsLinked config n g a)

-- In a crawl whose concurrency is in its range, in whatever order its workers, its loop and the
-- requests proceed: the limiter has no more requests than there are workers in flight, so that none
-- is refused for a full queue, and there is a free permit for each request that is past the event,
-- so that the semaphore makes none wait.
pub Arrives-unblocked :
    (config : CrawlerConfig) (n b : ℕ)
    → 0 < n
    → n ≤ 100
    → config.max_concurrency ≡ pos n
    → config.batch_size ≡ pos b
    → (g : Gateway) → Arrives config n g
    → (g.limiter.pending_count ≤ length g.system.flight)
      × ((admit g.limiter).1 ≡ ok tt)
      × (g.limiter.ready ≤ g.limiter.free)
unfolding admit
Arrives-unblocked config n b some_n few limit size g a =
    let l = Arrives-IsLinked config n g a in
    let bounded = Reaches-IsBounded n g.limiter l.shared in
    let capacity = (Reaches-capacity config n b some_n limit size g.system l.crawl).0 in
    let counted = l.counted in
    let flying = l.flying in
    let phases = bounded.counted in
    let permits = bounded.permits in
    let room : g.limiter.pending_count < 1000 = omega arith in
    (omega arith, ground arith, omega arith)
