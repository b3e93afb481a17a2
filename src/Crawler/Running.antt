-- ===== src/Crawler/Running.antt =====
-- The crawl that a session of src/crawler/crawler.py runs, from its start on.
use web_crawler.Prelude.{ℕ, ◌≤◌, ◌≡◌, refl, sym, ◌∙◌, ap, subst, Option, Text}
use web_crawler.Prelude.Int.{ℤ, pos, negsuc}
use web_crawler.Types.{CrawlerConfig, Result, ok}
use web_crawler.Store.{Store, empty_store}
use web_crawler.Store.Settings.{store_config}
use web_crawler.Store.Lifecycle.{enqueues, step}
use web_crawler.Config.Ranges.{Between, validate_config-ok}
use web_crawler.Worker.{Worker}
use web_crawler.Scheduler.Kept as Kept
use web_crawler.System.{System, new_system, Reaches, start, after}
use web_crawler.System.Runs.{Run, done, next}
use web_crawler.System.Coherence.{IsCoherent, Reaches-IsCoherent}
use web_crawler.Crawler.Bootstrap as Bootstrap
use web_crawler.Crawler.Bootstrap.{Host, wire}
use web_crawler.Crawler.Sessions.{initialized, start-ok}

Reaches-Run :
    (config : CrawlerConfig) (n : ℕ) (x y : System)
    → Reaches config n x
    → Run config x y
    → Reaches config n y
Reaches-Run config n x _ r (done _) = r
Reaches-Run config n x z r (next _ y _ s run) = Reaches-Run config n y z (after x y r s) run

Between-pos :
    (low high : ℕ) (z : ℤ) → Between low high z → (n : ℕ) × (z ≡ pos n) × (low ≤ n) × (n ≤ high)
Between-pos low high (pos n) h = (n, refl, h.0, h.1)
Between-pos low high (negsuc n) h = absurd h

module _ (host : Host) (config : CrawlerConfig) where
  store_config-Reaches :
      (c : CrawlerConfig) (domain : Text) (s : Store)
      → Kept.Reaches config s
      → Kept.Reaches config (store_config host.json c domain s)
  unfolding store_config
  store_config-Reaches c domain s reach = Kept.noted reach _ refl

  initialized-Reaches :
      (now : ℕ) (c : CrawlerConfig) (key : Text) (s : Store)
      → Kept.Reaches config s
      → Kept.Reaches config (initialized host now c key s)
  unfolding step
  initialized-Reaches now c key s reach =
      Kept.called (store_config-Reaches c _ s reach) (enqueues now key c.seed_url 0 Option.none 0)
        tt

-- When `start` succeeds on a new database, the concurrency lies in 1 to 100, and in every state of the
-- crawl that follows, whatever the order of its steps, the pool and the workers in flight agree and the
-- store is one that a crawl under the worker's configuration reaches.
pub start-IsCoherent :
    (host : Host) (from_yaml : Result CrawlerConfig) (out : Text) (now : ℕ) (w : Worker)
    → (Bootstrap.start host from_yaml out now empty_store).1 ≡ ok w
    → (n : ℕ) × (w.config.max_concurrency ≡ pos n)
      × (1 ≤ n)
      × (n ≤ 100)
      × ((later : ℕ) (x : System)
          → Run w.config
              (new_system n later (Bootstrap.start host from_yaml out now empty_store).0)
              x
          → IsCoherent w.config n x)
start-IsCoherent host from_yaml out now w e =
    let (c, domain, key, read, valid, seeded, found, made, opened, wired, stored) =
      start-ok host from_yaml out now empty_store w e in
    let ranges = (validate_config-ok c).0 valid in
    let (n, is_n, low, high) = Between-pos 1 100 c.max_concurrency ranges.concurrency in
    let (b, is_b, some_b, few_b) = Between-pos 1 500 c.batch_size ranges.batch in
    let same : w.config ≡ c = ap (λ v. v.config) wired in
    let begun : Kept.Reaches w.config (Bootstrap.start host from_yaml out now empty_store).0 =
      subst (Kept.Reaches w.config) (sym stored) (
        initialized-Reaches host w.config now c key _
          (store_config-Reaches host w.config c domain empty_store Kept.start)) in
    (
      n,
      ap (λ d. d.max_concurrency) same ∙ is_n,
      low,
      high,
      λ later x run.
          Reaches-IsCoherent w.config n b low (ap (λ d. d.max_concurrency) same ∙ is_n)
            (ap (λ d. d.batch_size) same ∙ is_b) x
            (Reaches-Run w.config n _ x (start _ later begun) run),
    )
