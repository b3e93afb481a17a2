-- ===== src/System/Closure.antt =====
-- The crawl as a whole finds what its pages link to: from the links that a worker of
-- src/crawler/worker.py reports to the end of the loop in src/crawler/scheduler.py.
mod Tests
use web_crawler.Prelude.{
  ℕ, ◌+◌, ◌≡◌, refl, sym, ◌∙◌, ap, true, some, List, [], ◌∷◌, ◌++◌, Text, any, All, inl, inr, ◌⊎◌,
  false, Bool-cases,
}
use web_crawler.Types.{CrawlerConfig, FetchResponse, LeaseResult, WorkerResult, Result, ok}
use web_crawler.Types.Results.{is_ok}
use web_crawler.Store.{UrlRecord, Store, has_key, find_record}
use web_crawler.Store.Queries.{exists}
use web_crawler.Store.Known.{step-known}
use web_crawler.Processors.{Media}
use web_crawler.Pipeline.Context.{UrlLib}
use web_crawler.Pipeline.Filter.{Search}
use web_crawler.Worker.{Worker, do_process}
use web_crawler.Worker.KeySet.{has}
use web_crawler.Worker.Discovery.{wanted_keys}
use web_crawler.Worker.Closure.{Covers-do_process, Covers}
use web_crawler.Scheduler.{Turn, waits, finishes, idles, dispatches, turn, is_crawl_complete}
use web_crawler.Scheduler.Keeping.{turn-keeps, handle_outcome-keeps}
use web_crawler.Scheduler.Rounds.{is_crawl_complete_lem}
use web_crawler.Store.Invariant.{is_final}
use web_crawler.System.{
  System, apply_turn, take_turn, dispatch_next, leave_off, shutdown, Step, turned, dispatched,
  broken, worked, recorded, handled, left, asked,
}
use web_crawler.System.Runs.{Run, done, next}

apply_turn-known :
    (key : Text) (t : Turn) (x : System)
    → exists key x.store ≡ true
    → exists key (apply_turn t x).store ≡ true
apply_turn-known key waits x h = h
apply_turn-known key finishes x h = h
apply_turn-known key idles x h = h
apply_turn-known key (dispatches ls) x h = h

Step-known :
    (config : CrawlerConfig) (key : Text) (x y : System)
    → Step config x y
    → exists key x.store ≡ true
    → exists key y.store ≡ true
unfolding take_turn dispatch_next leave_off shutdown exists
Step-known config key x _ (turned _ draw clock f g e) h =
    apply_turn-known key (turn config draw clock x.pool.active_count x.loop x.store).2 _ (
      turn-keeps (λ s. exists key s ≡ true) (λ s c quiet. step-known key s c) config draw clock
        x.pool.active_count x.loop x.store h)
Step-known config key x _ (dispatched _ l ls f e p) h = h
Step-known config key x _ (broken _ e) h = h
Step-known config key x _ (worked _ earlier later l c e own) h = step-known key x.store c h
Step-known config key x _ (recorded _ earlier later l s e same) h = ap (any (has_key key)) same ∙ h
Step-known config key x _ (handled _ earlier later l now outcome e) h =
    handle_outcome-keeps (λ s. exists key s ≡ true) (λ s c quiet. step-known key s c) config now l
      outcome x.store h
Step-known config key x _ (left _ earlier later l e) h = h
Step-known config key x _ (asked _) h = h

Run-known :
    (config : CrawlerConfig) (key : Text) (x y : System)
    → Run config x y
    → exists key x.store ≡ true
    → exists key y.store ≡ true
Run-known config key x _ (done _) h = h
Run-known config key x z (next _ y _ s run) h =
    Run-known config key y z run (Step-known config key x y s h)

each_is_any : (rows : List UrlRecord) → All (λ r. Unit {0}) rows
each_is_any [] = tt
each_is_any (r ∷ rows) = (tt, each_is_any rows)

-- A known key has a row, and all that holds of every row holds of it.
found :
    (P : UrlRecord → Type 0) (key : Text) (rows : List UrlRecord)
    → any (has_key key) rows ≡ true
    → All P rows
    → (r : UrlRecord) × (find_record key rows ≡ some r) × P r
unfolding find_record
found P key [] h all = absurd (cc)
found P key (r ∷ rows) h all = elim (Bool-cases (has_key key r)) [
  | inl here ↦ (r, rw here refl, all.0)
  | inr other ↦
      let rest = rw other at h in
      let (row, at_, p) = found P key rows rest all.1 in (row, rw other at_, p)
]

-- No link is lost: a key that is wanted for the links which a worker reports has a row after whatever
-- steps the crawl takes from then on, and if the crawl is complete after them, that row is completed,
-- failed or terminally failed.
pub link_finished :
    (lib : UrlLib) (find : Search) (media : Media) (w : Worker) (clock : ℕ → ℕ)
    (outcome : Result FetchResponse) (lease : LeaseResult) (result : WorkerResult) (key : Text)
    (config : CrawlerConfig) (x y : System)
    → (do_process lib find media w clock outcome lease x.store).1 ≡ ok result
    → has key (wanted_keys lib find media w (lease.depth + 1) result.discovered_urls) ≡ true
    → Run config
        (record x { store = (do_process lib find media w clock outcome lease x.store).0 })
        y
    → (r : UrlRecord) × (find_record key y.store.records ≡ some r)
      × ((is_crawl_complete y.store ≡ false) ⊎ (is_final r.crawl_state ≡ true))
unfolding exists
link_finished lib find media w clock outcome lease result key config x y reported wanted run =
    let known = Run-known config key _ y run (
      covered (do_process lib find media w clock outcome lease x.store) reported
        (Covers-do_process lib find media w clock lease key outcome x.store)) in
    elim (Bool-cases (is_crawl_complete y.store)) [
      | inl over ↦
          let (row, at_, final) =
            found (λ r. is_final r.crawl_state ≡ true) key y.store.records known
              ((is_crawl_complete_lem y.store).0 over) in
          (row, at_, inr final)
      | inr running ↦
          let (row, at_, u) =
            found (λ r. Unit {0}) key y.store.records known (each_is_any y.store.records) in
          (row, at_, inl running)
    ]
  where
    covered :
        (p : Store × Result WorkerResult)
        → p.1 ≡ ok result
        → Covers lib find media w clock lease key p
        → exists key p.0 ≡ true
    covered (t, ok other) e h = h (
        ap (λ q. has key (wanted_keys lib find media w (lease.depth + 1) q.discovered_urls))
          (is_ok e)
        ∙ wanted)
    covered (t, Result.err x) e h = absurd (cc)
