-- ===== src/Worker/Redirects.antt =====
-- Redirects from a page whose URL is not the key of its row, in src/crawler/worker.py.
use web_crawler.Prelude.{
  ℕ, ◌≡◌, ◌≢◌, ◌⊎◌, refl, Bool, true, false, ◌==◌, ◌||◌, some, List, [], ◌∷◌, ◌++◌, Text, lit,
  text_eq_iff, any, arith,
}
use web_crawler.Prelude.Int.{lez, pos}
use web_crawler.Types.{FetchResponse, LeaseResult, ok, err}
use web_crawler.Store.{UrlRecord, Store, has_key, foreign_key_failed}
use web_crawler.Store.Frontier.{new_record}
use web_crawler.Store.Queries.{exists, get_redirect_count}
use web_crawler.Store.Discovery.{enqueue_orphan}
use web_crawler.Limiter.{header}
use web_crawler.Processors.{Media}
use web_crawler.Pipeline.Context.{UrlLib}
use web_crawler.Pipeline.Normalizer.{normalize}
use web_crawler.Pipeline.Filter.{Search}
use web_crawler.Worker.{
  Worker, passes, enqueue_normalized, terminal_failed, handle_redirect, by_status, do_process,
}

any-append-false :
    (p : UrlRecord → Bool) (rows : List UrlRecord) (r : UrlRecord)
    → any p rows ≡ false
    → p r ≡ false
    → any p (rows ++ r ∷ []) ≡ false
any-append-false p [] r h k = ground arith
any-append-false p (x ∷ xs) r h k = ground (arith, any-append-false p xs r)

module _ (lib : UrlLib) (search : Search) (media : Media) (w : Worker) (clock : ℕ → ℕ)
    (lease : LeaseResult) (s : Store) where
  enqueue_raw_parent :
      (now k : ℕ) (key url : Text) (depth redirects : ℕ)
      → passes lib search media w (k ∷ key) depth s ≡ ok true
      → exists (k ∷ key) s ≡ false
      → exists lease.url s ≡ false
      → k ∷ key ≢ lease.url
      → enqueue_normalized lib search media w
          (some (k ∷ key))
          now
          url
          depth
          (some lease.url)
          redirects
          s
        ≡ (s, err foreign_key_failed)
  unfolding enqueue_normalized exists new_record
  enqueue_raw_parent now k key url depth redirects passed fresh absent other = rw passed (
      enqueue_orphan now (k ∷ key) url depth (some lease.url) redirects s fresh (
        any-append-false (has_key lease.url) s.records _ absent
          (ground (arith, text_eq_iff (k ∷ key) lease.url))))

  -- A page answers with a redirect, of status 301 or 302, below the limit, to a URL that normalizes, passes the filter and
  -- is new. If the URL of the lease, as it was discovered, is neither a key of the store nor the
  -- redirect's target, nothing changes in the store: the target is not enqueued, and the page is
  -- reported as a permanent failure, for a violated foreign key.
  pub do_process_raw_parent :
      (r : FetchResponse) (c k : ℕ) (location key : Text)
      → (r.status_code ≡ 301) ⊎ (r.status_code ≡ 302)
      → header (lit "location") r.headers ≡ some (c ∷ location)
      → lez w.config.max_redirects (pos (get_redirect_count lease.normalized_url s)) ≡ false
      → normalize lib w.normalizer (c ∷ location) ≡ some (k ∷ key)
      → passes lib search media w (k ∷ key) lease.depth s ≡ ok true
      → exists (k ∷ key) s ≡ false
      → exists lease.url s ≡ false
      → k ∷ key ≢ lease.url
      → do_process lib search media w clock (ok r) lease s
        ≡ (s, ok (terminal_failed lease (lit "processing error: " ++ foreign_key_failed.message)))
  unfolding do_process by_status handle_redirect
  do_process_raw_parent r c k location key status located few normal passed fresh absent other =
      let not_200 : (r.status_code == 200) ≡ false = ground arith in
      let redirects : ((r.status_code == 301) || (r.status_code == 302)) ≡ true = ground arith in
      rw not_200 (
        rw redirects (
          rw located (
            rw few (
              rw normal (
                rw
                  (enqueue_raw_parent (clock 0) k key (c ∷ location) lease.depth _ passed fresh
                    absent other)
                  refl)))))
