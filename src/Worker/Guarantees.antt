-- ===== src/Worker/Guarantees.antt =====
-- What src/crawler/worker.py leaves as it is: the soundness of the store, and every row that the
-- worker holds no lease of.
use web_crawler.Prelude.{ℕ, ◌≡◌, refl, false, Option, some, List, Text, arith, All, [], ◌∷◌}
use web_crawler.Types.{FetchResponse, LeaseResult, Result}
use web_crawler.Store.{UrlRecord, Store, find_record}
use web_crawler.Store.Frontier.{enqueue, is_held, new_record}
use web_crawler.Store.Transitions.{mark_completed, complete}
use web_crawler.Store.Rows.{HasDistinctKeys, find_record-update, find_record-append}
use web_crawler.Store.Lifecycle.{enqueues, completes, step}
use web_crawler.Store.Invariant.{IsValid, IsConsistent, step-IsValid}
use web_crawler.Processors.{Media}
use web_crawler.Pipeline.Context.{UrlLib}
use web_crawler.Pipeline.Filter.{Search}
use web_crawler.Worker.{Worker, do_process}
use web_crawler.Worker.Effects.{Keeps, Keeps-do_process}

abbrev AreValid : List UrlRecord → Type 0
AreValid rows = HasDistinctKeys rows × All IsConsistent rows

IsValid-rows : (s : Store) → IsValid s → AreValid s.records
IsValid-rows s v = (v.keys, v.rows)

rows_IsValid : (s : Store) → AreValid s.records → IsValid s
rows_IsValid s v = record { keys = v.0; rows = v.1 }

-- A row that is found is found again, as it was, after an `enqueue` of any key.
find_record-enqueue :
    (key : Text) (r : UrlRecord) (now : ℕ) (new url : Text) (depth : ℕ) (parent : Option Text)
    (redirects : ℕ)
    → Keeps (λ rows. find_record key rows ≡ some r) (enqueue now new url depth parent redirects)
unfolding enqueue
find_record-enqueue key r now new url depth parent redirects s e =
    let row = new_record now new url depth parent redirects in
    let grown = find_record-append key s.records (row ∷ []) r e in ground arith

module _ (lib : UrlLib) (search : Search) (media : Media) (w : Worker) (clock : ℕ → ℕ)
    (outcome : Result FetchResponse) (lease : LeaseResult) (s : Store) where
  -- Whatever the fetch returns, the processing of a page leaves a valid store valid.
  pub do_process-IsValid :
      IsValid s → IsValid (do_process lib search media w clock outcome lease s).0
  unfolding step
  do_process-IsValid v = rows_IsValid _ (
      Keeps-do_process AreValid lib search media w
        (λ now key url depth parent redirects admitted t a.
          IsValid-rows _
            (step-IsValid t (enqueues now key url depth parent redirects) (rows_IsValid t a)))
        lease
        (λ now hash mime etag t a. IsValid-rows _ (
          step-IsValid t (completes now lease.normalized_url lease.lease_token hash mime etag)
            (rows_IsValid t a)))
        clock outcome s (IsValid-rows s v))

  -- Whatever the fetch returns, the processing of a page changes no row that its lease does not
  -- hold: neither the row of another URL, nor its own once the lease was lost.
  pub do_process_unheld :
      (key : Text) (r : UrlRecord)
      → find_record key s.records ≡ some r
      → is_held lease.normalized_url lease.lease_token r ≡ false
      → find_record key (do_process lib search media w clock outcome lease s).0.records ≡ some r
  unfolding mark_completed
  do_process_unheld key r e h =
      Keeps-do_process (λ rows. find_record key rows ≡ some r) lib search media w
        (λ now new url depth parent redirects admitted.
          find_record-enqueue key r now new url depth parent redirects)
        lease stays clock outcome s e
    where
      stays :
          (now : ℕ) (hash mime etag : Option Text) (t : Store)
          → find_record key t.records ≡ some r
          → find_record key
              (mark_completed now lease.normalized_url lease.lease_token hash mime etag t).0.records
            ≡ some r
      stays now hash mime etag t f =
          let found =
            find_record-update key (is_held lease.normalized_url lease.lease_token)
              (complete now hash mime etag) (λ x. refl) t.records r f in
          rw h at found
