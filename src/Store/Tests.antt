-- ===== src/Store/Tests.antt =====
-- Runs of the store's calls at small inputs.
use web_crawler.Prelude.{
  ◌&&◌, ◌+◌, ℕ, zero, suc, ◌≡◌, ◌≢◌, refl, ap, ◌∙◌, Bool, true, false, Option, none, some, List, [],
  ◌∷◌, Text, All, length, count, take, arith, if◌then◌else◌,
}
use web_crawler.Prelude.Int.{pos, negsuc}
use web_crawler.Types.{CrawlState, CrawlerConfig}
use web_crawler.Store.{UrlRecord, Store, empty_store, find_record, update}
use web_crawler.Store.Frontier.{
  Candidate, candidate, is_ready_retry, is_expired, is_pending, take_lease, acquire_lease_batch,
  candidates, is_leasable, expire_leases, enqueue,
}
use web_crawler.Store.Frontier.Order.{IsOrdered, min}
use web_crawler.Store.Transitions.{
  complete, mark_completed, mark_retry, mark_terminal_failed, mark_failed,
}
use web_crawler.Store.Settings.{Json}
use web_crawler.Store.Lifecycle.{Call, enqueues, acquires, completes, expires, run}
use web_crawler.Store.Attempts.{newly_discovered, leases, lost_leases, attempts_unbounded}
use web_crawler.Store.Invariant.{IsValid, run-IsValid, run_final}
use web_crawler.Store.Ownership.{Refuses, stale_writes, holder_writes}
use web_crawler.Store.Acquire.{grants, acquire-grants}
use web_crawler.Store.Acquire.Granted.{acquire-Refuses}

abbrev pub key : Text
key = b'a' ∷ []

abbrev pub token : Text
token = b't' ∷ []

abbrev pub waiting : UrlRecord
waiting = record {
  normalized_url = key;
  url = key;
  crawl_state = CrawlState.pending;
  lease_owner_id = none;
  lease_token = none;
  lease_expires_at = none;
  lease_renewal_count = 0;
  retry_count = 0;
  redirect_count = 0;
  next_retry_at = none;
  crawl_depth = 0;
  parent_url = none;
  content_type = none;
  content_hash = none;
  etag = none;
  last_crawl_timestamp = none;
  failure_reason = none;
  discovered_at = 5;
}

abbrev pub held : UrlRecord
held = take_lease token 100 waiting

abbrev pub done : UrlRecord
done = complete 50 (some (b'h' ∷ [])) none none held

abbrev pub store_of : UrlRecord → Store
store_of r = record empty_store { records = r ∷ [] }

abbrev history : List Call
history =
    enqueues 5 key key 0 none 0
    ∷ acquires (λ i. token) 10 (pos 3) 60
    ∷ completes 50 key token (some (b'h' ∷ [])) none none
    ∷ expires 90
    ∷ []

history_completes : find_record key (run empty_store history).records ≡ some done
unfolding run find_record web_crawler.Store.Lifecycle.step expire_leases mark_completed
    acquire_lease_batch enqueue web_crawler.Prelude.text_eq
history_completes = refl

run-IsValid_example : IsValid (run empty_store history)
run-IsValid_example = run-IsValid empty_store history (record { keys = tt; rows = tt })

run_final_example : find_record key (run (store_of done) history).records ≡ some done
unfolding find_record web_crawler.Prelude.text_eq
run_final_example = run_final (store_of done) history key done refl refl

stale_writes_example : Refuses (store_of held) key (b'u' ∷ [])
unfolding find_record web_crawler.Prelude.text_eq
stale_writes_example = stale_writes (store_of held) key (b'u' ∷ []) held (refl, tt) refl refl

holder_writes_example :
    let s = store_of held in
    let finished = mark_completed 50 key token none none none s in
    let again = mark_retry key token 1 (some 70) none none s in
    let stopped = mark_terminal_failed key token none none s in
    let failed = mark_failed key (some token) none none s in
    (finished.1 ≡ true)
    × (find_record key finished.0.records
        ≡ some (record held {
          crawl_state = CrawlState.completed;
          content_hash = none;
          content_type = none;
          etag = none;
          last_crawl_timestamp = some 50;
          lease_token = none;
          lease_expires_at = none;
        }))
    × (again.1 ≡ true)
    × (find_record key again.0.records
        ≡ some (record held {
          crawl_state = CrawlState.retry;
          retry_count = 1;
          next_retry_at = some 70;
          failure_reason = none;
          lease_token = none;
          lease_expires_at = none;
        }))
    × (stopped.1 ≡ true)
    × (find_record key stopped.0.records
        ≡ some (record held {
          crawl_state = CrawlState.terminal_failed;
          failure_reason = none;
          lease_token = none;
          lease_expires_at = none;
        }))
    × (failed.1 ≡ true)
    × (find_record key failed.0.records
        ≡ some (record held {
          crawl_state = CrawlState.failed;
          failure_reason = none;
          lease_token = none;
          lease_expires_at = none;
        }))
unfolding find_record web_crawler.Prelude.text_eq
holder_writes_example =
    holder_writes (store_of held) key token held (refl, tt) refl 50 1 none none none none (some 70)
      refl

acquire-grants_example :
    let leases = (acquire_lease_batch (λ i. token) 10 (pos 3) 60 (store_of waiting)).1 in
    let ranked = candidates 10 (negsuc 0) (store_of waiting).records in
    (leases ≡ grants (λ i. token) 0 70 (take 3 ranked))
    × IsOrdered ranked
    × ((p : Candidate → Bool)
        → count p ranked
          ≡ count (λ r. is_ready_retry 10 r && p (candidate 1 r)) (store_of waiting).records
            + count (λ r. is_expired 10 r && p (candidate 2 r)) (store_of waiting).records
            + count (λ r. is_pending r && p (candidate 3 r)) (store_of waiting).records)
    × (length leases ≡ min 3 (count (is_leasable 10) (store_of waiting).records))
acquire-grants_example = acquire-grants (λ i. token) 10 3 60 (store_of waiting) (refl, tt)

acquire-Refuses_example :
    All
      (λ l.
        (other : Text)
        → other ≢ l.lease_token
        → Refuses
            (acquire_lease_batch (λ i. token) 10 (pos 3) 60 (store_of waiting)).0
            l.normalized_url
            other)
      (acquire_lease_batch (λ i. token) 10 (pos 3) 60 (store_of waiting)).1
acquire-Refuses_example =
    acquire-Refuses (λ i. token) 10 60 (pos 3) (store_of waiting) (omega arith) (refl, tt)

-- An encoding of lists of texts, in place of JSON's: a 1 ends a text, and a 0 the list.
put_text : Text → Text → Text
put_text [] rest = 1 ∷ rest
put_text (c ∷ t) rest = suc (suc c) ∷ put_text t rest

pub write_texts : List Text → Text
unfolding put_text
write_texts [] = 0 ∷ []
write_texts (t ∷ ts) = put_text t (write_texts ts)

into_first : ℕ → List Text → List Text
into_first c [] = []
into_first c (t ∷ ts) = (c ∷ t) ∷ ts

pub read_texts : Text → List Text
unfolding into_first
read_texts [] = []
read_texts (zero ∷ rest) = []
read_texts (suc zero ∷ rest) = [] ∷ read_texts rest
read_texts (suc (suc c) ∷ rest) = into_first c (read_texts rest)

read_texts-put : (t rest : Text) → read_texts (put_text t rest) ≡ t ∷ read_texts rest
unfolding read_texts put_text
read_texts-put [] rest = refl
read_texts-put (c ∷ t) rest = rw (read_texts-put t rest) refl

pub read_texts-write : (ts : List Text) → read_texts (write_texts ts) ≡ ts
unfolding read_texts write_texts
read_texts-write [] = refl
read_texts-write (t ∷ ts) = read_texts-put t (write_texts ts) ∙ ap (◌∷◌ t) (read_texts-write ts)

pub write_texts-ne-nil : (ts : List Text) → write_texts ts ≢ []
unfolding write_texts put_text
write_texts-ne-nil [] e = cc
write_texts-ne-nil ([] ∷ ts) e = cc
write_texts-ne-nil ((c ∷ t) ∷ ts) e = cc

abbrev pub codec : Json
codec = record {
  dumps = write_texts;
  loads = read_texts;
  loads-dumps = read_texts-write;
  dumps-ne-nil = write_texts-ne-nil;
}

abbrev pub config : CrawlerConfig
config = record {
  seed_url = key;
  max_depth = none;
  max_concurrency = pos 10;
  max_retries = pos 3;
  max_content_size = pos 2048;
  max_redirects = pos 7;
  include_patterns = key ∷ [];
  exclude_patterns = [];
  lease_timeout_ms = 60000;
  batch_size = pos 50;
  progress_interval_ms = 500;
}

attempts_unbounded_example :
    (leases (newly_discovered 5 key key 0 0) (lost_leases (λ i. token) 60 4 10) ≡ 4)
    × (run (newly_discovered 5 key key 0 0) (lost_leases (λ i. token) 60 4 10)
        ≡ newly_discovered 5 key key 0 0)
attempts_unbounded_example = attempts_unbounded (λ i. token) 60 5 key key 0 0 4 10
