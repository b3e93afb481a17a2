-- ===== src/Store/Invariant.antt =====
-- What holds of the rows of `url_records` after any history of calls of
-- src/crawler/metadata_store.py.
use web_crawler.Prelude.{
  ℕ, suc, ◌+◌, ◌≤◌, ◌≡◌, refl, ◌∙◌, ap, subst, Bool, true, false, inl, inr, Option, none, some,
  List, [], ◌∷◌, ◌++◌, Text, arith, is_some, All, any, Bool-cases,
}
use web_crawler.Types.{CrawlState, in_progress, completed, state_eq}
use web_crawler.Store.{UrlRecord, Store, find_record, has_key}
use web_crawler.Store.Frontier.{
  enqueue, acquire_lease_batch, renew_lease, expire_leases, new_record, parent_known, candidates,
  Candidate, lease_each, is_leasable_at, take_lease,
}
use web_crawler.Store.Transitions.{mark_completed, mark_retry, mark_terminal_failed, mark_failed}
use web_crawler.Store.Moves.{
  Moves, stays, leased, renewed, released, retried, terminated, exhausted, IsFresh, Evolves,
}
use web_crawler.Store.Rows.{HasDistinctKeys, HasDistinctKeys-update, HasDistinctKeys-append}
use web_crawler.Store.Lifecycle.{Call, enqueues, acquires, fails, step, run, step-Evolves}

-- What holds of each row after any history: exactly the rows in progress have a lease token and an
-- expiry, no lease is renewed more than three times, and only a completed row has a content hash.
pub record IsConsistent (r : UrlRecord) : Type 0 where
  pub token : is_some r.lease_token ≡ state_eq r.crawl_state in_progress
  pub expiry : is_some r.lease_expires_at ≡ state_eq r.crawl_state in_progress
  pub renewals : r.lease_renewal_count ≤ 3
  pub hashed : is_some r.content_hash ≡ true → r.crawl_state ≡ completed

Moves-IsConsistent : {r r' : UrlRecord} → Moves r r' → IsConsistent r → IsConsistent r'
Moves-IsConsistent (stays e) c = rw e c
Moves-IsConsistent (leased now exp token h e) c = ground arith
Moves-IsConsistent (renewed exp p n e) c = ground arith
Moves-IsConsistent (released p e) c = ground arith
Moves-IsConsistent (Moves.completed now hash mime etag p e) c = ground arith
Moves-IsConsistent (retried n at reason p e) c = ground arith
Moves-IsConsistent (Moves.failed reason p e) c = ground arith
Moves-IsConsistent (terminated reason p e) c = ground arith
Moves-IsConsistent (exhausted reason p e) c = ground arith

IsFresh-IsConsistent : {r : UrlRecord} → IsFresh r → IsConsistent r
unfolding new_record
IsFresh-IsConsistent (now, depth, parent, redirects, e) = ground arith

Evolves-IsConsistent :
    (xs ys : List UrlRecord) → Evolves xs ys → All IsConsistent xs → All IsConsistent ys
Evolves-IsConsistent [] [] e c = tt
Evolves-IsConsistent [] (y ∷ ys) e c = (IsFresh-IsConsistent e.0, Evolves-IsConsistent [] ys e.1 tt)
Evolves-IsConsistent (x ∷ xs) [] e c = absurd e
Evolves-IsConsistent (x ∷ xs) (y ∷ ys) e c =
    (Moves-IsConsistent e.0 c.0, Evolves-IsConsistent xs ys e.1 c.1)

pub HasDistinctKeys-lease_each :
    (draw : ℕ → Text) (i now until : ℕ) (cs : List Candidate) (rows : List UrlRecord)
    → HasDistinctKeys rows
    → HasDistinctKeys (lease_each draw i now until cs rows).0
unfolding lease_each
HasDistinctKeys-lease_each draw i now until [] rows d = d
HasDistinctKeys-lease_each draw i now until (c ∷ cs) rows d =
    HasDistinctKeys-lease_each draw (suc i) now until cs _ (
      HasDistinctKeys-update (is_leasable_at now c.normalized_url) (take_lease (draw i) until)
        (λ r. refl) rows d)

enqueue-HasDistinctKeys :
    (s : Store) (now : ℕ) (key url : Text) (depth : ℕ) (parent : Option Text) (redirects : ℕ)
    → HasDistinctKeys s.records
    → HasDistinctKeys (enqueue now key url depth parent redirects s).0.records
unfolding enqueue
enqueue-HasDistinctKeys s now key url depth parent redirects d =
    elim (Bool-cases (any (has_key key) s.records)) [
      | inl there ↦ rw there d
      | inr absent ↦ rw absent (elim (Bool-cases (parent_known parent (s.records ++ row ∷ []))) [
        | inl known ↦ rw known (HasDistinctKeys-append s.records row absent d)
        | inr unknown ↦ rw unknown d
      ])
    ]
  where
    row : UrlRecord
    row = new_record now key url depth parent redirects

step-HasDistinctKeys :
    (s : Store) (c : Call) → HasDistinctKeys s.records → HasDistinctKeys (step s c).records
unfolding step acquire_lease_batch renew_lease expire_leases mark_completed mark_retry
    mark_terminal_failed mark_failed
step-HasDistinctKeys s (enqueues now key url depth parent redirects) d =
    enqueue-HasDistinctKeys s now key url depth parent redirects d
step-HasDistinctKeys s (acquires draw now size ttl) d =
    HasDistinctKeys-lease_each draw 0 now (now + ttl) (candidates now size s.records) s.records d
step-HasDistinctKeys s (fails key none failure reason) d =
    HasDistinctKeys-update _ _ (λ r. refl) s.records d
step-HasDistinctKeys s (fails key (some token) failure reason) d =
    HasDistinctKeys-update _ _ (λ r. refl) s.records d
step-HasDistinctKeys s _ d = HasDistinctKeys-update _ _ (λ r. refl) s.records d

-- A store whose rows have distinct keys and are consistent.
pub record IsValid (s : Store) : Type 0 where
  pub keys : HasDistinctKeys s.records
  pub rows : All IsConsistent s.records

pub step-IsValid : (s : Store) (c : Call) → IsValid s → IsValid (step s c)
step-IsValid s c v = record {
  keys = step-HasDistinctKeys s c v.keys;
  rows = Evolves-IsConsistent s.records _ (step-Evolves s c) v.rows;
}

-- A valid store stays valid through any history: the keys stay distinct, exactly the rows in
-- progress have a lease token and an expiry, no lease is renewed more than three times, and only a
-- completed row has a content hash.
pub run-IsValid : (s : Store) (cs : List Call) → IsValid s → IsValid (run s cs)
unfolding run
run-IsValid s [] v = v
run-IsValid s (c ∷ cs) v = run-IsValid (step s c) cs (step-IsValid s c v)

abbrev pub is_final : CrawlState → Bool
is_final CrawlState.completed = true
is_final CrawlState.failed = true
is_final CrawlState.terminal_failed = true
is_final _ = false

Moves-final : {r r' : UrlRecord} → Moves r r' → is_final r.crawl_state ≡ true → r' ≡ r
Moves-final (stays e) h = e
Moves-final (leased now exp token can e) h = absurd (ground arith)
Moves-final (renewed exp p n e) h = absurd (ground arith)
Moves-final (released p e) h = absurd (ground arith)
Moves-final (Moves.completed now hash mime etag p e) h = absurd (ground arith)
Moves-final (retried n at reason p e) h = absurd (ground arith)
Moves-final (Moves.failed reason p e) h = absurd (ground arith)
Moves-final (terminated reason p e) h = absurd (ground arith)
Moves-final (exhausted reason p e) h = absurd (ground arith)

pub Moves-key : {r r' : UrlRecord} → Moves r r' → r'.normalized_url ≡ r.normalized_url
Moves-key (stays e) = ground arith
Moves-key (leased now exp token can e) = ground arith
Moves-key (renewed exp p n e) = ground arith
Moves-key (released p e) = ground arith
Moves-key (Moves.completed now hash mime etag p e) = ground arith
Moves-key (retried n at reason p e) = ground arith
Moves-key (Moves.failed reason p e) = ground arith
Moves-key (terminated reason p e) = ground arith
Moves-key (exhausted reason p e) = ground arith

-- A row is found again after a call, moved by one step.
pub Evolves-find :
    (key : Text) (xs ys : List UrlRecord) (r : UrlRecord)
    → Evolves xs ys
    → find_record key xs ≡ some r
    → (r' : UrlRecord) × (find_record key ys ≡ some r') × Moves r r'
unfolding find_record
Evolves-find key [] ys r e h = absurd (cc)
Evolves-find key (x ∷ xs) [] r e h = absurd e
Evolves-find key (x ∷ xs) (y ∷ ys) r e h = elim (Bool-cases (has_key key x)) [
  | inl hit ↦
      let same : x ≡ r = ground arith in
      (y, ground (arith, Moves-key e.0), subst (λ z. Moves z y) same e.0)
  | inr miss ↦
      let (r', found, move) = Evolves-find key xs ys r e.1 (ground arith) in
      (r', ground (arith, Moves-key e.0), move)
]

-- A completed, failed or terminally failed row is never changed again: whatever calls follow, the
-- same row is found under its key.
pub run_final :
    (s : Store) (cs : List Call) (key : Text) (r : UrlRecord)
    → find_record key s.records ≡ some r
    → is_final r.crawl_state ≡ true
    → find_record key (run s cs).records ≡ some r
unfolding run
run_final s [] key r e h = e
run_final s (c ∷ cs) key r e h =
    let (r', found, move) = Evolves-find key s.records _ r (step-Evolves s c) e in
    run_final (step s c) cs key r (found ∙ ap some (Moves-final move h)) h
