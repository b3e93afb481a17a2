-- ===== src/Store/Frontier.antt =====
-- src/crawler/metadata_store.py: `enqueue`, `acquire_lease_batch`, `renew_lease`, `expire_leases`.
-- `uuid4().hex` is a sequence of draws; the ties that `ORDER BY` leaves open go by insertion.
pub mod Order
use web_crawler.Prelude.{
  ℕ, zero, suc, ◌+◌, Bool, true, false, ◌&&◌, ◌||◌, Option, none, some, List, [], ◌∷◌, ◌++◌, map,
  Text, take, keep, count, any, ltb, leb, ◌==◌, if◌then◌else◌,
}
use web_crawler.Prelude.Int.{ℤ, pos, negsuc}
use web_crawler.Types.{pending, in_progress, retry, state_eq, LeaseResult, ok}
use web_crawler.Store.{
  UrlRecord, Store, Action, has_key, is_text, is_due, update, raise, pure, foreign_key_failed,
}

unfoldable pub new_record : ℕ → Text → Text → ℕ → Option Text → ℕ → UrlRecord
new_record now key url depth parent redirects = record {
  normalized_url = key;
  url = url;
  crawl_state = pending;
  lease_owner_id = none;
  lease_token = none;
  lease_expires_at = none;
  lease_renewal_count = 0;
  retry_count = 0;
  redirect_count = redirects;
  next_retry_at = none;
  crawl_depth = depth;
  parent_url = parent;
  content_type = none;
  content_hash = none;
  etag = none;
  last_crawl_timestamp = none;
  failure_reason = none;
  discovered_at = now;
}

-- The foreign key on `parent_url`: NULL, or the key of a row.
abbrev pub parent_known : Option Text → List UrlRecord → Bool
parent_known none rows = true
parent_known (some p) rows = any (has_key p) rows

-- `OR IGNORE` skips a key that is there, and does not excuse a violated foreign key.
unfoldable pub enqueue : ℕ → Text → Text → ℕ → Option Text → ℕ → Action (Unit {0})
unfolding new_record
enqueue now key url depth parent redirects s =
    let grown = s.records ++ new_record now key url depth parent redirects ∷ [] in
    if any (has_key key) s.records
    then pure tt s
    else if parent_known parent grown
    then (record s { records = grown }, ok tt)
    else raise foreign_key_failed s

-- A row of the `UNION ALL` query.
pub record Candidate : Type 0 where
  pub normalized_url : Text
  pub url : Text
  pub crawl_depth : ℕ
  pub priority : ℕ

abbrev pub is_pending : UrlRecord → Bool
is_pending r = state_eq r.crawl_state pending

abbrev pub is_ready_retry : ℕ → UrlRecord → Bool
is_ready_retry now r = state_eq r.crawl_state retry && is_due r.next_retry_at now

abbrev pub is_expired : ℕ → UrlRecord → Bool
is_expired now r = state_eq r.crawl_state in_progress && is_due r.lease_expires_at now

abbrev pub candidate : ℕ → UrlRecord → Candidate
candidate tier r = record {
  normalized_url = r.normalized_url;
  url = r.url;
  crawl_depth = r.crawl_depth;
  priority = tier;
}

-- `ORDER BY priority ASC, crawl_depth ASC`
abbrev pub ranks_le : Candidate → Candidate → Bool
ranks_le a b =
    ltb a.priority b.priority || (a.priority == b.priority && leb a.crawl_depth b.crawl_depth)

unfoldable pub insert : Candidate → List Candidate → List Candidate
insert c [] = c ∷ []
insert c (d ∷ ds) = if ranks_le c d then c ∷ d ∷ ds else d ∷ insert c ds

unfoldable pub order_by : List Candidate → List Candidate
unfolding insert
order_by [] = []
order_by (c ∷ cs) = insert c (order_by cs)

-- `LIMIT ?`, where a negative number is no limit.
abbrev pub limit : ℤ → List Candidate → List Candidate
limit (pos n) cs = take n cs
limit (negsuc n) cs = cs

unfoldable pub union_all : ℕ → List UrlRecord → List Candidate
union_all now rows =
    map (candidate 1) (keep (is_ready_retry now) rows)
    ++ (map (candidate 2) (keep (is_expired now) rows) ++ map (candidate 3) (keep is_pending rows))

unfoldable pub candidates : ℕ → ℤ → List UrlRecord → List Candidate
unfolding union_all order_by
candidates now size rows = limit size (order_by (union_all now rows))

-- The condition of the `UPDATE` that takes a lease.
abbrev pub is_leasable : ℕ → UrlRecord → Bool
is_leasable now r = is_pending r || (is_ready_retry now r || is_expired now r)

abbrev pub is_leasable_at : ℕ → Text → UrlRecord → Bool
is_leasable_at now key r = has_key key r && is_leasable now r

abbrev pub take_lease : Text → ℕ → UrlRecord → UrlRecord
take_lease token expires r = record r {
  crawl_state = in_progress;
  lease_token = some token;
  lease_expires_at = some expires;
  lease_renewal_count = 0;
}

abbrev pub lease_result : Text → ℕ → Candidate → LeaseResult
lease_result token expires c = record {
  normalized_url = c.normalized_url;
  url = c.url;
  depth = c.crawl_depth;
  lease_token = token;
  lease_expires_at = expires;
}

-- The loop over the candidates; the draws go on from `i`.
unfoldable pub lease_each :
    (ℕ → Text) → ℕ → ℕ → ℕ → List Candidate → List UrlRecord → List UrlRecord × List LeaseResult
unfolding update
lease_each draw i now expires [] rows = (rows, [])
lease_each draw i now expires (c ∷ cs) rows =
    let hit = is_leasable_at now c.normalized_url in
    let (rows', leases) =
      lease_each draw (suc i) now expires cs (update hit (take_lease (draw i) expires) rows) in
    (rows', if ltb 0 (count hit rows) then lease_result (draw i) expires c ∷ leases else leases)

-- The query and the updates, with no statement of another coroutine between them.
unfoldable pub acquire_lease_batch : (ℕ → Text) → ℕ → ℤ → ℕ → Store → Store × List LeaseResult
unfolding lease_each candidates
acquire_lease_batch draw now size ttl s =
    let (rows, leases) =
      lease_each draw 0 now (now + ttl) (candidates now size s.records) s.records in
    (record s { records = rows }, leases)

-- The condition that every statement of a lease's holder has.
abbrev pub is_held : Text → Text → UrlRecord → Bool
is_held key token r =
    has_key key r && (is_text r.lease_token token && state_eq r.crawl_state in_progress)

abbrev pub is_renewable : Text → Text → UrlRecord → Bool
is_renewable key token r = is_held key token r && ltb r.lease_renewal_count 3

abbrev pub extend : ℕ → UrlRecord → UrlRecord
extend expires r = record r {
  lease_expires_at = some expires;
  lease_renewal_count = r.lease_renewal_count + 1;
}

unfoldable pub renew_lease : ℕ → Text → Text → ℕ → Store → Store × Bool
unfolding update
renew_lease now key token extension s = (
  record s { records = update (is_renewable key token) (extend (now + extension)) s.records },
  ltb 0 (count (is_renewable key token) s.records),
)

abbrev pub reset : UrlRecord → UrlRecord
reset r = record r {
  crawl_state = pending;
  lease_token = none;
  lease_owner_id = none;
  lease_expires_at = none;
  lease_renewal_count = 0;
}

unfoldable pub expire_leases : ℕ → Store → Store × ℕ
unfolding update
expire_leases now s = (
  record s { records = update (is_expired now) reset s.records },
  count (is_expired now) s.records,
)
