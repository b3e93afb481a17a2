-- ===== src/Store/Acquire.antt =====
-- What `acquire_lease_batch` of src/crawler/metadata_store.py hands out: each candidate once.
pub mod Granted
use web_crawler.Prelude.{
  ℕ, suc, ◌+◌, ◌≤◌, ◌<◌, ◌≡◌, ◌≢◌, refl, ap, ◌∙◌, Bool, true, false, ◌&&◌, ◌⊎◌, inl, inr, Option,
  none, some, List, [], ◌∷◌, Text, text_eq, text_eq_iff, text_eq_refl, arith, All, count, length,
  take, ltb, Bool-cases, Option-cases,
}
use web_crawler.Prelude.Int.{ℤ, pos, negsuc}
use web_crawler.Types.{LeaseResult}
use web_crawler.Store.{UrlRecord, Store, find_record, has_key, is_text, update}
use web_crawler.Store.Frontier.{
  Candidate, candidate, candidates, is_ready_retry, is_expired, is_pending, lease_each,
  lease_result, take_lease, is_leasable, is_leasable_at, is_held, acquire_lease_batch,
}
use web_crawler.Store.Frontier.Order.{
  IsOrdered, IsOrdered-candidates, is_for, count-candidates-le, count-candidates_tiers,
  length-candidates, min,
}
use web_crawler.Store.Rows.{
  HasDistinctKeys, HasDistinctKeys-update, count_of_found, count_of_absent, find_record-update,
}
use web_crawler.Store.Ownership.{any_of_not_found, Refuses, stale_writes}
use web_crawler.Store.Invariant.{HasDistinctKeys-lease_each}

-- The leases of a list of candidates, one for each, under successive draws.
abbrev pub grants : (ℕ → Text) → ℕ → ℕ → List Candidate → List LeaseResult
grants draw i expires [] = []
grants draw i expires (c ∷ cs) = lease_result (draw i) expires c ∷ grants draw (suc i) expires cs

leasable_keyed :
    (now : ℕ) (key : Text) (r : UrlRecord) → is_leasable_at now key r ≡ true → has_key key r ≡ true
leasable_keyed now key r h = ground arith

-- The rows that can be leased under a key: one if the row of that key can be leased.
abbrev leasable_count : ℕ → Text → List UrlRecord → ℕ
leasable_count now key rows = count (is_leasable_at now key) rows

-- The update of a key takes that key's row out of the rows that can be leased under other keys
-- neither adds nor removes any.
leasable_count-update :
    (now expires : ℕ) (key other token : Text)
    → text_eq key other ≡ false
    → (rows : List UrlRecord)
    → leasable_count now other (update (is_leasable_at now key) (take_lease token expires) rows)
      ≡ leasable_count now other rows
unfolding update
leasable_count-update now expires key other token ne [] = refl
leasable_count-update now expires key other token ne (r ∷ rs) = ground (
  arith,
  text_eq_iff r.normalized_url key,
  text_eq_iff r.normalized_url other,
  text_eq_iff key other,
  leasable_count-update now expires key other token ne rs,
)

-- Each candidate's key has a row that can be leased, and occurs once.
abbrev AllCount : ℕ → List Candidate → List UrlRecord → Type 0
AllCount now cs rows = (key : Text) → count (is_for key) cs ≤ leasable_count now key rows

count-is_for_self :
    (c : Candidate) (cs : List Candidate) → 1 ≤ count (is_for c.normalized_url) (c ∷ cs)
count-is_for_self c cs = ground (arith, text_eq_iff c.normalized_url c.normalized_url)

-- With distinct keys at most one row can be leased under a key.
leasable_count-le-one :
    (now : ℕ) (key : Text) (rows : List UrlRecord)
    → HasDistinctKeys rows
    → leasable_count now key rows ≤ 1
leasable_count-le-one now key rows d = elim (Option-cases (find_record key rows)) [
  | inl e ↦ omega (
    arith,
    count_of_absent key (is_leasable_at now key) (leasable_keyed now key) rows
        (any_of_not_found key rows e),
  )
  | inr (r, e) ↦
      ground
        (arith, count_of_found key (is_leasable_at now key) (leasable_keyed now key) rows r d e)
]

AllCount-step :
    (now expires : ℕ) (token : Text) (c : Candidate) (cs : List Candidate) (rows : List UrlRecord)
    → HasDistinctKeys rows
    → AllCount now (c ∷ cs) rows
    → AllCount now cs (update (is_leasable_at now c.normalized_url) (take_lease token expires) rows)
AllCount-step now expires token c cs rows d h key =
    elim (Bool-cases (text_eq c.normalized_url key)) [
      | inl same ↦ ground (arith, h key, leasable_count-le-one now key rows d)
      | inr other ↦
          ground
            (arith, h key, leasable_count-update now expires c.normalized_url key token other rows)
    ]

lease_each-grants :
    (draw : ℕ → Text) (i now expires : ℕ) (cs : List Candidate) (rows : List UrlRecord)
    → HasDistinctKeys rows
    → AllCount now cs rows
    → (lease_each draw i now expires cs rows).1 ≡ grants draw i expires cs
unfolding lease_each
lease_each-grants draw i now expires [] rows d h = refl
lease_each-grants draw i now expires (c ∷ cs) rows d h = ground (
  arith,
  h c.normalized_url,
  count-is_for_self c cs,
  lease_each-grants draw (suc i) now expires cs
      (update (is_leasable_at now c.normalized_url) (take_lease (draw i) expires) rows)
      (HasDistinctKeys-update (is_leasable_at now c.normalized_url) (take_lease (draw i) expires)
        (λ r. refl) rows d)
      (AllCount-step now expires (draw i) c cs rows d h),
)

count-and :
    (now : ℕ) (key : Text) (rows : List UrlRecord)
    → count (λ r. has_key key r && is_leasable now r) rows ≡ leasable_count now key rows
count-and now key rows = refl

length-grants :
    (draw : ℕ → Text) (i expires : ℕ) (cs : List Candidate)
    → length (grants draw i expires cs) ≡ length cs
length-grants draw i expires [] = refl
length-grants draw i expires (c ∷ cs) = omega (arith, length-grants draw (suc i) expires cs)

-- In a store with distinct keys, where nothing comes between the statements of
-- `acquire_lease_batch`, its guarded updates all succeed: the leases are those of the first
-- candidates, under successive tokens. The candidates are the retries that are due, the lapsed leases
-- and the pending rows, each once, in the order of these three tiers and in a tier of depth; and there
-- are as many leases as rows that can be leased, up to the batch size, which is not negative.
pub acquire-grants :
    (draw : ℕ → Text) (now n ttl : ℕ) (s : Store)
    → HasDistinctKeys s.records
    → let leases = (acquire_lease_batch draw now (pos n) ttl s).1 in
      let ranked = candidates now (negsuc 0) s.records in
      (leases ≡ grants draw 0 (now + ttl) (take n ranked))
      × IsOrdered ranked
      × ((p : Candidate → Bool)
          → count p ranked
            ≡ count (λ r. is_ready_retry now r && p (candidate 1 r)) s.records
              + count (λ r. is_expired now r && p (candidate 2 r)) s.records
              + count (λ r. is_pending r && p (candidate 3 r)) s.records)
      × (length leases ≡ min n (count (is_leasable now) s.records))
unfolding acquire_lease_batch
acquire-grants draw now n ttl s d =
    let same =
      lease_each-grants draw 0 now (now + ttl) (candidates now (pos n) s.records) s.records d
        (λ key. count-candidates-le now (pos n) key s.records) in
    (
      same,
      IsOrdered-candidates now (negsuc 0) s.records,
      λ p. count-candidates_tiers now 0 p s.records,
      ap length same
          ∙ (length-grants draw 0 (now + ttl) (candidates now (pos n) s.records)
              ∙ length-candidates now n s.records),
    )
