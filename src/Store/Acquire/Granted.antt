-- ===== src/Store/Acquire/Granted.antt =====
-- The leases that `acquire_lease_batch` of src/crawler/metadata_store.py hands out: the store knows
-- each of them, and no other for its row.
use web_crawler.Prelude.{
  ℕ, suc, ◌+◌, ◌<◌, ◌≡◌, ◌≢◌, refl, ap, ◌∙◌, Bool, true, false, ◌⊎◌, inl, inr, Option, none, some,
  List, [], ◌∷◌, Text, text_eq_iff, text_eq_refl, arith, All, count, ltb, Bool-cases, Option-cases,
}
use web_crawler.Prelude.Int.{ℤ}
use web_crawler.Types.{LeaseResult}
use web_crawler.Store.{UrlRecord, Store, find_record, is_text, update}
use web_crawler.Store.Frontier.{
  Candidate, candidates, lease_each, lease_result, take_lease, is_leasable, is_leasable_at, is_held,
  acquire_lease_batch,
}
use web_crawler.Store.Rows.{
  HasDistinctKeys, HasDistinctKeys-update, count_of_found, count_of_absent, find_record-update,
}
use web_crawler.Store.Ownership.{any_of_not_found, Refuses, stale_writes}
use web_crawler.Store.Invariant.{HasDistinctKeys-lease_each}
use web_crawler.Store.Acquire.{leasable_keyed}

-- A row that cannot be leased is left as it is by the whole loop.
lease_each-other :
    (draw : ℕ → Text) (i now expires : ℕ) (cs : List Candidate) (rows : List UrlRecord) (key : Text)
    (r : UrlRecord)
    → find_record key rows ≡ some r
    → is_leasable now r ≡ false
    → find_record key (lease_each draw i now expires cs rows).0 ≡ some r
unfolding lease_each
lease_each-other draw i now expires [] rows key r e h = e
lease_each-other draw i now expires (c ∷ cs) rows key r e h =
    lease_each-other draw (suc i) now expires cs _ key r
      (find_record-update key (is_leasable_at now c.normalized_url) (take_lease (draw i) expires)
          (λ r. refl) rows r e
        ∙ ap some (ground arith))
      h

-- A lease that the store knows: its row is in progress under its token until it expires.
pub record IsGranted (rows : List UrlRecord) (l : LeaseResult) : Type 0 where
  pub row : UrlRecord
  pub found : find_record l.normalized_url rows ≡ some row
  pub held : is_held l.normalized_url l.lease_token row ≡ true
  pub until : row.lease_expires_at ≡ some l.lease_expires_at

module _ (draw : ℕ → Text) (i now expires : ℕ) (c : Candidate) (cs : List Candidate)
    (rows : List UrlRecord) where
  abbrev hit : UrlRecord → Bool
  hit = is_leasable_at now c.normalized_url

  abbrev leased_rows : List UrlRecord
  leased_rows = update hit (take_lease (draw i) expires) rows

  count-hit :
      HasDistinctKeys rows
      → (count hit rows ≡ 0)
        ⊎ ((r : UrlRecord) × (find_record c.normalized_url rows ≡ some r) × (hit r ≡ true))
  count-hit d = elim (Option-cases (find_record c.normalized_url rows)) [
    | inl e ↦ inl (
        count_of_absent c.normalized_url hit (leasable_keyed now c.normalized_url) rows
          (any_of_not_found c.normalized_url rows e))
    | inr (r, e) ↦ elim (Bool-cases (hit r)) [
      | inl h ↦ inr (r, e, h)
      | inr h ↦ inl (
          ground (
            arith,
            count_of_found c.normalized_url hit (leasable_keyed now c.normalized_url) rows r d e,
          ))
    ]
  ]

  first-IsGranted :
      (r : UrlRecord)
      → now < expires
      → find_record c.normalized_url rows ≡ some r
      → hit r ≡ true
      → IsGranted
          (lease_each draw (suc i) now expires cs leased_rows).0
          (lease_result (draw i) expires c)
  first-IsGranted r lt e h = record {
    row = take_lease (draw i) expires r;
    found =
        lease_each-other draw (suc i) now expires cs leased_rows c.normalized_url _
          (find_record-update c.normalized_url hit (take_lease (draw i) expires) (λ r. refl) rows r
              e
            ∙ ap some (ground arith))
          (ground arith);
    held = ground (arith, text_eq_refl (draw i));
    until = refl;
  }

lease_each-IsGranted :
    (draw : ℕ → Text) (i now expires : ℕ) (cs : List Candidate) (rows : List UrlRecord)
    → now < expires
    → HasDistinctKeys rows
    → All
        (IsGranted (lease_each draw i now expires cs rows).0)
        (lease_each draw i now expires cs rows).1
unfolding lease_each
lease_each-IsGranted draw i now expires [] rows lt d = tt
lease_each-IsGranted draw i now expires (c ∷ cs) rows lt d =
    let rest =
      lease_each-IsGranted draw (suc i) now expires cs (leased_rows draw i now expires c cs rows) lt
        (HasDistinctKeys-update (is_leasable_at now c.normalized_url) (take_lease (draw i) expires)
          (λ r. refl) rows d) in
    elim (count-hit draw i now expires c cs rows d) [
      | inl e ↦ rw e rest
      | inr (r, e, h) ↦
          let one : ltb 0 (count (is_leasable_at now c.normalized_url) rows) ≡ true = ground (
            arith,
            count_of_found c.normalized_url (is_leasable_at now c.normalized_url)
                (leasable_keyed now c.normalized_url) rows r d e,
          ) in
          rw one (first-IsGranted draw i now expires c cs rows r lt e h, rest)
    ]

-- From a store with distinct keys, each lease that is handed out for some time is one that the
-- store knows afterwards.
pub acquire-IsGranted :
    (draw : ℕ → Text) (now ttl : ℕ) (size : ℤ) (s : Store)
    → 0 < ttl
    → HasDistinctKeys s.records
    → let (t, leases) = acquire_lease_batch draw now size ttl s in All (IsGranted t.records) leases
unfolding acquire_lease_batch
acquire-IsGranted draw now ttl size s lt d =
    lease_each-IsGranted draw 0 now (now + ttl) (candidates now size s.records) s.records
      (omega arith) d

is_text_unique : (o : Option Text) (a b : Text) → is_text o a ≡ true → is_text o b ≡ true → b ≡ a
is_text_unique none a b h k = cc
is_text_unique (some x) a b h k = ground (arith, text_eq_iff x a, text_eq_iff x b)

HasDistinctKeys-acquire :
    (draw : ℕ → Text) (now ttl : ℕ) (size : ℤ) (s : Store)
    → HasDistinctKeys s.records
    → HasDistinctKeys (acquire_lease_batch draw now size ttl s).0.records
unfolding acquire_lease_batch
HasDistinctKeys-acquire draw now ttl size s d =
    HasDistinctKeys-lease_each draw 0 now (now + ttl) (candidates now size s.records) s.records d

AllRefuse :
    (t : Store) (leases : List LeaseResult)
    → HasDistinctKeys t.records
    → All (IsGranted t.records) leases
    → All (λ l. (token : Text) → token ≢ l.lease_token → Refuses t l.normalized_url token) leases
AllRefuse t [] d g = tt
AllRefuse t (l ∷ ls) d g = (
  λ token other. stale_writes t l.normalized_url token g.0.row d g.0.found (
      ground (
        arith,
        g.0.held,
        text_eq_iff g.0.row.normalized_url l.normalized_url,
        is_text_unique g.0.row.lease_token l.lease_token token,
      )),
  AllRefuse t ls d g.1,
)

-- After leases are handed out for some time from a store with distinct keys, each of the rows takes
-- writes under its new token only: a worker that held it before, or anyone else, is refused.
pub acquire-Refuses :
    (draw : ℕ → Text) (now ttl : ℕ) (size : ℤ) (s : Store)
    → 0 < ttl
    → HasDistinctKeys s.records
    → let (t, leases) = acquire_lease_batch draw now size ttl s in
      All (λ l. (token : Text) → token ≢ l.lease_token → Refuses t l.normalized_url token) leases
acquire-Refuses draw now ttl size s lt d =
    AllRefuse (acquire_lease_batch draw now size ttl s).0 _
      (HasDistinctKeys-acquire draw now ttl size s d) (acquire-IsGranted draw now ttl size s lt d)
