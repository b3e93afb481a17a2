-- ===== src/Store/Discovery.antt =====
-- `enqueue` and `expire_leases` of src/crawler/metadata_store.py: deduplication, the foreign key,
-- and what is left of expired leases.
use web_crawler.Prelude.{
  ℕ, ◌≡◌, refl, Bool, true, false, Option, some, List, [], ◌∷◌, ◌++◌, Text, text_eq_refl, arith,
  any, count, if◌then◌else◌,
}
use web_crawler.Types.{ok, err}
use web_crawler.Store.{UrlRecord, Store, find_record, has_key, update, foreign_key_failed}
use web_crawler.Store.Frontier.{enqueue, new_record, parent_known, expire_leases, is_expired, reset}
use web_crawler.Store.Queries.{exists}
use web_crawler.Store.Rows.{find_record-update, update_none}

find_record_new :
    (key : Text) (rows : List UrlRecord) (r : UrlRecord)
    → any (has_key key) rows ≡ false
    → has_key key r ≡ true
    → find_record key (rows ++ r ∷ []) ≡ some r
unfolding find_record
find_record_new key [] r e h = ground arith
find_record_new key (x ∷ xs) r e h = ground (arith, find_record_new key xs r)

any-append :
    (p : UrlRecord → Bool) (rows : List UrlRecord) (r : UrlRecord)
    → p r ≡ true
    → any p (rows ++ r ∷ []) ≡ true
any-append p [] r h = ground arith
any-append p (x ∷ xs) r h = ground (arith, any-append p xs r)

module _ (now : ℕ) (key url : Text) (depth : ℕ) (parent : Option Text) (redirects : ℕ)
    (s : Store) where
  -- A known key changes nothing.
  pub enqueue_known :
      exists key s ≡ true → enqueue now key url depth parent redirects s ≡ (s, ok tt)
  unfolding enqueue exists
  enqueue_known h = rw h

  -- A new key whose parent is known becomes a pending row at the end, and is found there.
  pub enqueue_new :
      exists key s ≡ false
      → parent_known parent (s.records ++ new_record now key url depth parent redirects ∷ []) ≡ true
      → (enqueue now key url depth parent redirects s ≡ (
        record s { records = s.records ++ new_record now key url depth parent redirects ∷ [] },
        ok tt,
      ))
        × (find_record key (enqueue now key url depth parent redirects s).0.records
            ≡ some (new_record now key url depth parent redirects))
  unfolding enqueue exists
  enqueue_new h k = (
    ground arith,
    ground (
      arith,
      text_eq_refl key,
      find_record_new key s.records (new_record now key url depth parent redirects),
    ),
  )

  -- A new key with a parent that is no key of the table is an error, and changes nothing.
  pub enqueue_orphan :
      exists key s ≡ false
      → parent_known parent (s.records ++ new_record now key url depth parent redirects ∷ [])
        ≡ false
      → enqueue now key url depth parent redirects s ≡ (s, err foreign_key_failed)
  unfolding enqueue exists
  enqueue_orphan h k = ground arith

  -- Once a URL has been enqueued, the store has it, and enqueueing it again in whatever way changes
  -- nothing.
  pub enqueue_twice :
      (now' depth' redirects' : ℕ) (url' : Text) (parent' : Option Text) (t : Store)
      → enqueue now key url depth parent redirects s ≡ (t, ok tt)
      → (exists key t ≡ true) × (enqueue now' key url' depth' parent' redirects' t ≡ (t, ok tt))
  unfolding enqueue exists
  enqueue_twice now' depth' redirects' url' parent' t e =
      let there : any (has_key key) t.records ≡ true = ground (
        arith,
        text_eq_refl key,
        any-append (has_key key) s.records (new_record now key url depth parent redirects),
      ) in
      (there, rw there)

count-expire :
    (now : ℕ) (rows : List UrlRecord)
    → count (is_expired now) (update (is_expired now) reset rows) ≡ 0
unfolding update
count-expire now [] = refl
count-expire now (r ∷ rs) = ground (arith, count-expire now rs)

-- `expire_leases` reports how many leases are past their end, makes their rows pending without a
-- lease, and leaves the others as they are; afterwards no lease is past its end, and a second call
-- at that time changes nothing.
pub expire_lem :
    (now : ℕ) (s : Store)
    → let (t, n) = expire_leases now s in
      (n ≡ count (is_expired now) s.records)
      × ((key : Text) (r : UrlRecord)
          → find_record key s.records ≡ some r
          → find_record key t.records ≡ some (if is_expired now r then reset r else r))
      × (count (is_expired now) t.records ≡ 0)
      × (expire_leases now t ≡ (t, 0))
unfolding expire_leases
expire_lem now s =
    let none_left = count-expire now s.records in
    (
      refl,
      λ key r e. find_record-update key (is_expired now) reset (λ r. refl) s.records r e,
      none_left,
      rw (update_none (is_expired now) reset _ none_left, none_left),
    )
