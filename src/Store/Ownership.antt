-- ===== src/Store/Ownership.antt =====
-- Who may write a row of `url_records` in src/crawler/metadata_store.py: the holder of its
-- lease, and nobody else.
use web_crawler.Prelude.{
  ℕ, ◌≡◌, refl, ap, ◌∙◌, Bool, true, false, Option, none, some, List, [], ◌∷◌, Text, arith, count,
  any, or_else,
}
use web_crawler.Types.{CrawlState}
use web_crawler.Store.{UrlRecord, Store, find_record, has_key}
use web_crawler.Store.Frontier.{is_held, is_renewable, renew_lease}
use web_crawler.Store.Transitions.{
  write, complete, schedule, fail, mark_completed, mark_retry, mark_terminal_failed, mark_failed,
}
use web_crawler.Store.Rows.{
  HasDistinctKeys, KeepsKey, changed, update_none, count_of_found, count_of_absent,
  find_record-update,
}

pub any_of_not_found :
    (key : Text) (rows : List UrlRecord)
    → find_record key rows ≡ none
    → any (has_key key) rows ≡ false
unfolding find_record
any_of_not_found key [] e = refl
any_of_not_found key (x ∷ xs) e = ground (arith, any_of_not_found key xs)

module _ (key : Text) (p : UrlRecord → Bool) (f : UrlRecord → UrlRecord)
    (keyed : (r : UrlRecord) → p r ≡ true → has_key key r ≡ true) (keeps : KeepsKey f)
    (s : Store) where
  -- A write whose condition names a key: whether it is accepted, and what is found afterwards.
  pub write_lem :
      (r : UrlRecord)
      → HasDistinctKeys s.records
      → find_record key s.records ≡ some r
      → ((write p f s).1 ≡ p r) × (find_record key (write p f s).0.records ≡ some (changed p f r))
  unfolding write
  write_lem r d e = (
    ground (arith, count_of_found key p keyed s.records r d e),
    find_record-update key p f keeps s.records r e,
  )

  pub write_refused :
      (r : UrlRecord)
      → HasDistinctKeys s.records
      → find_record key s.records ≡ some r
      → p r ≡ false
      → write p f s ≡ (s, false)
  unfolding write
  write_refused r d e h =
      let none_met : count p s.records ≡ 0 =
        ground (arith, count_of_found key p keyed s.records r d e) in
      rw (update_none p f s.records none_met, none_met)

  pub write_missing : find_record key s.records ≡ none → write p f s ≡ (s, false)
  unfolding write
  write_missing e =
      let none_met : count p s.records ≡ 0 =
        count_of_absent key p keyed s.records (any_of_not_found key s.records e) in
      rw (update_none p f s.records none_met, none_met)

held_keyed : (key token : Text) (r : UrlRecord) → is_held key token r ≡ true → has_key key r ≡ true
held_keyed key token r h = ground arith

renewable_keyed :
    (key token : Text) (r : UrlRecord) → is_renewable key token r ≡ true → has_key key r ≡ true
renewable_keyed key token r h = ground arith

or_else-none : {A : Type 0} (o : Option A) → or_else o none ≡ o
or_else-none none = refl
or_else-none (some a) = refl

-- All five calls that take a token are refused, and leave the store as it is.
abbrev pub Refuses : Store → Text → Text → Type 0
Refuses s key token =
    (now n extension : ℕ) (hash mime etag reason : Option Text) (at : Option ℕ)
    → (renew_lease now key token extension s ≡ (s, false))
      × (mark_completed now key token hash mime etag s ≡ (s, false))
      × (mark_retry key token n at none reason s ≡ (s, false))
      × (mark_terminal_failed key token reason none s ≡ (s, false))
      × (mark_failed key (some token) reason none s ≡ (s, false))

module _ (s : Store) (key token : Text) (r : UrlRecord) (d : HasDistinctKeys s.records)
    (e : find_record key s.records ≡ some r) where
  -- In a store with distinct keys, a caller whose token is not the one in the row, or whose row is
  -- not in progress, changes nothing by any of the five calls that take a token, and is told so.
  pub stale_writes : is_held key token r ≡ false → Refuses s key token
  unfolding renew_lease mark_completed mark_retry mark_terminal_failed mark_failed
  stale_writes h now n extension hash mime etag reason at = (
    write_refused key (is_renewable key token) _ (renewable_keyed key token) (λ r. refl) s r d e
        (ground arith),
    refused (complete now hash mime etag) (λ r. refl),
    refused (schedule n (or_else at none) reason) (λ r. refl),
    refused (fail CrawlState.terminal_failed (or_else reason none)) (λ r. refl),
    refused (fail CrawlState.failed (or_else reason none)) (λ r. refl),
  )
    where
      refused :
          (f : UrlRecord → UrlRecord) → KeepsKey f → write (is_held key token) f s ≡ (s, false)
      refused f k = write_refused key (is_held key token) f (held_keyed key token) k s r d e h

  -- In a store with distinct keys, the writes of a row's holder are accepted, and leave exactly the
  -- fields as they were that each is not to set: the completion sets the state, the hash, the type, the
  -- tag and the time, a retry the state, the count, the due time and the reason, a failure the state and
  -- the reason, and each of them clears the lease.
  pub holder_writes :
      (now n : ℕ) (hash mime etag reason : Option Text) (at : Option ℕ)
      → is_held key token r ≡ true
      → let done = mark_completed now key token hash mime etag s in
        let again = mark_retry key token n at none reason s in
        let stopped = mark_terminal_failed key token reason none s in
        let failed = mark_failed key (some token) reason none s in
        (done.1 ≡ true)
        × (find_record key done.0.records
            ≡ some (record r {
              crawl_state = CrawlState.completed;
              content_hash = hash;
              content_type = mime;
              etag = etag;
              last_crawl_timestamp = some now;
              lease_token = none;
              lease_expires_at = none;
            }))
        × (again.1 ≡ true)
        × (find_record key again.0.records
            ≡ some (record r {
              crawl_state = CrawlState.retry;
              retry_count = n;
              next_retry_at = at;
              failure_reason = reason;
              lease_token = none;
              lease_expires_at = none;
            }))
        × (stopped.1 ≡ true)
        × (find_record key stopped.0.records
            ≡ some (record r {
              crawl_state = CrawlState.terminal_failed;
              failure_reason = reason;
              lease_token = none;
              lease_expires_at = none;
            }))
        × (failed.1 ≡ true)
        × (find_record key failed.0.records
            ≡ some (record r {
              crawl_state = CrawlState.failed;
              failure_reason = reason;
              lease_token = none;
              lease_expires_at = none;
            }))
  unfolding mark_completed mark_retry mark_terminal_failed mark_failed
  holder_writes now n hash mime etag reason at h =
      let a = accepted (complete now hash mime etag) (λ r. refl) in
      let b = accepted (schedule n (or_else at none) reason) (λ r. refl) in
      let c = accepted (fail CrawlState.terminal_failed (or_else reason none)) (λ r. refl) in
      let d = accepted (fail CrawlState.failed (or_else reason none)) (λ r. refl) in
      let same = or_else-none reason in
      (
        a.0,
        a.1,
        b.0,
        b.1 ∙ ap (λ o. some (schedule n o reason r)) (or_else-none at),
        c.0,
        c.1 ∙ ap (λ o. some (fail CrawlState.terminal_failed o r)) same,
        d.0,
        d.1 ∙ ap (λ o. some (fail CrawlState.failed o r)) same,
      )
    where
      accepted :
          (f : UrlRecord → UrlRecord)
          → KeepsKey f
          → ((write (is_held key token) f s).1 ≡ true)
            × (find_record key (write (is_held key token) f s).0.records ≡ some (f r))
      accepted f k =
          let (flag, found) =
            write_lem key (is_held key token) f (held_keyed key token) k s r d e in
          (ground arith, rw h at found)
