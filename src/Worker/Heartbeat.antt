-- ===== src/Worker/Heartbeat.antt =====
-- `_lease_heartbeat` of src/crawler/worker.py. What anyone else does to the store while it sleeps is an
-- argument.
use web_crawler.Prelude.{ℕ, zero, suc, ◌+◌, ◌≡◌, refl, Bool, true, false, none, some, if◌then◌else◌}
use web_crawler.Types.{LeaseResult}
use web_crawler.Store.{UrlRecord, Store, find_record}
use web_crawler.Store.Frontier.{renew_lease, is_held}
use web_crawler.Store.Rows.{HasDistinctKeys}
use web_crawler.Store.Lifecycle.{renews, step}
use web_crawler.Store.Invariant.{IsValid, step-IsValid}
use web_crawler.Store.Ownership.{stale_writes}

module _ (clock : ℕ → ℕ) (meanwhile : ℕ → Store → Store) (lease_timeout_ms : ℕ)
    (lease : LeaseResult) where
  -- The loop, before its renewal `i`, with the number of renewals that it may still make.
  unfoldable pub beats : ℕ → ℕ → Store → Store
  beats zero i s = s
  beats (suc left) i s =
      let (renewed, success) =
        renew_lease (clock i) lease.normalized_url lease.lease_token lease_timeout_ms
          (meanwhile i s) in
      let rest = beats left (i + 1) renewed in if success then rest else renewed

  unfoldable pub lease_heartbeat : Store → Store
  unfolding beats
  lease_heartbeat s = beats 3 0 s

  -- A lease that was lost during the first sleep, so that its row is not held any more, ends the
  -- heartbeat: in a store with distinct keys it changes nothing after that sleep.
  pub lease_heartbeat_lost :
      (s : Store) (r : UrlRecord)
      → HasDistinctKeys (meanwhile 0 s).records
      → find_record lease.normalized_url (meanwhile 0 s).records ≡ some r
      → is_held lease.normalized_url lease.lease_token r ≡ false
      → lease_heartbeat s ≡ meanwhile 0 s
  unfolding lease_heartbeat beats
  lease_heartbeat_lost s r d e h =
      let refused =
        (stale_writes (meanwhile 0 s) lease.normalized_url lease.lease_token r d e h (clock 0) 0
          lease_timeout_ms none none none none none).0 in
      rw refused refl

  beats-IsValid :
      ((i : ℕ) (s : Store) → IsValid s → IsValid (meanwhile i s))
      → (left i : ℕ) (s : Store) → IsValid s
      → IsValid (beats left i s)
  unfolding beats step
  beats-IsValid keeps zero i s v = v
  beats-IsValid keeps (suc left) i s v =
      let renewed =
        step-IsValid (meanwhile i s)
          (renews (clock i) lease.normalized_url lease.lease_token lease_timeout_ms)
          (keeps i s v) in
      go
        (renew_lease (clock i) lease.normalized_url lease.lease_token lease_timeout_ms
          (meanwhile i s)).1
        renewed (beats-IsValid keeps left (i + 1) _ renewed)
    where
      go :
          {a b : Store}
          → (success : Bool) → IsValid b
          → IsValid a
          → IsValid (if success then a else b)
      go true x y = y
      go false x y = x

  -- Between steps that leave a valid store valid, the heartbeat leaves a valid store valid: in
  -- particular it never makes a lease be renewed more than three times.
  pub lease_heartbeat-IsValid :
      (s : Store)
      → ((i : ℕ) (t : Store) → IsValid t → IsValid (meanwhile i t))
      → IsValid s
      → IsValid (lease_heartbeat s)
  unfolding lease_heartbeat
  lease_heartbeat-IsValid s keeps v = beats-IsValid keeps 3 0 s v
