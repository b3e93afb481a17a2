-- ===== src/Scheduler/Rounds.antt =====
-- The turns of the loop of src/crawler/scheduler.py: when it stops, and how much it dispatches.
use web_crawler.Prelude.{
  ℕ, ◌+◌, ◌-◌, ◌≤◌, ◌<◌, ◌≡◌, refl, sym, ap, ◌↔◌, true, inl, inr, Option, none, some, List, [], ◌∷◌,
  Text, arith, All, count, length, Bool-cases, leb,
}
use web_crawler.Prelude.Int.{pos}
use web_crawler.Types.{CrawlState, CrawlerConfig, LeaseResult}
use web_crawler.Store.{UrlRecord, Store}
use web_crawler.Store.Frontier.{acquire_lease_batch}
use web_crawler.Store.Queries.{in_state}
use web_crawler.Store.Counts.{state_counts}
use web_crawler.Store.Rows.{HasDistinctKeys}
use web_crawler.Store.Invariant.{is_final, IsValid, step-IsValid}
use web_crawler.Store.Lifecycle.{step, expires}
use web_crawler.Store.Acquire.{acquire-grants}
use web_crawler.Scheduler.{
  is_crawl_complete, turn, turn_of, Turn, waits, finishes, idles, dispatches, Loop, lease_count,
  maybe_expire_leases, available_slots, lease_turn,
}

abbrev IsFinal : UrlRecord → Type 0
IsFinal r = is_final r.crawl_state ≡ true

IsFinal-of_counts :
    (rows : List UrlRecord)
    → count (in_state CrawlState.pending) rows ≡ 0
    → count (in_state CrawlState.retry) rows ≡ 0
    → count (in_state CrawlState.in_progress) rows ≡ 0
    → All IsFinal rows
IsFinal-of_counts [] p q t = tt
IsFinal-of_counts (r ∷ rs) p q t =
    (ground arith, IsFinal-of_counts rs (ground arith) (ground arith) (ground arith))

counts_of_final :
    (rows : List UrlRecord)
    → All IsFinal rows
    → (count (in_state CrawlState.pending) rows ≡ 0)
      × (count (in_state CrawlState.retry) rows ≡ 0)
      × (count (in_state CrawlState.in_progress) rows ≡ 0)
counts_of_final [] h = (refl, refl, refl)
counts_of_final (r ∷ rs) h = ground (arith, counts_of_final rs h.1, h.0)

-- The crawl is over exactly when every row is completed, failed or terminally failed.
pub is_crawl_complete_lem :
    (s : Store) → (is_crawl_complete s ≡ true) ↔ All (λ r. is_final r.crawl_state ≡ true) s.records
unfolding is_crawl_complete
is_crawl_complete_lem s =
    let counted = (state_counts s).0 in
    let pending = counted CrawlState.pending in
    let retry = counted CrawlState.retry in
    let running = counted CrawlState.in_progress in
    (
      λ h. IsFinal-of_counts s.records (ground arith) (ground arith) (ground arith),
      λ h. ground (arith, counts_of_final s.records h),
    )

-- What a turn may do with the capacity that is left.
abbrev pub TurnFits : ℕ → ℕ → ℕ → Turn → Type 0
TurnFits m b active (dispatches ls) = (0 < length ls) × (active + length ls ≤ m) × (length ls ≤ b)
TurnFits m b active waits = m ≤ active
TurnFits m b active idles = Unit {0}
TurnFits m b active finishes = Unit {0}

fits_of_batch :
    (m b active : ℕ) (s : Store) (ls : List LeaseResult)
    → active + length ls ≤ m
    → length ls ≤ b
    → TurnFits m b active (turn_of s ls)
unfolding turn_of
fits_of_batch m b active s [] h k = ground arith
fits_of_batch m b active s (l ∷ ls) h k = (omega arith, h, k)

batch_size_le :
    (draw : ℕ → Text) (now ttl available b : ℕ) (s : Store)
    → HasDistinctKeys s.records
    → (length (acquire_lease_batch draw now (lease_count available (pos b)) ttl s).1 ≤ available)
      × (length (acquire_lease_batch draw now (lease_count available (pos b)) ttl s).1 ≤ b)
batch_size_le draw now ttl available b s d = elim (Bool-cases (leb available b)) [
  | inl e ↦ rw e (ground (arith, (acquire-grants draw now available ttl s d).3))
  | inr e ↦ rw e (ground (arith, (acquire-grants draw now b ttl s d).3))
]

pub expire-IsValid :
    (now expiry_time last : ℕ) (s : Store)
    → IsValid s
    → IsValid (maybe_expire_leases now expiry_time last s).0
unfolding maybe_expire_leases step
expire-IsValid now expiry_time last s v = elim (Bool-cases (leb 500 (now - last))) [
  | inl e ↦ rw e (step-IsValid s (expires expiry_time) v)
  | inr e ↦ rw e v
]

finishes_of_batch :
    (s : Store) (ls : List LeaseResult) → turn_of s ls ≡ finishes → is_crawl_complete s ≡ true
unfolding turn_of
finishes_of_batch s [] e = ground arith
finishes_of_batch s (l ∷ ls) e = absurd (cc)

module _ (config : CrawlerConfig) (draw : ℕ → Text) (now active : ℕ) (loop : Loop) (s : Store) where
  lease_turn-TurnFits :
      (m b : ℕ) (o : Option ℕ)
      → config.max_concurrency ≡ pos m
      → config.batch_size ≡ pos b
      → available_slots (pos m) active ≡ o
      → HasDistinctKeys s.records
      → TurnFits m b active (lease_turn config draw now loop s o).2
  unfolding lease_turn
  lease_turn-TurnFits m b none em eb e d = ground arith
  lease_turn-TurnFits m b (some k) em eb e d =
      let sizes = batch_size_le draw now config.lease_timeout_ms k b s d in
      simp eb (fits_of_batch m b active _ _ (ground (arith, sizes.0)) sizes.1)

  lease_turn_finishes :
      (o : Option ℕ)
      → (lease_turn config draw now loop s o).2 ≡ finishes
      → is_crawl_complete (lease_turn config draw now loop s o).0 ≡ true
  unfolding lease_turn
  lease_turn_finishes none e = absurd (cc)
  lease_turn_finishes (some k) e = finishes_of_batch _ _ e

module _ (config : CrawlerConfig) (draw : ℕ → Text) (clock : ℕ → ℕ) (active : ℕ) (loop : Loop)
    (s : Store) where
  -- On a valid store, and with a concurrency and a batch size that are not negative, a turn hands
  -- the pool no more leases than it has free slots, nor than the batch size, and at least one; it
  -- waits for a slot only if none is free.
  pub turn-TurnFits :
      (m b : ℕ)
      → config.max_concurrency ≡ pos m
      → config.batch_size ≡ pos b
      → IsValid s
      → TurnFits m b active (turn config draw clock active loop s).2
  unfolding turn
  turn-TurnFits m b em eb v =
      lease_turn-TurnFits config draw (clock 2) active _ _ m b
        (available_slots config.max_concurrency active) em eb
        (ap (λ z. available_slots z active) (sym em))
        (expire-IsValid (clock 0) (clock 1) loop.last_expire_time s v).keys

  -- A turn that ends the loop leaves every row completed, failed or terminally failed.
  pub turn_finishes :
      (turn config draw clock active loop s).2 ≡ finishes
      → All (λ r. is_final r.crawl_state ≡ true) (turn config draw clock active loop s).0.records
  unfolding turn
  turn_finishes e = (is_crawl_complete_lem _).0 (
      lease_turn_finishes config draw (clock 2) active _ _
        (available_slots config.max_concurrency active) e)
