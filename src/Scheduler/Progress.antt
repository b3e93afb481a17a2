-- ===== src/Scheduler/Progress.antt =====
-- The turns of the loop of src/crawler/scheduler.py go on: from some time on, each turn that has a
-- free slot dispatches a lease or ends the crawl.
use web_crawler.Prelude.{
  ℕ, zero, suc, ◌+◌, ◌-◌, ◌≤◌, ◌<◌, ◌≡◌, refl, true, false, inl, inr, Option, none, some, List, [],
  ◌∷◌, Text, arith, All, count, length, Bool-cases, leb, is_some,
}
use web_crawler.Prelude.Int.{pos}
use web_crawler.Types.{CrawlState, CrawlerConfig, LeaseResult, in_progress, retry}
use web_crawler.Store.{UrlRecord, Store, is_due}
use web_crawler.Store.Frontier.{
  acquire_lease_batch, is_leasable, is_expired, reset, expire_leases, lease_each, Candidate,
  candidates,
}
use web_crawler.Store.Rows.{HasDistinctKeys, All-update}
use web_crawler.Store.Invariant.{IsValid, IsConsistent, is_final}
use web_crawler.Store.Acquire.{acquire-grants}
use web_crawler.Store.Frontier.Order.{length-candidates}
use web_crawler.Scheduler.{
  turn, turn_of, Turn, waits, finishes, idles, dispatches, Loop, maybe_expire_leases,
  available_slots, lease_turn, is_crawl_complete,
}
use web_crawler.Scheduler.Kept.{Reaches}
use web_crawler.Scheduler.Bound.{IsScheduled, Reaches-IsScheduled, Reaches-IsValid}
use web_crawler.Scheduler.Rounds.{is_crawl_complete_lem, expire-IsValid}

-- The time of the row's retry, or of the end of its lease, has come.
abbrev pub IsDue : ℕ → UrlRecord → Type 0
IsDue now r =
    (r.crawl_state ≡ retry → is_due r.next_retry_at now ≡ true)
    × (r.crawl_state ≡ in_progress → is_due r.lease_expires_at now ≡ true)

-- A turn that ends the crawl or hands leases to the pool.
abbrev pub IsActive : Turn → Type 0
IsActive (dispatches ls) = 0 < length ls
IsActive finishes = Unit {0}
IsActive waits = ⊥
IsActive idles = ⊥

expire-IsDue :
    (now expiry_time due_time last : ℕ) (s : Store)
    → All (IsDue due_time) s.records
    → All (IsDue due_time) (maybe_expire_leases now expiry_time last s).0.records
unfolding maybe_expire_leases expire_leases
expire-IsDue now expiry_time due_time last s h = elim (Bool-cases (leb 500 (now - last))) [
  | inl e ↦ rw e (
      All-update (IsDue due_time) (is_expired expiry_time) reset (λ r b _. (λ q. cc, λ q. cc))
        s.records h)
  | inr e ↦ rw e h
]

-- A due row that cannot be leased is final.
due_final :
    (now : ℕ) (r : UrlRecord)
    → IsDue now r
    → is_leasable now r ≡ false
    → is_final r.crawl_state ≡ true
due_final now r h e = go r.crawl_state refl
  where
    go : (c : CrawlState) → r.crawl_state ≡ c → is_final r.crawl_state ≡ true
    go CrawlState.pending q = ground arith
    go CrawlState.in_progress q = ground (arith, h.1 q)
    go CrawlState.completed q = rw q refl
    go CrawlState.retry q = ground (arith, h.0 q)
    go CrawlState.failed q = rw q refl
    go CrawlState.terminal_failed q = rw q refl

every_row_final :
    (now : ℕ) (rows : List UrlRecord)
    → All (IsDue now) rows
    → count (is_leasable now) rows ≡ 0
    → All (λ r. is_final r.crawl_state ≡ true) rows
every_row_final now [] h e = tt
every_row_final now (r ∷ rs) h e =
    (due_final now r h.0 (ground arith), every_row_final now rs h.1 (ground arith))

acquire_none :
    (draw : ℕ → Text) (now n ttl : ℕ) (s : Store)
    → count (is_leasable now) s.records ≡ 0
    → acquire_lease_batch draw now (pos n) ttl s ≡ (s, [])
unfolding acquire_lease_batch lease_each
acquire_none draw now n ttl s e = rw empty refl
  where
    no_candidates : (cs : List Candidate) → length cs ≡ 0 → cs ≡ []
    no_candidates [] h = refl
    no_candidates (c ∷ cs) h = absurd (omega arith)

    empty : candidates now (pos n) s.records ≡ []
    empty =
        no_candidates (candidates now (pos n) s.records)
          (ground (arith, length-candidates now n s.records))

-- What a batch of at least one makes of the turn.
batch-IsActive :
    (draw : ℕ → Text) (now n ttl : ℕ) (s : Store)
    → 0 < n
    → HasDistinctKeys s.records
    → All (IsDue now) s.records
    → IsActive (
        turn_of
          (acquire_lease_batch draw now (pos n) ttl s).0
          (acquire_lease_batch draw now (pos n) ttl s).1)
unfolding turn_of
batch-IsActive draw now n ttl s lt d h = go (count (is_leasable now) s.records) refl
  where
    some_batch : (t : Store) (ls : List LeaseResult) → 0 < length ls → IsActive (turn_of t ls)
    some_batch t [] l = absurd (omega arith)
    some_batch t (x ∷ ls) l = l

    go :
        (k : ℕ)
        → count (is_leasable now) s.records ≡ k
        → IsActive (
            turn_of
              (acquire_lease_batch draw now (pos n) ttl s).0
              (acquire_lease_batch draw now (pos n) ttl s).1)
    go zero e =
        let over : is_crawl_complete s ≡ true =
          (is_crawl_complete_lem s).1 (every_row_final now s.records h e) in
        rw (acquire_none draw now n ttl s e) (rw over tt)
    go (suc k) e = some_batch _ _ (ground (arith, (acquire-grants draw now n ttl s d).3))

module _ (config : CrawlerConfig) (draw : ℕ → Text) (clock : ℕ → ℕ) (active : ℕ) (loop : Loop)
    (s : Store) where
  -- With a free slot and a batch size that is positive, on a valid store in which every retry and
  -- every lease is due, a turn dispatches at least one lease or ends the crawl.
  pub turn-IsActive :
      (m b : ℕ)
      → config.max_concurrency ≡ pos m
      → config.batch_size ≡ pos b
      → active < m
      → 0 < b
      → IsValid s
      → All (IsDue (clock 2)) s.records
      → IsActive (turn config draw clock active loop s).2
  unfolding turn lease_turn
  turn-IsActive m b em eb free lt v h =
      let d = (expire-IsValid (clock 0) (clock 1) loop.last_expire_time s v).keys in
      let due = expire-IsDue (clock 0) (clock 1) (clock 2) loop.last_expire_time s h in
      let slots : available_slots config.max_concurrency active ≡ some (m - active) =
        ground arith in
      rw slots (
        rw eb (elim (Bool-cases (leb (m - active) b)) [
          | inl e ↦ rw e (batch-IsActive draw (clock 2) (m - active) _ _ (omega arith) d due)
          | inr e ↦ rw e (batch-IsActive draw (clock 2) b _ _ lt d due)
        ]))

abbrev or_now : Option ℕ → ℕ
or_now none = 0
or_now (some t) = t

-- A time by which every retry and every lease of the rows is due.
deadline : List UrlRecord → ℕ
deadline [] = 0
deadline (r ∷ rs) = or_now r.next_retry_at + or_now r.lease_expires_at + deadline rs

due_at : (t : Option ℕ) (now : ℕ) → is_some t ≡ true → or_now t ≤ now → is_due t now ≡ true
due_at none now e l = absurd (cc)
due_at (some t) now e l = ground arith

deadline-IsDue :
    (rows : List UrlRecord) (now : ℕ)
    → All IsScheduled rows
    → All IsConsistent rows
    → deadline rows ≤ now
    → All (IsDue now) rows
unfolding deadline
deadline-IsDue [] now p c l = tt
deadline-IsDue (r ∷ rs) now p c l = (
  (
    λ e. due_at r.next_retry_at now (p.0 e) (omega arith),
    λ e. due_at r.lease_expires_at now (ground (arith, c.0.expiry)) (omega arith),
  ),
  deadline-IsDue rs now p.1 c.1 (omega arith),
)

-- In every store that a crawl reaches there is a time such that every turn with a free slot in which
-- `acquire_lease_batch` reads that time or a later one dispatches at least one lease or ends the crawl,
-- where the concurrency is not negative and the batch size is positive: the loop does not idle for ever.
pub turn_eventually :
    (config : CrawlerConfig) (m b : ℕ) (s : Store)
    → config.max_concurrency ≡ pos m
    → config.batch_size ≡ pos b
    → 0 < b
    → Reaches config s
    → (time : ℕ) × ((draw : ℕ → Text) (clock : ℕ → ℕ) (active : ℕ) (loop : Loop)
        → time ≤ clock 2
        → active < m
        → IsActive (turn config draw clock active loop s).2)
turn_eventually config m b s em eb lt reach =
    let v = Reaches-IsValid config s reach in
    (
      deadline s.records,
      λ draw clock active loop l free.
          turn-IsActive config draw clock active loop s m b em eb free lt v
            (deadline-IsDue s.records (clock 2) (Reaches-IsScheduled config s reach) v.rows l),
    )
