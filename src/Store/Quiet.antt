-- ===== src/Store/Quiet.antt =====
-- What the calls on the store of src/crawler/metadata_store.py other than `enqueue` keep: the rows, each
-- with its key and its depth.
use web_crawler.Prelude.{
  ℕ, suc, ◌+◌, ◌≡◌, refl, sym, ◌∙◌, subst, List, [], ◌∷◌, Text, arith, length, All, some, none,
  or_else,
}
use web_crawler.Types.{CrawlState}
use web_crawler.Store.{UrlRecord, Store}
use web_crawler.Store.Rows.{length-update}
use web_crawler.Store.Frontier.{
  Candidate, lease_each, is_leasable_at, take_lease, is_renewable, extend, is_expired, reset,
  is_held, candidates, acquire_lease_batch, renew_lease, expire_leases,
}
use web_crawler.Store.Transitions.{
  mark_completed, mark_retry, mark_terminal_failed, mark_failed, complete, schedule, fail, give_up,
  is_waiting,
}
use web_crawler.Store.Moves.{
  Moves, Evolves, stays, leased, renewed, released, retried, terminated, exhausted,
}
use web_crawler.Store.Lifecycle.{
  Call, enqueues, acquires, renews, expires, completes, retries, terminates, fails, step,
  step-Evolves,
}
use web_crawler.Store.Invariant.{Moves-key}

-- Every call but `enqueue`.
abbrev pub IsQuiet : Call → Type 0
IsQuiet (enqueues now key url depth parent redirects) = ⊥
IsQuiet _ = Unit {0}

Moves-depth : {r r' : UrlRecord} → Moves r r' → r'.crawl_depth ≡ r.crawl_depth
Moves-depth (stays e) = ground arith
Moves-depth (leased now exp token can e) = ground arith
Moves-depth (renewed exp p n e) = ground arith
Moves-depth (released p e) = ground arith
Moves-depth (Moves.completed now hash mime etag p e) = ground arith
Moves-depth (retried n at reason p e) = ground arith
Moves-depth (Moves.failed reason p e) = ground arith
Moves-depth (terminated reason p e) = ground arith
Moves-depth (exhausted reason p e) = ground arith

length-lease_each :
    (draw : ℕ → Text) (i now until : ℕ) (cs : List Candidate) (rows : List UrlRecord)
    → length (lease_each draw i now until cs rows).0 ≡ length rows
unfolding lease_each
length-lease_each draw i now until [] rows = refl
length-lease_each draw i now until (c ∷ cs) rows =
    length-lease_each draw (suc i) now until cs _
    ∙ length-update (is_leasable_at now c.normalized_url) (take_lease (draw i) until) rows

length-step : (s : Store) (c : Call) → IsQuiet c → length (step s c).records ≡ length s.records
unfolding step acquire_lease_batch renew_lease expire_leases mark_completed mark_retry
    mark_terminal_failed mark_failed
length-step s (enqueues now key url depth parent redirects) quiet = absurd quiet
length-step s (acquires draw now size ttl) quiet =
    length-lease_each draw 0 now (now + ttl) (candidates now size s.records) s.records
length-step s (renews now key token extension) quiet =
    length-update (is_renewable key token) (extend (now + extension)) s.records
length-step s (expires now) quiet = length-update (is_expired now) reset s.records
length-step s (completes now key token hash mime etag) quiet =
    length-update (is_held key token) (complete now hash mime etag) s.records
length-step s (retries key token n at at_ms reason) quiet =
    length-update (is_held key token) (schedule n (or_else at at_ms) reason) s.records
length-step s (terminates key token failure reason) quiet =
    length-update (is_held key token) (fail CrawlState.terminal_failed (or_else failure reason))
      s.records
length-step s (fails key (some t) failure reason) quiet =
    length-update (is_held key t) (fail CrawlState.failed (or_else failure reason)) s.records
length-step s (fails key none failure reason) quiet =
    length-update (is_waiting key) (give_up (or_else failure reason)) s.records

module _ (P : Text → ℕ → Type 0) where
  -- A statement of the keys and the depths of all rows.
  abbrev pub AllAt : List UrlRecord → Type 0
  AllAt rows = All (λ r. P r.normalized_url r.crawl_depth) rows

  Evolves-AllAt :
      (xs ys : List UrlRecord) → Evolves xs ys → length ys ≡ length xs → AllAt xs → AllAt ys
  Evolves-AllAt [] [] e l h = tt
  Evolves-AllAt [] (y ∷ ys) e l h = absurd (omega arith)
  Evolves-AllAt (x ∷ xs) [] e l h = absurd e
  Evolves-AllAt (x ∷ xs) (y ∷ ys) e l h = (
    subst (λ key. P key y.crawl_depth) (sym (Moves-key e.0))
        (subst (P x.normalized_url) (sym (Moves-depth e.0)) h.0),
    Evolves-AllAt xs ys e.1 (omega arith) h.1,
  )

  pub step-AllAt : (s : Store) (c : Call) → IsQuiet c → AllAt s.records → AllAt (step s c).records
  step-AllAt s c quiet h = Evolves-AllAt _ _ (step-Evolves s c) (length-step s c quiet) h
