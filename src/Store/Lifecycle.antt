-- ===== src/Store/Lifecycle.antt =====
-- Histories of calls of src/crawler/metadata_store.py, and what holds of the rows after each.
use web_crawler.Prelude.{
  ℕ, ◌+◌, refl, Option, none, some, List, [], ◌∷◌, Text, arith, Bool-cases, inl, inr, any, ◌++◌,
}
use web_crawler.Prelude.Int.{ℤ}
use web_crawler.Store.{UrlRecord, Store, has_key}
use web_crawler.Store.Frontier.{
  enqueue, acquire_lease_batch, renew_lease, expire_leases, is_expired, is_renewable, is_held,
  new_record, parent_known, candidates,
}
use web_crawler.Store.Transitions.{
  mark_completed, mark_retry, mark_terminal_failed, mark_failed, is_waiting,
}
use web_crawler.Store.Moves.{
  Moves, renewed, released, retried, terminated, exhausted, Evolves, Evolves-update, Evolves-append,
  Evolves-refl, Evolves-lease_each,
}

-- A call that can change `url_records`.
pub data Call : Type 0 where
  enqueues : ℕ → Text → Text → ℕ → Option Text → ℕ → Call
  acquires : (ℕ → Text) → ℕ → ℤ → ℕ → Call
  renews : ℕ → Text → Text → ℕ → Call
  expires : ℕ → Call
  completes : ℕ → Text → Text → Option Text → Option Text → Option Text → Call
  retries : Text → Text → ℕ → Option ℕ → Option ℕ → Option Text → Call
  terminates : Text → Text → Option Text → Option Text → Call
  fails : Text → Option Text → Option Text → Option Text → Call

unfoldable pub step : Store → Call → Store
step s (enqueues now key url depth parent redirects) =
    (enqueue now key url depth parent redirects s).0
step s (acquires draw now size ttl) = (acquire_lease_batch draw now size ttl s).0
step s (renews now key token extension) = (renew_lease now key token extension s).0
step s (expires now) = (expire_leases now s).0
step s (completes now key token hash mime etag) = (mark_completed now key token hash mime etag s).0
step s (retries key token n at at_ms reason) = (mark_retry key token n at at_ms reason s).0
step s (terminates key token failure reason) = (mark_terminal_failed key token failure reason s).0
step s (fails key token failure reason) = (mark_failed key token failure reason s).0

unfoldable pub run : Store → List Call → Store
run s [] = s
run s (c ∷ cs) = run (step s c) cs

enqueue-Evolves :
    (s : Store) (now : ℕ) (key url : Text) (depth : ℕ) (parent : Option Text) (redirects : ℕ)
    → Evolves s.records (enqueue now key url depth parent redirects s).0.records
unfolding enqueue
enqueue-Evolves s now key url depth parent redirects =
    elim (Bool-cases (any (has_key key) s.records)) [
      | inl there ↦ rw there (Evolves-refl s.records)
      | inr absent ↦ rw absent (elim (Bool-cases (parent_known parent (s.records ++ row ∷ []))) [
        | inl known ↦ rw known (Evolves-append s.records row (now, depth, parent, redirects, refl))
        | inr unknown ↦ rw unknown (Evolves-refl s.records)
      ])
    ]
  where
    row : UrlRecord
    row = new_record now key url depth parent redirects

-- Every call moves each row by at most one step of the state machine, removes none, and adds only
-- fresh rows at the end.
pub step-Evolves : (s : Store) (c : Call) → Evolves s.records (step s c).records
unfolding step acquire_lease_batch renew_lease expire_leases mark_completed mark_retry
    mark_terminal_failed mark_failed
step-Evolves s (enqueues now key url depth parent redirects) =
    enqueue-Evolves s now key url depth parent redirects
step-Evolves s (acquires draw now size ttl) =
    Evolves-lease_each draw now (now + ttl) (candidates now size s.records) s.records
step-Evolves s (renews now key token extension) =
    Evolves-update (is_renewable key token) _ (λ r e. renewed _ (ground arith) (ground arith) refl)
      s.records
step-Evolves s (expires now) =
    Evolves-update (is_expired now) _ (λ r e. released (ground arith) refl) s.records
step-Evolves s (completes now key token hash mime etag) =
    Evolves-update (is_held key token) _
      (λ r e. Moves.completed now hash mime etag (ground arith) refl) s.records
step-Evolves s (retries key token n at at_ms reason) =
    Evolves-update (is_held key token) _ (λ r e. retried n _ reason (ground arith) refl) s.records
step-Evolves s (terminates key token failure reason) =
    Evolves-update (is_held key token) _ (λ r e. terminated _ (ground arith) refl) s.records
step-Evolves s (fails key (some token) failure reason) =
    Evolves-update (is_held key token) _ (λ r e. Moves.failed _ (ground arith) refl) s.records
step-Evolves s (fails key none failure reason) =
    Evolves-update (is_waiting key) _ (λ r e. exhausted _ (ground arith) refl) s.records
